-- ===== src/Client.antt =====
-- src/client.h, src/client.cpp and src/client_reports.cpp: the client over the components that the
-- other modules model. The fields that one mutex guards are a record, and each critical section is
-- a function on it.
pub mod Identity
pub mod Carry
pub mod Device
pub mod Beats
pub mod DeviceFile
pub mod State
pub mod Capture
pub mod Telemetry
pub mod Context
pub mod Diagnostics
pub mod Control
pub mod Session
pub mod Launch
mod Tests
