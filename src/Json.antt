-- ===== src/Json.antt =====
-- src/json_writer.h, src/json_writer.cpp, src/json_scan.h and src/json_scan.cpp: the JSON that the
-- SDK writes, and the few values that it reads back.
pub mod Escape
pub mod Utf8
pub mod Writer
pub mod Scan
pub mod Upload
pub mod Pending
mod Tests
