-- ===== src/Lib.antt =====
-- The Tombstack native SDK: crash, bug and telemetry reports of a game, captured on its threads
-- and delivered by a worker thread.
--
-- The program's parts. The client (src/client.cpp) builds a JSON body for each report
-- (src/json_writer.cpp, src/payloads.cpp) and hands it to the worker (src/worker.cpp) as a job. The
-- worker posts it, reads the answer (src/json_scan.cpp), waits by src/retry_after.cpp and tries
-- again, or keeps the body in a pending file (src/sidecar_queue.cpp). Breadcrumbs collect in a ring
-- (src/breadcrumb_ring.cpp), log lines in src/session_log.cpp, events and metrics in a batch
-- (src/batch.cpp) that the worker drains; repeated reports are held back (src/dedupe.cpp). A marker
-- file (src/session_marker.cpp) tells the next run that this one crashed. Before the start, calls
-- are kept in src/preinit.cpp, which tombstone_init of src/tombstone_api.cpp replays, and
-- src/start_gate.h holds back what must not be sent yet.
--
-- Which file models which part (paths from the repository's root):
--   Retry           src/retry_after.cpp: parse_retry_after_seconds, retry_delay
--   Json/Escape, Json/Utf8, Json/Writer
--                   src/json_writer.cpp: json_escape, utf8_safe_truncate, JsonWriter
--   Json/Scan, Json/Upload, Json/Pending
--                   src/json_scan.cpp: the scanners for fields, find_log_upload and
--                   find_pending_requests
--   SessionMarker   src/session_marker.cpp: take_previous, write, remove
--   BreadcrumbRing  src/breadcrumb_ring.cpp: add, snapshot, clear
--   Dedupe          src/dedupe.cpp: check
--   StartGate       src/start_gate.h: arm, set (in its two atomic steps), is_set
--   Sampler         src/sampler.cpp: set_rate, should_keep
--   DeviceIdentity  src/device_identity.cpp: fnv1a64, derive, is_valid
--   SessionLog      src/session_log.cpp: append, flush, trim, rotation
--   PreInit         src/preinit.cpp: the capture calls and the settings, clear
--   Signature       src/signature.cpp: sha256_hex, hmac_sha256_hex, compute_crash_signature
--   Payloads        src/payloads.cpp: the helpers; Device, Metadata, Crash, Items, Heartbeat and
--                   Pull: the builders; Limits: the limits of src/payloads.h
--   Batch           src/batch.cpp, and build_batch_envelope of src/payloads.cpp
--   SidecarQueue    src/sidecar_queue.cpp: write, remove, scan, pending_count
--   Worker/Job      src/worker.h: the jobs and the worker's state
--   Worker          src/worker.cpp: enqueue, take_ready_job, process and what it calls, start, stop
--   Worker/Wakeup   src/worker.cpp: next_wakeup
--   Worker/Step     the thread loop of src/worker.cpp and the calls of other threads, as steps
--   Client/Identity, Client/Carry, Client/Device
--                   src/client.cpp and src/client_reports.cpp: set_user, set_user_metadata, what a
--                   heartbeat carries and what its acknowledgement commits; set_device
--   Client/Beats    the rounds of the heartbeat thread, and the beats on their way, acknowledged or
--                   lost, as a step relation
--   Client/State, Client/Capture, Client/Telemetry, Client/Control
--                   the client's state, its capture calls, and its control calls with the
--                   heartbeat, the acknowledgement and the restart of pending files
--   Client/Context, Client/Diagnostics
--                   the labels of a match or a server, and diagnostics
--   Client/DeviceFile, Client/Session, Client/Launch
--                   src/client.cpp: the identity file; the session's marker and the report of the
--                   last session's death; init, set_consent and the destructor
--   Api, Api/Entries, Api/Init
--                   src/tombstone_api.cpp: the client of the process and the pre-init store, the
--                   entry points, tombstone_init with the replay, and tombstone_shutdown
--   NativeCrash     src/native_crash.cpp: the dump that the signal handler writes, and parse_dump
--   NativeCrash/BuildId, NativeCrash/Modules, NativeCrash/Handler
--                   src/native_crash.cpp: read_build_id, phdr_callback; the handler, install and
--                   take_previous
--   Prelude         shared names, and lemmas on lists, texts, maps and windows
-- The other modules of a folder hold its proofs; each Tests module holds runs and witnesses.
--
-- How it is modelled. A string is the list of its bytes. State is a record that each operation
-- takes and returns; a mutex makes calls a sequence, so threads are orders of calls. What happens
-- outside is an argument: the clock, the server's answer, whether a file opens or can be deleted,
-- the random file name, what the sampler answers, and for the worker the jobs that the client's
-- ack handler queues. A directory is a list of names and contents. Time is in milliseconds of the
-- steady clock; attempt counts and sizes are far from the bounds of their machine types (the
-- queue holds 256 jobs, a job has five attempts, a header value has nine digits), so they are
-- natural numbers or integers. An address of the dump file wraps at 2 ^ 64, one of the module table
-- at the width of a pointer, which is an argument, and a note's sizes at 2 ^ 32.
-- A round of the heartbeat thread is four steps, between which other threads may act.
--
-- Fuel. read_fields has fuel for 33 fields, and the source refuses the 33rd. The drain of a batch
-- has its number of items, and drains one at least in each turn. The walk of a note segment has
-- one unit for each byte and one more, and each note takes twelve bytes at least. A number has
-- fewer decimal digits than its value and one more, the fuel of its decimal text.
--
-- Doubles. Payloads.Doubles is a parameter: a type of numbers, which of them are finite and above
-- 0, and what snprintf prints for one. That a finite number is printed without a quote is its
-- law. Sampler.Rates is another: doubles with 0 and 1, their two comparisons, and the laws of these
-- that IEEE 754 gives to doubles that are numbers.
--
-- Not modelled: the waits of the heartbeat loop and of the worker's flush, exceptions, a write of
-- the signal handler that fails or is cut short, the registers of a ucontext, libcurl, the file
-- system and the platform themselves, floating-point arithmetic (the frame statistics) and the
-- clock's text.
pub mod Prelude
pub mod Retry
pub mod Json
pub mod SessionMarker
pub mod BreadcrumbRing
pub mod Dedupe
pub mod StartGate
pub mod DeviceIdentity
pub mod Sampler
pub mod SessionLog
pub mod PreInit
pub mod Signature
pub mod Payloads
pub mod Batch
pub mod SidecarQueue
pub mod NativeCrash
pub mod Worker
pub mod Client
pub mod Api
