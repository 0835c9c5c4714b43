-- ===== src/Client/Launch/Sample.antt =====
-- A game's options, a machine and an empty data directory, for the runs.
use tombstack_native.Prelude.{true, false, none, some, [], codes}
use tombstack_native.SessionMarker
use tombstack_native.Client.State.{Moment}
use tombstack_native.Client.Launch.{Options, Host, DataDir}

abbrev pub options : Options
options = record {
  endpoint = some (codes "https://t");
  token = some (codes "tmb");
  build_version = some (codes "1");
  environment = none;
  enable_session_log = true;
  enable_unclean_shutdown_detection = true;
  consent_granted = true;
  auto_start_session = true;
  enable_native_crash_handler = true;
}

abbrev pub host : Host
host = record {
  os = codes "linux";
  arch = codes "x64";
  session_id = codes "a1";
  machine = record { machine_id = codes "m"; random = codes "r" };
}

abbrev pub good_disk : SessionMarker.Disk
good_disk = record { opens = true; removes = true }

abbrev pub first_dir : DataDir
first_dir = record {
  usable = true;
  identity = none;
  identity_reads = true;
  identity_writes = true;
  marker = none;
  marker_disk = good_disk;
  current_log = none;
  previous_log = none;
  log_disk = record {
    removes = true;
    renames = true;
    appends = true;
    truncates = true;
    reads = true;
  };
  sidecars = record { crashes = []; bug_reports = []; events = []; configured = false };
  dump = none;
  dump_reads = true;
  dump_removes = true;
}

abbrev pub moment : Moment
moment = record {
  iso = λ i. codes "2026";
  now = λ i. 1000;
  disk = record { removes = true; renames = true; appends = true; truncates = true; reads = true };
  draw = record { name = codes "1.json"; opens = true };
}
