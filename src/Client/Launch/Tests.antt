-- ===== src/Client/Launch/Tests.antt =====
-- Two runs on one data directory.
use tombstack_native.Prelude.{◌≡◌, refl, Bool, true, false, some, List, [], ◌∷◌, is_empty, codes}
use tombstack_native.Prelude.Int.{pos}
use tombstack_native.Payloads.Whole.{whole}
use tombstack_native.NativeCrash.{ModuleEntry, Crash, dump_writes}
use tombstack_native.NativeCrash.RoundTrip.{written}
use tombstack_native.SessionMarker
use tombstack_native.SidecarQueue
use tombstack_native.Worker
use tombstack_native.Client.DeviceFile.{
  Machine, acquire_device_identity, acquire_device_identity_again,
}
use tombstack_native.Client.State.{Moment}
use tombstack_native.Client.Control.{drain_sidecars}
use tombstack_native.Client.Session.{Session, start_session_tracking}
use tombstack_native.Client.Launch.Sample.{options, host, good_disk, first_dir, moment}
use tombstack_native.Client.Launch.{DataDir, configure_storage, prepare, identity_file, close}
use tombstack_native.Client.Launch.Deaths.{close-silent}

abbrev first_run : Session whole
first_run = prepare whole options host first_dir 0

abbrev game : ModuleEntry
game = record { base = 4096; end_address = 8192; name = codes "libgame.so"; build_id = [] }

abbrev segfault : Crash
segfault = record { signal_no = pos 11; code = pos 1; fault_addr = 16; pc = 4112; lr = 0 }

-- the directory behind a native crash of the first run
abbrev dead_dir : DataDir
dead_dir = record first_dir {
  marker = (start_session_tracking whole good_disk moment first_run).marker.file;
  dump = some (written (dump_writes (game ∷ []) segfault));
}

abbrev second_run : Session whole
second_run = prepare whole options host dead_dir 0

marker_is_ready :
    (first_run.marker.configured ≡ true)
    × (first_run.client.settings.storage_available ≡ true)
    × (is_empty first_run.client.settings.session_id ≡ false)
    × (first_run.unclean_detection_enabled ≡ true)
unfolding prepare configure_storage drain_sidecars SessionMarker.take_previous
    SessionMarker.configure
marker_is_ready = (refl, refl, refl, refl)

abbrev changes : List (SessionMarker.Disk × Moment × Bool)
changes = (good_disk, moment, false) ∷ (good_disk, moment, true) ∷ []

-- the directory behind a clean end of the first run
abbrev clean_dir : DataDir
clean_dir = record first_dir { marker = (close whole good_disk moment [] first_run).marker.file }

close-silent_example :
    (start_session_tracking whole good_disk moment (prepare whole options host clean_dir 0)).client
    ≡ (prepare whole options host clean_dir 0).client
close-silent_example =
    close-silent whole good_disk good_disk moment moment [] first_run options host clean_dir 0
      marker_is_ready.0 marker_is_ready.1 refl refl

abbrev rotated : Machine
rotated = record { machine_id = []; random = codes "q" }

acquire_device_identity_again_example :
    acquire_device_identity
      (codes "new")
      rotated
      (acquire_device_identity (codes "tmb") host.machine (identity_file first_dir)).1
    ≡ acquire_device_identity (codes "tmb") host.machine (identity_file first_dir)
acquire_device_identity_again_example =
    acquire_device_identity_again (codes "tmb") (codes "new") host.machine rotated
      (identity_file first_dir) refl refl refl
