-- ===== src/Client/Launch/Reported.antt =====
-- How the next run reports that a run died.
use tombstack_native.Prelude.{
  ◌^◌, ◌<◌, ◌≡◌, true, Option, none, some, List, [], ◌∷◌, ◌++◌, leb, ◌==◌, if◌then◌else◌, length,
  pop_front, All, codes,
}
use tombstack_native.Payloads.{Doubles}
use tombstack_native.Payloads.Crash.{CrashPayload, build_crash_json}
use tombstack_native.Prelude.Int.{pos, negsuc}
use tombstack_native.Worker.{UploadJob, write_ahead}
use tombstack_native.NativeCrash.{NativeCrashDump, ModuleEntry, Crash, dump_writes}
use tombstack_native.NativeCrash.Text.{IsInt}
use tombstack_native.NativeCrash.RoundTrip.{IsPlain, written, dump_of}
use tombstack_native.SessionMarker
use tombstack_native.SessionMarker.{write}
use tombstack_native.Client.State.{Client}
use tombstack_native.Client.Session.{Session}
use tombstack_native.Client.Launch.{Options, DataDir}

module _ (d : Doubles) where
  -- What the handler of the run that died left: no file, or the whole dump of a crash, which the next
  -- run is to pick up.
  abbrev pub Leaves : Options → DataDir → Option (List ModuleEntry × Crash) → Type 0
  Leaves options dir none = dir.dump ≡ none
  Leaves options dir (some (modules, c)) =
      All IsPlain modules
      × (IsInt c.signal_no × IsInt c.code)
      × ((c.fault_addr < 2 ^ 64) × (c.pc < 2 ^ 64) × (c.lr < 2 ^ 64))
      × (dir.dump ≡ some (written (dump_writes modules c)))
      × ((dir.dump_reads ≡ true) × (options.enable_native_crash_handler ≡ true))

  abbrev dump_left : Option (List ModuleEntry × Crash) → Option NativeCrashDump
  dump_left none = none
  dump_left (some (modules, c)) = some (dump_of modules c)

  -- How the report says what happened: an unclean shutdown, or the signal of the crash, where an
  -- abort has a type of its own.
  abbrev pub Tells : Option (List ModuleEntry × Crash) → CrashPayload d → Type 0
  Tells none p = (p.signature ≡ codes "unclean-shutdown") × (p.crash_type ≡ [])
  Tells (some (modules, c)) p =
      (p.os_signal ≡ c.signal_no)
      × (p.crash_type ≡ elim c.signal_no [
        | pos n ↦ if n == 6 then codes "signal" else codes "native_crash"
        | negsuc n ↦ codes "native_crash"
      ])

  -- The last job of the queue, behind what was there, is a crash report with this payload, which names
  -- this build, system and architecture.
  pub record Reports (crashed : Option (List ModuleEntry × Crash)) (dead before after : Client d)
      : Type 0 where
    pub payload : CrashPayload d
    pub job : UploadJob
    pub queued :
        after.worker.queue
        ≡ (if leb 256 (length before.worker.queue)
            then pop_front before.worker.queue
            else before.worker.queue)
          ++ job ∷ []
    pub url : job.url ≡ before.settings.endpoint ++ codes "/api/v1/ingest/crashes"
    pub body : job.body ≡ build_crash_json d payload
    pub kept : job.durability ≡ write_ahead
    pub build_version : payload.build_version ≡ dead.settings.build_version
    pub os : payload.os ≡ dead.settings.os
    pub arch : payload.arch ≡ dead.settings.arch
    pub tells : Tells crashed payload
