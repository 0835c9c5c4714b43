-- ===== src/Api/Calls.antt =====
-- What a game calls before `tombstone_init`.
use tombstack_native.Prelude.{ℕ, Bool, Option, none, List, [], ◌∷◌, Bytes}
use tombstack_native.Payloads.{Doubles}
use tombstack_native.PreInit.{new_store}
use tombstack_native.Sampler.{Rates}
use tombstack_native.Client.Identity.{Result}
use tombstack_native.Client.Capture.{Level}
use tombstack_native.Api.{Live, Process, Now, with_client}
use tombstack_native.Api.Entries

-- A call of an entry point; one that needs a client is given by what it does to one.
pub data Call (d : Doubles) : Type 0 where
  user : Option Bytes → Option Bytes → Call d
  consent : Now d → Bool → Call d
  session : Call d
  environment : Option Bytes → Call d
  user_metadata : Option (List (Option Bytes)) → Option (List (Option Bytes)) → ℕ → Call d
  breadcrumb : Now d → Level → Option Bytes → Call d
  event :
      Now d
      → Option Bytes
      → Option (List (Option Bytes))
      → Option (List (Option Bytes))
      → ℕ
      → Call d
  metric : Now d → Option Bytes → d.double → Option Bytes → Call d
  unbuffered : (Live d → Live d × Result) → Call d

abbrev pub new_process : (d : Doubles) → Process d
new_process d = record { client = none; preinit = new_store }

module _ (d : Doubles) (real : Rates d.double) (is_finite : d.double → Bool) where
  unfoldable pub run : Call d → Process d → Process d × Result
  run (user user_id steam_id) p = Entries.tombstone_set_user d user_id steam_id p
  run (consent now granted) p = Entries.tombstone_set_consent d now granted p
  run session p = Entries.tombstone_start_session d p
  run (environment e) p = Entries.tombstone_set_environment d e p
  run (user_metadata keys values count) p =
      Entries.tombstone_set_user_metadata d keys values count p
  run (breadcrumb now level message) p = Entries.tombstone_add_breadcrumb d now level message p
  run (event now name keys values count) p =
      Entries.tombstone_track_event d real is_finite now name keys values count p
  run (metric now name value unit) p =
      Entries.tombstone_track_metric d real is_finite now name value unit p
  run (unbuffered action) p = with_client d action p

  unfoldable pub run_all : List (Call d) → Process d → Process d
  run_all [] p = p
  run_all (call ∷ calls) p = run_all calls (run call p).0
