-- ===== src/Api/Tests.antt =====
-- A game that calls before `tombstone_init`.
use tombstack_native.Prelude.{ℕ, refl, Bool, true, false, none, some, List, [], ◌∷◌, ◌++◌, codes}
use tombstack_native.Prelude.Windows.{newest}
use tombstack_native.Payloads.Whole.{whole}
use tombstack_native.Sampler.Percents.{percents}
use tombstack_native.Client.Capture.{warn}
use tombstack_native.Client.Launch.Sample.{options, host, good_disk, first_dir, moment}
use tombstack_native.Api.{Now}
use tombstack_native.Api.Init.{tombstone_init}
use tombstack_native.Api.Calls.{
  Call, user, consent, environment, breadcrumb, event, session, run_all, new_process,
}
use tombstack_native.Api.Chosen.{choose_all}
use tombstack_native.Api.First.{initial, Starts, init-chosen}
use tombstack_native.Api.Unheard.{Silences, init-unheard}
use tombstack_native.Api.Remembered.{Trails, told, left, init-remembers}

abbrev finite : ℕ → Bool
finite n = true

abbrev now : Now whole
now = record { moment = moment; files = good_disk; roll = 50 }

abbrev always : ℕ → Now whole
always i = now

-- a login, a label, two captures and the start
abbrev willing : List (Call whole)
willing =
    user (some (codes "ada")) none
    ∷ environment (some (codes "qa"))
    ∷ environment none
    ∷ breadcrumb now warn (some (codes "menu"))
    ∷ event now (some (codes "boot")) none none 0
    ∷ session
    ∷ []

-- the same, and then a refusal
abbrev unwilling : List (Call whole)
unwilling = willing ++ consent now false ∷ []

init-chosen_example :
    Starts whole percents finite now always always host first_dir
      (choose_all willing (initial options))
      (tombstone_init whole percents finite now always always host first_dir
        (some options)
        (run_all whole percents finite willing (new_process whole)))
init-chosen_example =
    init-chosen whole percents finite now always always host first_dir options willing refl

init-unheard_example :
    Silences whole percents finite now always always host first_dir
      (tombstone_init whole percents finite now always always host first_dir
        (some options)
        (run_all whole percents finite unwilling (new_process whole))).0
init-unheard_example =
    init-unheard whole percents finite now always always host first_dir options unwilling refl refl

init-remembers_example :
    Trails whole percents finite now always always host first_dir
      (told always (newest 64 (left willing)))
      (tombstone_init whole percents finite now always always host first_dir
        (some options)
        (run_all whole percents finite willing (new_process whole))).0
init-remembers_example =
    init-remembers whole percents finite now always always host first_dir options willing refl refl
