-- ===== src/NativeCrash/Handler.antt =====
-- The signal handler of src/native_crash.cpp, how it is installed, and how the next launch takes the
-- dump. What the system answers is an argument; a call of the handler is the list of what it does,
-- in order. A write that fails is left out here.
use tombstack_native.Prelude.{
  take_else, take_then, ℕ, ◌≡◌, refl, ap, ◌∙◌, Bool, true, false, not, Option, none, some, List, [],
  ◌∷◌, ◌++◌, map, append-nil, arith, ◌==◌, if◌then◌else◌, Bytes,
}
use tombstack_native.NativeCrash.{NativeCrashDump, ModuleEntry, Crash, dump_writes, parse_dump}
use tombstack_native.Prelude.Int.{ℤ, pos}
use tombstack_native.NativeCrash.Modules.{Object, load_modules}

-- What was installed for a signal before: the default or none, or a handler of one or three
-- arguments.
pub data OldAction : Type 0 where
  default ignored plain_handler info_handler : OldAction

pub record HandlerState : Type 0 where
  pub modules : List ModuleEntry
  pub dump_open : Bool
  pub old_actions : List (ℕ × OldAction)
  pub installed : Bool
  pub in_handler : Bool

pub data Effect : Type 0 where
  dump : List Bytes → Effect
  sync : Effect
  call_old : ℤ → Effect
  set_default : ℤ → Effect
  raise : ℤ → Effect

abbrev pub signals : List ℕ
signals = 11 ∷ 6 ∷ 7 ∷ 4 ∷ 8 ∷ 5 ∷ []

pub find_old : ℤ → List (ℕ × OldAction) → Option OldAction
find_old sig [] = none
find_old (pos n) ((m, old) ∷ rest) = if m == n then some old else find_old (pos n) rest
find_old sig (entry ∷ rest) = none

unfoldable pub reraise_default : ℤ → List Effect
reraise_default sig = set_default sig ∷ raise sig ∷ []

unfoldable pub chain_old : ℤ → HandlerState → List Effect
unfolding find_old reraise_default
chain_old sig s = elim (find_old sig s.old_actions) [
  | some plain_handler ↦ call_old sig ∷ []
  | some info_handler ↦ call_old sig ∷ []
  | _ ↦ reraise_default sig
]

-- `tombstone_signal_handler`
unfoldable pub handle : Crash → HandlerState → HandlerState × List Effect
unfolding chain_old reraise_default
handle crash s = if s.in_handler then (s, chain_old crash.signal_no s) else (
  record s { in_handler = true },
  (if s.dump_open then dump (dump_writes s.modules crash) ∷ sync ∷ [] else [])
      ++ (chain_old crash.signal_no s ++ reraise_default crash.signal_no),
)

-- The signals in the order in which they arrive.
pub handle_all : List Crash → HandlerState → List Effect
handle_all [] s = []
handle_all (crash ∷ crashes) s = (handle crash s).1 ++ handle_all crashes (handle crash s).0

-- What each `sigaction` answers: the action that was there, or `none` where it fails.
abbrev replaced : List (ℕ × Option OldAction) → List (ℕ × OldAction)
replaced [] = []
replaced ((sig, none) ∷ rest) = (sig, default) ∷ replaced rest
replaced ((sig, some old) ∷ rest) = (sig, old) ∷ replaced rest

abbrev any_set : List (ℕ × Option OldAction) → Bool
any_set [] = false
any_set ((sig, none) ∷ rest) = any_set rest
any_set ((sig, some old) ∷ rest) = true

abbrev answers : (ℕ → Option OldAction) → List (ℕ × Option OldAction)
answers sigaction = map (λ sig. (sig, sigaction sig)) signals

-- The bits of an address, whether the dump file opens, the loaded objects, and the answers of `sigaction`. The last answer
-- is the dump file, which opening it truncates.
unfoldable pub install :
    ℕ
    → Bool
    → List Object
    → (ℕ → Option OldAction)
    → Option Bytes
    → HandlerState
    → HandlerState × Bool × Option Bytes
install width opens objects sigaction file s =
    let set = any_set (answers sigaction) in
    let ready = record s {
      modules = (load_modules width objects ([], [])).0;
      old_actions = replaced (answers sigaction);
      dump_open = set;
      installed = set;
    } in
    if s.installed
    then (s, true, file)
    else if not opens
    then (record s { dump_open = false }, false, file)
    else (ready, set, some [])

-- Whether the file opens for reading, and whether it can be removed.
unfoldable pub take_previous : Bool → Bool → Option Bytes → Option Bytes × Option NativeCrashDump
take_previous opens removes none = (none, none)
take_previous opens removes (some text) =
    (if removes then none else some text, if opens then parse_dump text else none)

-- the dumps among what was done
abbrev pub dumps : List Effect → List (List Bytes)
dumps [] = []
dumps (dump writes ∷ es) = writes ∷ dumps es
dumps (_ ∷ es) = dumps es

dumps-append : (a b : List Effect) → dumps (a ++ b) ≡ dumps a ++ dumps b
dumps-append [] b = refl
dumps-append (dump writes ∷ a) b = ap (λ ws. writes ∷ ws) (dumps-append a b)
dumps-append (e ∷ a) b = dumps-append a b

dumps-chain_old : (sig : ℤ) (s : HandlerState) → dumps (chain_old sig s) ≡ []
unfolding chain_old reraise_default
dumps-chain_old sig s = ground arith

handle_again :
    (crash : Crash) (s : HandlerState)
    → s.in_handler ≡ true
    → handle crash s ≡ (s, chain_old crash.signal_no s)
unfolding handle
handle_again crash s h = take_then s.in_handler _ _ h

-- Behind the first signal nothing is dumped.
dumps-again :
    (crashes : List Crash) (s : HandlerState)
    → s.in_handler ≡ true
    → dumps (handle_all crashes s) ≡ []
unfolding handle_all
dumps-again [] s h = refl
dumps-again (crash ∷ crashes) s h = rw (handle_again crash s h) (
    dumps-append (chain_old crash.signal_no s) (handle_all crashes s)
    ∙ rw (dumps-chain_old crash.signal_no s) (dumps-again crashes s h))

-- what the first call does
first_effects : Crash → HandlerState → List Effect
first_effects crash s =
    (if s.dump_open then dump (dump_writes s.modules crash) ∷ sync ∷ [] else [])
    ++ (chain_old crash.signal_no s ++ reraise_default crash.signal_no)

handle_first :
    (crash : Crash) (s : HandlerState)
    → s.in_handler ≡ false
    → handle crash s ≡ (record s { in_handler = true }, first_effects crash s)
unfolding handle first_effects
handle_first crash s h = take_else s.in_handler _ _ h

dumps-first_effects :
    (crash : Crash) (s : HandlerState)
    → dumps (first_effects crash s) ≡ (if s.dump_open then dump_writes s.modules crash ∷ [] else [])
unfolding first_effects reraise_default
dumps-first_effects crash s =
    dumps-append (if s.dump_open then dump (dump_writes s.modules crash) ∷ sync ∷ [] else [])
      (chain_old crash.signal_no s ++ reraise_default crash.signal_no)
    ∙ rw
        (
          dumps-append (chain_old crash.signal_no s) (reraise_default crash.signal_no),
          dumps-chain_old crash.signal_no s,
        )
        (opened s.dump_open)
  where
    opened :
        (b : Bool)
        → dumps (if b then dump (dump_writes s.modules crash) ∷ sync ∷ [] else []) ++ []
          ≡ (if b then dump_writes s.modules crash ∷ [] else [])
    opened true = refl
    opened false = refl

-- Of all the signals that arrive, in whatever order and inside the old handlers too, the first one
-- alone is dumped, where the file is open.
pub dumps-handle_all :
    (crash : Crash) (crashes : List Crash) (s : HandlerState)
    → s.in_handler ≡ false
    → dumps (handle_all (crash ∷ crashes) s)
      ≡ (if s.dump_open then dump_writes s.modules crash ∷ [] else [])
unfolding handle_all
dumps-handle_all crash crashes s h = rw (handle_first crash s h) (
    dumps-append (first_effects crash s) _
    ∙ rw (dumps-again crashes (record s { in_handler = true }) refl)
        (append-nil (dumps (first_effects crash s)) ∙ dumps-first_effects crash s))
