-- ===== src/PreInit.antt =====
-- src/preinit.h and src/preinit.cpp: what the API captures before `tombstone_init`. A metric's
-- value is an uninterpreted number: the type parameter F stands for `double`.
pub mod Capture
mod Tests
use tombstack_native.Prelude.{
  ℕ, Bool, true, false, Option, none, some, List, [], ◌∷◌, ◌++◌, leb, if◌then◌else◌, length,
  pop_front, Bytes,
}
use tombstack_native.Prelude.Int.{ℤ}

pub record Crumb : Type 0 where
  pub level : ℤ
  pub message : Bytes

pub record Track {ℓ} (F : Type ℓ) : Type ℓ where
  pub is_metric : Bool
  pub name : Bytes
  pub attributes : List (Bytes × Bytes)
  pub value : Option F
  pub unit : Bytes

pub record PreInitStore {ℓ} (F : Type ℓ) : Type ℓ where
  pub breadcrumbs : List Crumb
  pub tracks : List (Track F)
  pub has_user : Bool
  pub user_id : Bytes
  pub steam_id : Bytes
  pub has_environment : Bool
  pub environment : Bytes
  pub has_user_metadata : Bool
  pub user_metadata : List (Bytes × Bytes)
  pub has_consent : Bool
  pub consent : Bool
  pub start_session_requested : Bool

abbrev pub max_breadcrumbs : ℕ
max_breadcrumbs = 64

abbrev pub max_tracks : ℕ
max_tracks = 128

module _ {ℓ} {F : Type ℓ} where
  -- the default member initialisers
  abbrev pub new_store : PreInitStore F
  new_store = record {
    breadcrumbs = [];
    tracks = [];
    has_user = false;
    user_id = [];
    steam_id = [];
    has_environment = false;
    environment = [];
    has_user_metadata = false;
    user_metadata = [];
    has_consent = false;
    consent = true;
    start_session_requested = false;
  }

  unfoldable pub add_breadcrumb : ℤ → Bytes → PreInitStore F → PreInitStore F
  add_breadcrumb level message s = record s {
    breadcrumbs =
        (if leb max_breadcrumbs (length s.breadcrumbs)
          then pop_front s.breadcrumbs
          else s.breadcrumbs)
        ++ record { level = level; message = message } ∷ [];
  }

  unfoldable pub add_track : Track F → PreInitStore F → PreInitStore F × Bool
  add_track track s =
      if leb max_tracks (length s.tracks)
      then (s, false)
      else (record s { tracks = s.tracks ++ track ∷ [] }, true)

  unfoldable pub add_event : Bytes → List (Bytes × Bytes) → PreInitStore F → PreInitStore F × Bool
  unfolding add_track
  add_event name attributes s =
      add_track
        (record {
          is_metric = false;
          name = name;
          attributes = attributes;
          value = none;
          unit = [];
        })
        s

  unfoldable pub add_metric : Bytes → F → Bytes → PreInitStore F → PreInitStore F × Bool
  unfolding add_track
  add_metric name value unit s =
      add_track
        (record { is_metric = true; name = name; attributes = []; value = some value; unit = unit })
        s

  unfoldable pub set_user : Bytes → Bytes → PreInitStore F → PreInitStore F
  set_user user_id steam_id s = record s { has_user = true; user_id = user_id; steam_id = steam_id }

  unfoldable pub set_environment : Bytes → PreInitStore F → PreInitStore F
  set_environment environment s = record s { has_environment = true; environment = environment }

  unfoldable pub set_user_metadata : List (Bytes × Bytes) → PreInitStore F → PreInitStore F
  set_user_metadata entries s = record s { has_user_metadata = true; user_metadata = entries }

  unfoldable pub set_consent : Bool → PreInitStore F → PreInitStore F
  set_consent granted s = record s { has_consent = true; consent = granted }

  unfoldable pub request_start_session : PreInitStore F → PreInitStore F
  request_start_session s = record s { start_session_requested = true }

  unfoldable pub clear : PreInitStore F → PreInitStore F
  clear s = record {
    breadcrumbs = [];
    tracks = [];
    has_user = false;
    user_id = [];
    steam_id = [];
    has_environment = false;
    environment = [];
    has_user_metadata = false;
    user_metadata = [];
    has_consent = false;
    consent = true;
    start_session_requested = false;
  }
