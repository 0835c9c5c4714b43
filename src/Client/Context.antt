-- ===== src/Client/Context.antt =====
-- What src/client.cpp keeps of the options and of the labels of a match or a server.
use tombstack_native.Prelude.{
  ℕ, ◌+◌, ◌≤◌, min, max, ◌||◌, Option, none, some, [], ◌∷◌, arith, ltb, ◌==◌, if◌then◌else◌, length,
  Bytes, codes,
}
use tombstack_native.Prelude.Int.{ℤ, pos, negsuc}
use tombstack_native.Payloads.Limits
use tombstack_native.Client.Identity.{Result, ok, invalid_argument, clamped}
use tombstack_native.Client.State.{Context}
use tombstack_native.Client.Capture.{is_unset}

abbrev pub min_heartbeat_interval_s : ℕ
min_heartbeat_interval_s = 15

abbrev pub max_heartbeat_interval_s : ℕ
max_heartbeat_interval_s = 240

abbrev pub default_heartbeat_interval_s : ℕ
default_heartbeat_interval_s = 60

-- the interval of `init`: `std::clamp` of the option, or of the default where it is not positive
unfoldable pub heartbeat_interval : ℤ → ℕ
heartbeat_interval (pos n) =
    let interval = if ltb 0 n then n else default_heartbeat_interval_s in
    max min_heartbeat_interval_s (min interval max_heartbeat_interval_s)
heartbeat_interval (negsuc n) = default_heartbeat_interval_s

-- a slash is kept only with something kept behind it
trim_slash : ℕ → Bytes → Bytes
trim_slash c [] = if c == b'/' then [] else c ∷ []
trim_slash c (e ∷ kept) = c ∷ e ∷ kept

unfoldable pub trim_trailing_slash : Bytes → Bytes
unfolding trim_slash
trim_trailing_slash [] = []
trim_trailing_slash (c ∷ cs) = trim_slash c (trim_trailing_slash cs)

-- a label that is null keeps its value, and in `mark_dedicated_server` an empty one too
abbrev pub relabel : Option Bytes → ℕ → Bytes → Bytes
relabel none max_bytes old = old
relabel (some label) max_bytes old = clamped (some label) max_bytes

abbrev pub relabel_set : Option Bytes → ℕ → Bytes → Bytes
relabel_set label max_bytes old = if is_unset label then old else clamped label max_bytes

unfoldable pub set_environment : Option Bytes → Context → Context × Result
set_environment environment x = (
  record x { environment = relabel_set environment Limits.environment x.environment },
  if is_unset environment then invalid_argument else ok,
)

unfoldable pub set_server_info : Option Bytes → Option Bytes → Context → Context
set_server_info region hostname x = record x {
  region = relabel region Limits.region x.region;
  hostname = relabel hostname Limits.hostname x.hostname;
}

unfoldable pub mark_dedicated_server :
    Option Bytes → Option Bytes → Option Bytes → Context → Context
mark_dedicated_server server_id region hostname x = record x {
  role = codes "server";
  server_id = relabel_set server_id Limits.server_id x.server_id;
  region = relabel_set region Limits.region x.region;
  hostname = relabel_set hostname Limits.hostname x.hostname;
}

unfoldable pub set_match_context : Option Bytes → Option Bytes → Context → Context
set_match_context server_id match_id x = record x {
  server_id = clamped server_id Limits.server_id;
  match_id = clamped match_id Limits.match_id;
}

-- `drawn` is what `random_session_id` answers; `out_cap` is 0 too where the buffer is null.
unfoldable pub start_match : Bytes → ℕ → Context → Context × Result
start_match drawn out_cap x =
    let refused = out_cap == 0 || ltb out_cap (length drawn + 1) in
    (
      record x {
        role = if refused then x.role else codes "server";
        match_id = if refused then x.match_id else drawn;
      },
      if refused then invalid_argument else ok,
    )

unfoldable pub end_match : Context → Context
end_match x = record x { match_id = [] }

-- Whatever the option is, a beat is due every 15 to 240 seconds.
pub heartbeat_interval_bounded :
    (option : ℤ)
    → (min_heartbeat_interval_s ≤ heartbeat_interval option)
      × (heartbeat_interval option ≤ max_heartbeat_interval_s)
unfolding heartbeat_interval
heartbeat_interval_bounded (pos n) = ground arith
heartbeat_interval_bounded (negsuc n) = (omega arith, omega arith)
