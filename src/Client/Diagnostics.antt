-- ===== src/Client/Diagnostics.antt =====
-- `diagnostics` and `record_rtt_metric` of src/client_reports.cpp.
use tombstack_native.Prelude.{
  ℕ, ◌-◌, Bool, not, Option, none, some, ◌==◌, if◌then◌else◌, length, is_empty, codes,
}
use tombstack_native.Payloads.{Doubles}
use tombstack_native.SidecarQueue
use tombstack_native.Client.State.{Client, Moment}
use tombstack_native.Client.Telemetry.{track_metric}

-- The age of the last flush is in nanoseconds, and `none` stands for -1.
pub record Snapshot : Type 0 where
  pub initialized : Bool
  pub consent_granted : Bool
  pub queued_outbound : ℕ
  pub persisted_sidecar : ℕ
  pub last_flush_age : Option ℕ
  pub has_match_id : Bool
  pub has_server_id : Bool

-- the steady clock now, and what it read at the last flush, 0 before the first
abbrev flush_age : ℕ → ℕ → Option ℕ
flush_age now_ns flushed = if flushed == 0 then none else some (now_ns - flushed)

module _ (d : Doubles) where
  unfoldable pub diagnostics : ℕ → ℕ → Client d → Snapshot
  diagnostics now_ns flushed c = record {
    initialized = c.initialized;
    consent_granted = c.consent;
    queued_outbound = length c.worker.queue;
    persisted_sidecar = SidecarQueue.pending_count c.worker.sidecars;
    last_flush_age = flush_age now_ns flushed;
    has_match_id = not (is_empty c.context.match_id);
    has_server_id = not (is_empty c.context.server_id);
  }

  -- The flags say whether the sampler keeps the sample, and whether it is finite.
  unfoldable pub record_rtt_metric : Moment → Bool → Bool → d.double → Client d → Client d
  unfolding track_metric
  record_rtt_metric moment keep is_finite ms c =
      (track_metric d moment keep (some (codes "tombstone.rtt_ms")) is_finite ms (some (codes "ms"))
        c).0
