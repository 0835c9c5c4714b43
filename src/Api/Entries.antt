-- ===== src/Api/Entries.antt =====
-- The entry points of src/src/tombstone_api.cpp that go to the client, or to the store before there
-- is one. A pointer that is null is `none`; the length of both arrays is `count`, where they are
-- given. `tombstone_report_frame`, `tombstone_diagnostics` and `tombstone_flush` are left out.
use tombstack_native.Prelude.{
  ℕ, Bool, false, not, ◌&&◌, ◌||◌, Option, some, List, [], ltb, if◌then◌else◌, value_or, Bytes,
  codes,
}
use tombstack_native.Payloads.{Doubles}
use tombstack_native.Payloads.Metadata.{clamp_user_metadata}
use tombstack_native.PreInit
use tombstack_native.PreInit.{PreInitStore}
use tombstack_native.Sampler.{Rates, set_rate}
use tombstack_native.Client.Identity.{Result, ok, invalid_argument, is_null}
use tombstack_native.Client.Carry.{Carry}
use tombstack_native.Client.State.{Client}
use tombstack_native.Client.Capture
use tombstack_native.Client.Capture.{Level, is_unset, text_or}
use tombstack_native.Client.Context
use tombstack_native.Client.Control
use tombstack_native.Client.Device.{TombstoneDevice, set_device}
use tombstack_native.Client.Telemetry.{attributes_of}
use tombstack_native.Api.{
  Process, Now, level_number, with_client, with_client_or_buffer, on_client, on_context,
  live_set_consent, live_set_user, live_set_user_metadata, live_track_event, live_track_metric,
  live_start_session,
}

-- a buffer that refuses bad arguments and leaves the store alone
abbrev pub checked {ℓ} : {S : Type ℓ} → Bool → (S → S) → S → S × Result
checked refused keep store = if refused then (store, invalid_argument) else (keep store, ok)

module _ (d : Doubles) where
  -- What the store does with a call that comes before `tombstone_init`.
  unfoldable pub buffer_user :
      Option Bytes → Option Bytes → PreInitStore d.double → PreInitStore d.double × Result
  buffer_user user_id steam_id =
      checked false (PreInit.set_user (value_or user_id []) (value_or steam_id []))

  unfoldable pub tombstone_set_user : Option Bytes → Option Bytes → Process d → Process d × Result
  unfolding buffer_user
  tombstone_set_user user_id steam_id =
      with_client_or_buffer d (on_client d (live_set_user d user_id steam_id))
        (buffer_user user_id steam_id)

  -- The flag says whether the number is not 0.
  unfoldable pub tombstone_set_consent : Now d → Bool → Process d → Process d × Result
  tombstone_set_consent now granted =
      with_client_or_buffer d (λ live. (live_set_consent d now granted live, ok))
        (checked false (PreInit.set_consent granted))

  unfoldable pub tombstone_start_session : Process d → Process d × Result
  tombstone_start_session =
      with_client_or_buffer d (live_start_session d) (checked false PreInit.request_start_session)

  unfoldable pub tombstone_set_environment : Option Bytes → Process d → Process d × Result
  tombstone_set_environment environment =
      with_client_or_buffer d (on_client d (on_context d (Context.set_environment environment)))
        (checked (is_unset environment) (PreInit.set_environment (value_or environment [])))

  unfoldable pub tombstone_set_user_metadata :
      Option (List (Option Bytes))
      → Option (List (Option Bytes))
      → ℕ
      → Process d
      → Process d × Result
  tombstone_set_user_metadata keys values count =
      with_client_or_buffer d (on_client d (live_set_user_metadata d count keys values)) (
        checked (ltb 0 count && (is_null keys || is_null values))
          (PreInit.set_user_metadata (clamp_user_metadata keys values)))

  unfoldable pub tombstone_set_server_info :
      Option Bytes → Option Bytes → Process d → Process d × Result
  tombstone_set_server_info region hostname =
      with_client d
        (on_client d (on_context d (λ x. (Context.set_server_info region hostname x, ok))))

  unfoldable pub tombstone_mark_dedicated_server :
      Option Bytes → Option Bytes → Option Bytes → Process d → Process d × Result
  tombstone_mark_dedicated_server server_id region hostname = with_client d (
      on_client d
        (on_context d (λ x. (Context.mark_dedicated_server server_id region hostname x, ok))))

  abbrev on_carry : (Carry d → Carry d × Result) → Client d → Client d × Result
  on_carry action c = (record c { carry = (action c.carry).0 }, (action c.carry).1)

  unfoldable pub tombstone_set_device : Option (TombstoneDevice d) → Process d → Process d × Result
  tombstone_set_device device = with_client d (on_client d (on_carry (set_device d device)))

  -- An entry point of type `void` answers with the result that it drops.
  unfoldable pub tombstone_set_match_context :
      Option Bytes → Option Bytes → Process d → Process d × Result
  tombstone_set_match_context server_id match_id =
      with_client d
        (on_client d (on_context d (λ x. (Context.set_match_context server_id match_id x, ok))))

  unfoldable pub tombstone_start_match : Bytes → ℕ → Process d → Process d × Result
  tombstone_start_match drawn out_cap =
      with_client d (on_client d (on_context d (Context.start_match drawn out_cap)))

  unfoldable pub tombstone_end_match : Process d → Process d × Result
  tombstone_end_match = with_client d (on_client d (on_context d (λ x. (Context.end_match x, ok))))

  unfoldable pub tombstone_add_breadcrumb :
      Now d → Level → Option Bytes → Process d → Process d × Result
  tombstone_add_breadcrumb now level message =
      with_client_or_buffer d (on_client d (Capture.add_breadcrumb d now.moment level message)) (
        checked (is_unset message)
          (PreInit.add_breadcrumb (level_number level) (value_or message [])))

  unfoldable pub tombstone_report_crash :
      Now d → Option Bytes → Option Bytes → Option Bytes → Bool → Process d → Process d × Result
  tombstone_report_crash now signature stack_hint stack_trace attach_log =
      with_client d (
        on_client d (Capture.report_crash d now.moment signature stack_hint stack_trace attach_log))

  unfoldable pub tombstone_report_bug :
      Now d → Option Bytes → Option Bytes → Bool → Process d → Process d × Result
  tombstone_report_bug now category message attach_log =
      with_client d (on_client d (Capture.report_bug d now.moment category message attach_log))

  unfoldable pub tombstone_log_line : Now d → Level → Option Bytes → Process d → Process d × Result
  tombstone_log_line now level line =
      with_client d (on_client d (Capture.log_line d now.moment level line))

  unfoldable pub tombstone_request_player_logs :
      Option Bytes → Option Bytes → Option Bytes → Process d → Process d × Result
  tombstone_request_player_logs target_type target_value reason =
      with_client d (on_client d (Control.request_player_logs d target_type target_value reason))

  unfoldable pub tombstone_on_anomalous_disconnect :
      Option Bytes → Option Bytes → Process d → Process d × Result
  tombstone_on_anomalous_disconnect user_id reason = with_client d (
      on_client d (
        Control.request_player_logs d (some (codes "userId")) user_id
          (some (text_or reason (codes "anomalous disconnect")))))

  unfoldable pub tombstone_set_level : Now d → Option Bytes → Process d → Process d × Result
  tombstone_set_level now level_name =
      with_client d (on_client d (Capture.set_level d now.moment level_name))

  module _ (real : Rates d.double) (is_finite : d.double → Bool) where
    -- a name that is null is the empty one, which has no rate
    unfoldable pub tombstone_set_sample_rate :
        Option Bytes → d.double → Process d → Process d × Result
    tombstone_set_sample_rate name rate =
        with_client d (λ live.
          (record live { sampler = set_rate real (value_or name []) rate live.sampler }, ok))

    unfoldable pub tombstone_track_event :
        Now d
        → Option Bytes
        → Option (List (Option Bytes))
        → Option (List (Option Bytes))
        → ℕ
        → Process d
        → Process d × Result
    tombstone_track_event now name keys values count =
        with_client_or_buffer d (live_track_event d real is_finite now name count keys values) (
          checked (is_unset name || (ltb 0 count && (is_null keys || is_null values))) (λ store.
            (PreInit.add_event (value_or name [])
              (attributes_of (value_or keys []) (value_or values [])) store).0))

    unfoldable pub tombstone_track_metric :
        Now d → Option Bytes → d.double → Option Bytes → Process d → Process d × Result
    tombstone_track_metric now name value unit =
        with_client_or_buffer d (live_track_metric d real is_finite now name value unit) (
          checked (is_unset name || not (is_finite value))
            (λ store. (PreInit.add_metric (value_or name []) value (value_or unit []) store).0))
