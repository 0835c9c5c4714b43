-- ===== src/Batch/Tests.antt =====
-- Runs and witnesses for src/batch.cpp.
use tombstack_native.Batch.{ready, Batch, build_batch_envelope, drain_envelopes_if_ready}
use tombstack_native.Json.Escape.{json_escape}
use tombstack_native.Json.Writer.{string_field, begin_array, raw_element, end_array, document}
use tombstack_native.Prelude.{◌≡◌, refl, false, [], ◌∷◌, codes}
use tombstack_native.Batch.Groups.{Cut, drain_envelopes_if_ready-Cut}

abbrev batch : Batch
batch = record { items = codes "{\"a\":1}" ∷ codes "{}" ∷ []; first_add = 0 }

envelope_text :
    build_batch_envelope (codes "T") batch.items
    ≡ codes "{\"sentAtIso\":\"T\",\"items\":[{\"a\":1},{}]}"
unfolding build_batch_envelope document end_array raw_element begin_array string_field json_escape
envelope_text = refl

drain_envelopes_if_ready-Cut_example :
    ((drain_envelopes_if_ready (codes "T") 10000 false batch).0.items ≡ [])
    × Cut (codes "T") batch.items (drain_envelopes_if_ready (codes "T") 10000 false batch).1
unfolding ready
drain_envelopes_if_ready-Cut_example =
    drain_envelopes_if_ready-Cut (codes "T") 10000 false batch refl
