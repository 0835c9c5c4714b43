-- ===== src/Payloads/Emitting.antt =====
-- The helpers of src/payloads.cpp as statements that the scan for a key passes over.
use tombstack_native.Prelude.{ℕ, ◌≡◌, true, not, List, [], ◌∷◌, is_empty, Bytes, codes}
use tombstack_native.Prelude.Int.{ℤ, pos, ltb_ℤ}
use tombstack_native.Json.Utf8.{utf8_safe_truncate}
use tombstack_native.Json.Scan.Skip.{IsKey}
use tombstack_native.Json.Scan.Named.{
  Others, Emitting, is_other, string_field-Emitting, int_field-Emitting, number_field-Emitting,
  array-Emitting, elements-Emitting, then-Emitting, if-Emitting, skip-Emitting,
}
use tombstack_native.BreadcrumbRing.{Breadcrumb}
use tombstack_native.Payloads.{
  Doubles, clamped_field, optional_field, crumb_fields, breadcrumbs_field, common_context,
  correlation_fields, optional_int_field, optional_number_field,
}

abbrev pub crumb_names : List Bytes
crumb_names = codes "tsIso" ∷ codes "level" ∷ codes "message" ∷ []

abbrev pub context_names : List Bytes
context_names = codes "occurredAtIso" ∷ codes "buildVersion" ∷ codes "os" ∷ codes "arch" ∷ []

abbrev pub correlation_names : List Bytes
correlation_names = codes "role" ∷ codes "serverId" ∷ codes "matchId" ∷ codes "sessionId" ∷ []

module _ (key : Bytes) (k : IsKey key) where
  pub clamped_field-Emitting :
      (name value : Bytes) (n : ℕ)
      → is_other key name ≡ true
      → Emitting key (clamped_field name value n)
  clamped_field-Emitting name value n h =
      string_field-Emitting key k name (utf8_safe_truncate value n) h

  pub optional_field-Emitting :
      (name value : Bytes) (n : ℕ)
      → is_other key name ≡ true
      → Emitting key (optional_field name value n)
  optional_field-Emitting name value n h =
      if-Emitting key k (not (is_empty value)) _ (λ _. clamped_field-Emitting name value n h)

  crumb_fields-Emitting :
      (crumb : Breadcrumb) → Others key crumb_names → Emitting key (crumb_fields crumb)
  crumb_fields-Emitting crumb (t, (l, (m, _))) =
      then-Emitting key k _ _
        (then-Emitting key k _ _
          (if-Emitting key k (not (is_empty crumb.ts_iso)) _
            (λ _. string_field-Emitting key k (codes "tsIso") crumb.ts_iso t))
          (clamped_field-Emitting (codes "level") crumb.level _ l))
        (clamped_field-Emitting (codes "message") crumb.message _ m)

  pub breadcrumbs_field-Emitting :
      (crumbs : List Breadcrumb)
      → is_other key (codes "breadcrumbs") ≡ true
      → Others key crumb_names
      → Emitting key (breadcrumbs_field crumbs)
  breadcrumbs_field-Emitting [] h others = skip-Emitting key k
  breadcrumbs_field-Emitting (crumb ∷ crumbs) h others =
      array-Emitting key k (codes "breadcrumbs") _ h (
        elements-Emitting key k crumb_fields (crumb ∷ crumbs) (λ c. crumb_fields-Emitting c others))

  pub common_context-Emitting :
      (occurred_at_iso build_version os arch : Bytes)
      → Others key context_names
      → Emitting key (common_context occurred_at_iso build_version os arch)
  common_context-Emitting occurred_at_iso build_version os arch (o, (b, (s, (a, _)))) =
      then-Emitting key k _ _
        (then-Emitting key k _ _
          (then-Emitting key k _ _
            (string_field-Emitting key k (codes "occurredAtIso") occurred_at_iso o)
            (clamped_field-Emitting (codes "buildVersion") build_version _ b))
          (string_field-Emitting key k (codes "os") os s))
        (string_field-Emitting key k (codes "arch") arch a)

  pub correlation_fields-Emitting :
      (role server_id match_id session_id : Bytes)
      → Others key correlation_names
      → Emitting key (correlation_fields role server_id match_id session_id)
  correlation_fields-Emitting role server_id match_id session_id (r, (v, (m, (s, _)))) =
      then-Emitting key k _ _
        (then-Emitting key k _ _
          (then-Emitting key k _ _ (optional_field-Emitting (codes "role") role _ r)
            (optional_field-Emitting (codes "serverId") server_id _ v))
          (optional_field-Emitting (codes "matchId") match_id _ m))
        (optional_field-Emitting (codes "sessionId") session_id _ s)

  pub optional_int_field-Emitting :
      (name : Bytes) (value : ℤ)
      → is_other key name ≡ true
      → Emitting key (optional_int_field name value)
  optional_int_field-Emitting name value h =
      if-Emitting key k (ltb_ℤ (pos 0) value) _ (λ _. int_field-Emitting key k name value h)

  pub optional_number_field-Emitting :
      (d : Doubles) (name : Bytes) (value : d.double)
      → is_other key name ≡ true
      → Emitting key (optional_number_field d name value)
  optional_number_field-Emitting d name value h = if-Emitting key k (d.is_positive value) _ (λ e.
      number_field-Emitting key k d.decimal_point name (d.printed value) h (d.no_quote value e))
