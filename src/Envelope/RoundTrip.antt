-- ===== src/Envelope/RoundTrip.antt =====
-- `to_dict` and `from_dict`, `to_json` and `from_json` (map-business-backend/app/runtime/event_envelope.py), back and forth.
use map.Base.{String, true, none, ◌≡◌, refl, ap, ◌∙◌, subst}
use map.StateMachine.{contains}
use map.Envelope.{
  Value, int, dict, proxy, Entries, deep_thaw, thaw_entries, deep_freeze, freeze_entries,
}
use map.Envelope.Canonical.{Check, validate_payload_size}
use map.Envelope.Fields.{
  first, reserved_envelope_fields, unknown_fields, has_key, lookup, entries_of,
  validate_schema_version, Parsers,
}
use map.Envelope.Events.{
  Result, ok, raised_or, bind, EventEnvelope, with_content, canonical_fields, is_int, check_payload,
  envelope_of, check_metadata, metadata_checks, check, construct, to_dict, from_dict,
}
use map.Envelope.Snapshot.{
  thaw_entries-thaw_entries, thaw_entries-freeze_entries, freeze_entries-thaw_entries,
}
use map.Envelope.Merging.{
  ◌⧺◌, Distinct, Plain, update-Plain, unknown_fields-Plain, thaw_entries-Plain,
  shadows-thaw_entries,
}
use map.Envelope.Accepted.{
  Content, check_content-Content, check_content-thaw, validate_payload_size-thaw, first-All,
  check-Checked, Checked-check, construct-accepted, construct-ok, with_content-frozen,
  with_content-Content,
}

has_key-canonical :
    (m : EventEnvelope) (content : Value) (s : String)
    → has_key s (canonical_fields m content) ≡ contains s reserved_envelope_fields
unfolding has_key contains
has_key-canonical m content s = refl

is_int-version : (v : Value) → validate_schema_version v ≡ none → is_int v ≡ true
unfolding validate_schema_version
is_int-version (int n) h = refl
is_int-version _ h = cc

-- `from_dict` returns when its checks, the constructor and the last size check do.
settled {ℓ} :
    {A : Type ℓ} (c k : Check) (r : Result A) (a : A)
    → c ≡ none
    → r ≡ ok a
    → k ≡ none
    → raised_or c (bind r (λ a. raised_or k (ok a))) ≡ ok a
settled c k r a hc hr hk = rw (hc, hr, hk) refl

from_dict-dict :
    (p : Parsers) (es : Entries) (e : EventEnvelope)
    → check_payload es ≡ none
    → construct p (envelope_of es) ≡ ok e
    → validate_payload_size (dict (unknown_fields es)) ≡ none
    → from_dict p (dict es) ≡ ok e
unfolding from_dict
from_dict-dict p es e hc hr hk = settled _ _ _ e hc hr hk

module _ (m : EventEnvelope) {content extra : Value} (c : Content content extra)
    (d : Distinct (c.xs)) where
  open c use {ds, xs}

  plain : Plain (thaw_entries xs)
  plain = thaw_entries-Plain xs d c.extra_json c.unshadowed

  written : Entries
  written = canonical_fields m (dict (thaw_entries ds)) ⧺ thaw_entries xs

  abbrev thawed : EventEnvelope
  thawed = with_content m (dict (thaw_entries ds)) (dict (thaw_entries xs))

  abbrev frozen : EventEnvelope
  frozen = with_content m (proxy (freeze_entries ds)) (proxy (freeze_entries xs))

  to_dict-frozen : to_dict frozen ≡ dict written
  unfolding to_dict deep_thaw written
  to_dict-frozen =
      rw (thaw_entries-freeze_entries ds c.data_json, thaw_entries-freeze_entries xs c.extra_json)
        (ap dict (
          update-Plain (canonical_fields m (dict (thaw_entries ds)))
            (has_key-canonical m (dict (thaw_entries ds))) (thaw_entries xs) plain))

  to_dict-thawed : to_dict thawed ≡ to_dict (with_content m (dict ds) (dict xs))
  unfolding to_dict deep_thaw
  to_dict-thawed = rw (thaw_entries-thaw_entries ds, thaw_entries-thaw_entries xs) refl

  unknown_fields-written : unknown_fields written ≡ thaw_entries xs
  unfolding written unknown_fields contains
  unknown_fields-written = unknown_fields-Plain (thaw_entries xs) plain

  envelope_of-written : envelope_of written ≡ thawed
  unfolding written lookup
  envelope_of-written =
      ap (λ es. with_content m (dict (thaw_entries ds)) (dict es)) unknown_fields-written

  metadata-version :
      (p : Parsers) → check_metadata p m ≡ none → validate_schema_version (m.schema_version) ≡ none
  unfolding check_metadata
  metadata-version p h = (first-All (metadata_checks p m) h).0

  check_payload-written : (p : Parsers) → check_metadata p m ≡ none → check_payload written ≡ none
  unfolding check_payload first written lookup has_key
  check_payload-written p h =
      rw
        (
          is_int-version m.schema_version (metadata-version p h),
          metadata-version p h,
          unknown_fields-written,
          shadows-thaw_entries reserved_envelope_fields xs,
          c.unshadowed,
        )
        refl

  check-thawed :
      (p : Parsers) → check p (with_content m (dict ds) (dict xs)) ≡ none → check p thawed ≡ none
  unfolding check_metadata
  check-thawed p h =
      let (a, b, z) = check-Checked p (with_content m (dict ds) (dict xs)) h in
      Checked-check p thawed (a, check_content-thaw c, ap validate_payload_size to_dict-thawed ∙ z)

  construct-thawed :
      (p : Parsers)
      → check p (with_content m (dict ds) (dict xs)) ≡ none
      → construct p thawed ≡ ok frozen
  unfolding deep_freeze
  construct-thawed p h =
      construct-accepted p thawed (check-thawed p h)
      ∙ rw (freeze_entries-thaw_entries ds c.data_json, freeze_entries-thaw_entries xs c.extra_json)
          refl

  pub from_dict-frozen :
      (p : Parsers)
      → check p (with_content m (dict ds) (dict xs)) ≡ none
      → from_dict p (to_dict frozen) ≡ ok frozen
  unfolding check_metadata
  from_dict-frozen p h =
      ap (from_dict p) to_dict-frozen
      ∙ from_dict-dict p written frozen
          (check_payload-written p (check-Checked p (with_content m (dict ds) (dict xs)) h).0)
          (ap (construct p) envelope_of-written ∙ construct-thawed p h)
          (ap (λ es. validate_payload_size (dict es)) unknown_fields-written
            ∙ (validate_payload_size-thaw xs ∙ c.extra_size))

-- For every envelope that the constructor gives, from fields whose extra keys are distinct,
-- `from_dict` of its `to_dict` gives the same envelope, snapshots included.
pub from_dict-to_dict :
    (p : Parsers) (given e : EventEnvelope)
    → Distinct (entries_of (given.extra_fields))
    → construct p given ≡ ok e
    → from_dict p (to_dict e) ≡ ok e
from_dict-to_dict p given e d h =
    let (k, eq) = construct-ok p given e h in
    let (a, b, z) = check-Checked p given k in
    let c = check_content-Content given.data_field given.extra_fields b in
    subst (λ e. from_dict p (to_dict e) ≡ ok e) (with_content-frozen given c ∙ eq)
      (from_dict-frozen given c (subst (λ v. Distinct (entries_of v)) c.is_extra d) p
        (ap (check p) (with_content-Content given c) ∙ k))
