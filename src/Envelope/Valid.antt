-- ===== src/Envelope/Valid.antt =====
-- The envelopes that `__post_init__`, `build` and `from_dict` (map-business-backend/app/runtime/event_envelope.py) give.
use map.Envelope.Written.{Written, stored, stored-Written}
use map.Base.{
  ℕ, ◌≤◌, String, Bool, true, false, not, Option, none, some, ◌≡◌, refl, sym, ap, ◌∙◌, subst,
  if◌then◌else◌, leb, ◌==◌, ==_iff, arith,
}
use map.StateMachine.{contains}
use map.Envelope.{Value, int, str, dict, proxy, pos, negsuc, Entries, freeze_entries}
use map.Envelope.Canonical.{Raised, Check, validate_payload_size}
use map.Envelope.Fields.{
  shadows, reserved_envelope_fields, frozen_event_types, validate_event_type, any_prefix,
  event_type_prefixes, validate_schema_version, require_int, require_uuid, require_timestamp,
  require_aware, replace_z, Stamp, Parsers, unknown_fields,
}
use map.Envelope.Events.{
  Result, ok, raised, raised_or, bind, EventEnvelope, with_content, metadata_checks, check_metadata,
  construct, to_dict, from_dict, envelope_of, check_payload,
}
use map.Envelope.Snapshot.{thaw_entries-freeze_entries}
use map.Envelope.Merging.{shadows-thaw_entries}
use map.Envelope.Accepted.{
  first-All, require-none, guard-none, Content, check_content-Content, check-Checked, construct-ok,
  with_content-frozen, with_content-Content,
}

-- The fields of an envelope that was accepted.
module _ (p : Parsers) where
  abbrev pub IsUuid : Value → Type 0
  IsUuid v = (s : String) × (v ≡ str s) × (p.is_uuid s ≡ true)

  abbrev pub IsTime : Value → Type 0
  IsTime v =
      (s : String) × (v ≡ str s)
      × ((t : Stamp) × (p.fromisoformat (replace_z s) ≡ some t) × (t.aware ≡ true))

  abbrev pub IsAtLeast : ℕ → Value → Type 0
  IsAtLeast least v = (n : ℕ) × (v ≡ int (pos n)) × (least ≤ n)

  abbrev pub IsFrozenType : Value → Type 0
  IsFrozenType v = (s : String) × (v ≡ str s) × (contains s frozen_event_types ≡ true)

  pub record IsValid (e : EventEnvelope) : Type 0 where
    pub version : e.schema_version ≡ int (pos 1)
    pub minor : IsAtLeast 0 (e.schema_minor)
    pub defined : IsFrozenType (e.type)
    pub positive : IsAtLeast 1 (e.seq)
    pub event : IsUuid (e.event_id)
    pub run : IsUuid (e.run_id)
    pub workspace : IsUuid (e.workspace_id)
    pub aware : IsTime (e.occurred_at)
    pub snapshot : (ds : Entries) × (e.data_field ≡ proxy ds)
    pub unshadowed :
        (xs : Entries) × (e.extra_fields ≡ proxy xs) × (shadows reserved_envelope_fields xs ≡ false)
    pub written : Written e

  pub require_int-none : (least : ℕ) (v : Value) → require_int least v ≡ none → IsAtLeast least v
  unfolding require_int
  require_int-none least (int (pos n)) h =
      let le = require-none (leb least n) h in (n, refl, ground arith)
  require_int-none least (int (negsuc n)) h = cc
  require_int-none least _ h = cc

  pub validate_schema_version-none :
      (v : Value) → validate_schema_version v ≡ none → v ≡ int (pos 1)
  unfolding validate_schema_version
  validate_schema_version-none (int (pos n)) h =
      ap (λ n. int (pos n)) ((==_iff n 1).0 (guard-none (n == 1) _ h))
  validate_schema_version-none (int (negsuc n)) h = cc
  validate_schema_version-none _ h = cc

  pub contained :
      (s : String) (a b : Bool) (r : Raised)
      → (if not a then some r else if b then none else some r) ≡ none
      → b ≡ true
  contained s false b r h = cc
  contained s true b r h = guard-none b r h

  pub validate_event_type-none : (v : Value) → validate_event_type v ≡ none → IsFrozenType v
  unfolding validate_event_type
  validate_event_type-none (str s) h =
      (s, refl, contained s (any_prefix event_type_prefixes s) (contains s frozen_event_types) _ h)
  validate_event_type-none _ h = cc

  pub require_uuid-none : (v : Value) → require_uuid p v ≡ none → IsUuid v
  unfolding require_uuid
  require_uuid-none (str s) h = (s, refl, require-none (p.is_uuid s) h)
  require_uuid-none _ h = cc

  pub require_aware-none :
      (o : Option Stamp) → require_aware p o ≡ none → (t : Stamp) × (o ≡ some t) × (t.aware ≡ true)
  require_aware-none none h = cc
  require_aware-none (some t) h = (t, refl, require-none t.aware h)

  pub require_timestamp-none : (v : Value) → require_timestamp p v ≡ none → IsTime v
  unfolding require_timestamp
  require_timestamp-none (str s) h = (s, refl, require_aware-none (p.fromisoformat (replace_z s)) h)
  require_timestamp-none _ h = cc

  module _ (m : EventEnvelope) {content extra : Value} (c : Content content extra) where
    open c use {ds, xs}

    stored-unshadowed : shadows reserved_envelope_fields (freeze_entries xs) ≡ false
    stored-unshadowed =
        sym (shadows-thaw_entries reserved_envelope_fields (freeze_entries xs))
        ∙ (ap (shadows reserved_envelope_fields) (thaw_entries-freeze_entries xs c.extra_json)
            ∙ (shadows-thaw_entries reserved_envelope_fields xs ∙ c.unshadowed))

    stored-IsValid :
        check_metadata p m ≡ none
        → validate_payload_size (to_dict (with_content m (dict ds) (dict xs))) ≡ none
        → IsValid (stored m c)
    unfolding check_metadata
    stored-IsValid a z =
        let l = first-All (metadata_checks p m) a in
        record {
          version = validate_schema_version-none m.schema_version l.0;
          minor = require_int-none 0 m.schema_minor l.1.0;
          defined = validate_event_type-none m.type l.1.1.0;
          positive = require_int-none 1 m.seq l.1.1.1.0;
          event = require_uuid-none m.event_id l.1.1.1.1.1.1.1.1.0;
          run = require_uuid-none m.run_id l.1.1.1.1.1.1.1.1.1.0;
          workspace = require_uuid-none m.workspace_id l.1.1.1.1.1.1.1.1.1.1.0;
          aware = require_timestamp-none m.occurred_at l.1.1.1.1.1.1.1.1.1.1.1.0;
          snapshot = (freeze_entries ds, refl);
          unshadowed = (freeze_entries xs, refl, stored-unshadowed);
          written = stored-Written m c z;
        }

  pub construct-IsValid : (given e : EventEnvelope) → construct p given ≡ ok e → IsValid e
  construct-IsValid given e h =
      let (k, eq) = construct-ok p given e h in
      let (a, b, z) = check-Checked p given k in
      let c = check_content-Content given.data_field given.extra_fields b in
      subst IsValid (with_content-frozen given c ∙ eq) (
        stored-IsValid given c a
          (ap (λ g. validate_payload_size (to_dict g)) (with_content-Content given c) ∙ z))

  pub bound :
      (c k : Check) (r : Result EventEnvelope) (e : EventEnvelope)
      → raised_or c (bind r (λ e. raised_or k (ok e))) ≡ ok e
      → r ≡ ok e
  bound none none (ok a) e h = h
  bound none (some r) (ok a) e h = cc
  bound none k (raised r) e h = cc
  bound (some r) k o e h = cc

  -- Every envelope that `from_dict` reads is valid: version 1, a defined event type, a positive
  -- sequence number, UUIDs, an aware timestamp, snapshots of dicts that shadow no canonical field,
  -- and a canonical text of at most 64 KiB that `to_json` writes.
  pub from_dict-IsValid :
      (payload : Value) (e : EventEnvelope) → from_dict p payload ≡ ok e → IsValid e
  unfolding from_dict
  from_dict-IsValid (dict es) e h = construct-IsValid (envelope_of es) e (
      bound (check_payload es) (validate_payload_size (dict (unknown_fields es)))
        (construct p (envelope_of es)) e h)
  from_dict-IsValid _ e h = cc
