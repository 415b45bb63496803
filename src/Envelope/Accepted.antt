-- ===== src/Envelope/Accepted.antt =====
-- What `__post_init__` (map-business-backend/app/runtime/event_envelope.py) has checked of an envelope that it accepts.
use map.Base.{
  Bool, true, false, not, none, some, List, [], ◌∷◌, ◌≡◌, refl, ap, subst, if◌then◌else◌, All, sym,
}
use map.Envelope.{
  Value, dict, Entries, validate_json_types, validate_entries, deep_thaw, thaw_entries, deep_freeze,
  proxy, freeze_entries,
}
use map.Envelope.Canonical.{Raised, Check, validate_payload_size, canonical_json, sized, dumps}
use map.Envelope.Fields.{first, require, shadows, reserved_envelope_fields, entries_of, Parsers}
use map.Envelope.Events.{
  ok, raised_or, EventEnvelope, with_content, is_dict, serializable, check_content, check_metadata,
  check, construct, to_dict,
}
use map.Envelope.Snapshot.{thaw_entries-thaw_entries, validate_entries-thaw_entries}
use map.Envelope.Merging.{shadows-thaw_entries}

pub first-none :
    (c : Check) (cs : List Check) → first (c ∷ cs) ≡ none → (c ≡ none) × (first cs ≡ none)
unfolding first
first-none none cs h = (refl, h)
first-none (some r) cs h = cc

pub first-All : (cs : List Check) → first cs ≡ none → All (λ c. c ≡ none) cs
unfolding first
first-All [] h = tt
first-All (none ∷ cs) h = (refl, first-All cs h)
first-All (some r ∷ cs) h = cc

first_three-none : {a b c : Check} → a ≡ none → b ≡ none → c ≡ none → first (a ∷ b ∷ c ∷ []) ≡ none
unfolding first
first_three-none ha hb hc = rw (ha, hb, hc) refl

pub guard-none : (b : Bool) (r : Raised) → (if b then none else some r) ≡ none → b ≡ true
guard-none true r h = refl
guard-none false r h = cc

pub require-none : (b : Bool) → require b ≡ none → b ≡ true
require-none b h = guard-none b _ h

pub raised_or-ok {ℓ} :
    {A : Type ℓ} (c : Check) (a b : A) → raised_or c (ok a) ≡ ok b → (c ≡ none) × (a ≡ b)
raised_or-ok none a b h = (refl, cc)
raised_or-ok (some r) a b h = cc

is_dict-dict : (v : Value) → is_dict v ≡ true → (es : Entries) × (v ≡ dict es)
is_dict-dict (dict es) h = (es, refl)
is_dict-dict _ h = cc

serializable-none : (v : Value) → serializable v ≡ none → validate_json_types v ≡ true
serializable-none v h = guard-none (validate_json_types v) _ h

not-true : (b : Bool) → not b ≡ true → b ≡ false
not-true true h = cc
not-true false h = refl

-- The content that the constructor accepts.
pub record Content (content extra : Value) : Type 0 where
  pub ds : Entries
  pub xs : Entries
  pub is_data : content ≡ dict ds
  pub is_extra : extra ≡ dict xs
  pub unshadowed : shadows reserved_envelope_fields xs ≡ false
  pub data_json : validate_entries ds ≡ true
  pub extra_json : validate_entries xs ≡ true
  pub data_size : validate_payload_size (dict ds) ≡ none
  pub extra_size : validate_payload_size (dict xs) ≡ none

pub check_content-Content :
    (content extra : Value) → check_content content extra ≡ none → Content content extra
unfolding check_content validate_json_types
check_content-Content content extra h =
    let (a, h1) = first-none (require (is_dict content)) _ h in
    let (b, h2) = first-none (require (is_dict extra)) _ h1 in
    let (c, h3) =
      first-none (require (not (shadows reserved_envelope_fields (entries_of extra)))) _ h2 in
    let (d, h4) = first-none (serializable content) _ h3 in
    let (f, h5) = first-none (serializable extra) _ h4 in
    let (g, h6) = first-none (validate_payload_size content) _ h5 in
    let (k, h7) = first-none (validate_payload_size extra) _ h6 in
    let (ds, ed) = is_dict-dict content (require-none (is_dict content) a) in
    let (xs, ex) = is_dict-dict extra (require-none (is_dict extra) b) in
    record {
      ds = ds;
      xs = xs;
      is_data = ed;
      is_extra = ex;
      unshadowed =
          subst (λ v. shadows reserved_envelope_fields (entries_of v) ≡ false) ex
            (not-true _ (require-none _ c));
      data_json = subst (λ v. validate_json_types v ≡ true) ed (serializable-none content d);
      extra_json = subst (λ v. validate_json_types v ≡ true) ex (serializable-none extra f);
      data_size = subst (λ v. validate_payload_size v ≡ none) ed g;
      extra_size = subst (λ v. validate_payload_size v ≡ none) ex k;
    }

pub canonical_json-thaw :
    (es : Entries) → canonical_json (dict (thaw_entries es)) ≡ canonical_json (dict es)
unfolding canonical_json deep_thaw
canonical_json-thaw es = ap (λ es. dumps (dict es)) (thaw_entries-thaw_entries es)

pub validate_payload_size-thaw :
    (es : Entries)
    → validate_payload_size (dict (thaw_entries es)) ≡ validate_payload_size (dict es)
unfolding validate_payload_size
validate_payload_size-thaw es = ap sized (canonical_json-thaw es)

-- Accepted content is accepted again when thawed.
pub check_content-thaw :
    {content extra : Value} (c : Content content extra)
    → check_content (dict (thaw_entries (c.ds))) (dict (thaw_entries (c.xs))) ≡ none
unfolding check_content validate_json_types first
check_content-thaw c =
    rw
      (
        shadows-thaw_entries reserved_envelope_fields c.xs,
        c.unshadowed,
        validate_entries-thaw_entries c.ds c.data_json,
        validate_entries-thaw_entries c.xs c.extra_json,
        validate_payload_size-thaw c.ds,
        validate_payload_size-thaw c.xs,
        c.data_size,
        c.extra_size,
      )
      refl

module _ (p : Parsers) (e : EventEnvelope) where
  -- The three parts of the constructor's checks.
  abbrev pub Checked : Type 0
  Checked =
      (check_metadata p e ≡ none)
      × (check_content (e.data_field) (e.extra_fields) ≡ none)
      × (validate_payload_size (to_dict e) ≡ none)

  pub check-Checked : check p e ≡ none → Checked
  unfolding check
  check-Checked h =
      let (a, h1) =
        first-none (check_metadata p e)
          (check_content e.data_field e.extra_fields ∷ validate_payload_size (to_dict e) ∷ []) h in
      let (b, h2) =
        first-none (check_content e.data_field e.extra_fields)
          (validate_payload_size (to_dict e) ∷ []) h1 in
      (a, b, (first-none (validate_payload_size (to_dict e)) [] h2).0)

  pub Checked-check : Checked → check p e ≡ none
  unfolding check first
  Checked-check (a, b, z) = first_three-none a b z

  pub construct-accepted :
      check p e ≡ none
      → construct p e
        ≡ ok (with_content e (deep_freeze (e.data_field)) (deep_freeze (e.extra_fields)))
  unfolding construct
  construct-accepted h =
      ap
        (λ c.
          raised_or c
            (ok (with_content e (deep_freeze (e.data_field)) (deep_freeze (e.extra_fields)))))
        h

  -- What the constructor gives.
  pub construct-ok :
      (made : EventEnvelope)
      → construct p e ≡ ok made
      → (check p e ≡ none)
        × (with_content e (deep_freeze (e.data_field)) (deep_freeze (e.extra_fields)) ≡ made)
  unfolding construct
  construct-ok made h =
      raised_or-ok (check p e)
        (with_content e (deep_freeze (e.data_field)) (deep_freeze (e.extra_fields))) made h

-- Accepted content, read as the dicts that it is.
pub with_content-Content :
    (e : EventEnvelope) (c : Content (e.data_field) (e.extra_fields))
    → with_content e (dict (c.ds)) (dict (c.xs)) ≡ e
with_content-Content e c = rw (sym c.is_data, sym c.is_extra) refl

-- The snapshot of that content is the one that the constructor takes.
pub with_content-frozen :
    (e : EventEnvelope) (c : Content (e.data_field) (e.extra_fields))
    → with_content e (proxy (freeze_entries (c.ds))) (proxy (freeze_entries (c.xs)))
      ≡ with_content e (deep_freeze (e.data_field)) (deep_freeze (e.extra_fields))
unfolding deep_freeze
with_content-frozen e c =
    ap (λ g. with_content g (deep_freeze (g.data_field)) (deep_freeze (g.extra_fields)))
      (with_content-Content e c)
