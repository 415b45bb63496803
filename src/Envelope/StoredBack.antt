-- ===== src/Envelope/StoredBack.antt =====
-- Events through their rows (map-business-backend/app/services/run_event_stream.py), back and forth.
use map.Base.{
  ℕ, String, true, Option, none, some, [], ◌∷◌, ◌==◌, eq_refl, if◌then◌else◌, ◌≡◌, refl, sym, ap,
  ◌∙◌, subst, arith, inl, inr, Bool-cases,
}
use map.Envelope.{pos, Value, int, str, deep_thaw}
use map.Envelope.Canonical.{Text, canonical_json, bracket, dumps}
use map.Envelope.Fields.{Parsers, invalid, entries_of}
use map.Envelope.Events.{
  Result, ok, raised, bind, EventEnvelope, construct, to_dict, from_dict, to_json, from_json,
}
use map.Envelope.Merging.{Distinct}
use map.Envelope.Valid.{IsValid, construct-IsValid, from_dict-IsValid}
use map.Envelope.Json.{from_json-to_json}
use map.Envelope.Stored.{
  EventRow, column_of, agrees, envelope_to_row, all_agree, checked_row, row_to_envelope,
}

agrees-str : (v : Value) (s : String) → v ≡ str s → agrees (column_of v) v ≡ true
agrees-str v s e = subst (λ v. agrees (column_of v) v ≡ true) (sym e) (eq_refl s)

agrees-int : (v : Value) (n : ℕ) → v ≡ int (pos n) → agrees (column_of v) v ≡ true
agrees-int v n e = subst (λ v. agrees (column_of v) v ≡ true) (sym e) (same n)
  where
    same : (n : ℕ) → (n == n) ≡ true
    same n = ground arith

-- The columns that `envelope_to_row` writes.
abbrev row_of : EventEnvelope → Text → EventRow
row_of e payload = record {
  run_id = column_of (e.run_id);
  seq = column_of (e.seq);
  event_id = column_of (e.event_id);
  event_type = column_of (e.type);
  occurred_at = column_of (e.occurred_at);
  workspace_id = column_of (e.workspace_id);
  schema_version = column_of (e.schema_version);
  schema_minor = column_of (e.schema_minor);
  payload_json = some payload;
}

all_agree-row_of :
    (p : Parsers) (e : EventEnvelope) (t : Text) → IsValid p e → all_agree (row_of e t) e ≡ true
all_agree-row_of p e t v =
    rw
      (
        agrees-str e.run_id _ (v.run).1,
        agrees-int e.seq _ (v.positive).1,
        agrees-str e.event_id _ (v.event).1,
        agrees-str e.type _ (v.defined).1,
        agrees-str e.occurred_at _ (v.aware).1,
        agrees-str e.workspace_id _ (v.workspace).1,
        agrees-int e.schema_version 1 v.version,
        agrees-int e.schema_minor _ (v.minor).1,
      )
      refl

bracket-nonempty :
    (a b : ℕ) (o : Option Text) (t : Text)
    → bracket a b o ≡ some t
    → (c : ℕ) × (cs : Text) × (t ≡ c ∷ cs)
bracket-nonempty a b none t h = cc
bracket-nonempty a b (some u) [] h = cc
bracket-nonempty a b (some u) (c ∷ cs) h = (c, cs, refl)

canonical-nonempty :
    (e : EventEnvelope) (t : Text)
    → canonical_json (to_dict e) ≡ some t
    → (c : ℕ) × (cs : Text) × (t ≡ c ∷ cs)
unfolding canonical_json to_dict deep_thaw dumps
canonical-nonempty e t h = bracket-nonempty 123 125 _ t h

read_row :
    (p : Parsers) (loads : Text → Option Value) (e : EventEnvelope) (c : ℕ) (cs : Text)
    → from_json p loads (c ∷ cs) ≡ ok e
    → all_agree (row_of e (c ∷ cs)) e ≡ true
    → row_to_envelope p loads (row_of e (c ∷ cs)) ≡ ok e
unfolding row_to_envelope
read_row p loads e c cs h a =
    ap (λ r. bind r (checked_row (row_of e (c ∷ cs)))) h
    ∙ ap (λ b. if b then ok e else raised invalid) a

envelope_to_row-row_of :
    (e : EventEnvelope) (t : Text) → to_json e ≡ ok t → envelope_to_row e ≡ ok (row_of e t)
unfolding envelope_to_row
envelope_to_row-row_of e t h = ap (λ r. bind r (λ payload. ok (row_of e payload))) h

-- Every envelope that the constructor gives, from fields whose extra keys are distinct, has a row,
-- and the row gives the same envelope back, if the parser reads the text that `json.dumps` writes
-- of a payload as that payload.
pub row_to_envelope-envelope_to_row :
    (p : Parsers) (loads : Text → Option Value) (given e : EventEnvelope)
    → ((t : Text) → canonical_json (to_dict e) ≡ some t → loads t ≡ some (to_dict e))
    → Distinct (entries_of (given.extra_fields))
    → construct p given ≡ ok e
    → (r : EventRow) × (envelope_to_row e ≡ ok r) × (row_to_envelope p loads r ≡ ok e)
row_to_envelope-envelope_to_row p loads given e reads d h =
    let valid = construct-IsValid p given e h in
    let (t, canonical, written, le) = valid.written in
    let (c, cs, full) = canonical-nonempty e t canonical in
    let (u, again, bound, back) = from_json-to_json p loads given e reads d h in
    let same : u ≡ t = ok-path u t (sym again ∙ written) in
    (
      row_of e (c ∷ cs),
      envelope_to_row-row_of e (c ∷ cs) (written ∙ ap (λ z. ok z) full),
      read_row p loads e c cs (ap (from_json p loads) (sym (same ∙ full)) ∙ back)
          (all_agree-row_of p e (c ∷ cs) valid),
    )
  where
    ok-path : (a b : Text) → ok a ≡ ok b → a ≡ b
    ok-path a b h = cc

checked_row-ok :
    (r : EventRow) (o : Result EventEnvelope) (e : EventEnvelope)
    → bind o (checked_row r) ≡ ok e
    → (o ≡ ok e) × (all_agree r e ≡ true)
checked_row-ok r (raised x) e h = cc
checked_row-ok r (ok f) e h = elim (Bool-cases (all_agree r f)) [
  | inl a ↦
      let same : ok f ≡ ok e = sym (ap (λ b. if b then ok f else raised invalid) a) ∙ h in
      (same, subst (λ g. all_agree r g ≡ true) (ok-path f e same) a)
  | inr a ↦
      let absurd : raised invalid ≡ ok e =
        sym (ap (λ b. if b then ok f else raised invalid) a) ∙ h in
      cc
]
  where
    ok-path : (a b : EventEnvelope) → ok a ≡ ok b → a ≡ b
    ok-path a b h = cc

from_json-IsValid :
    (p : Parsers) (loads : Text → Option Value) (t : Text) (e : EventEnvelope)
    → from_json p loads t ≡ ok e
    → IsValid p e
unfolding from_json
from_json-IsValid p loads t e h = loaded (loads t) h
  where
    loaded :
        (o : Option Value)
        → (elim o [ none ↦ raised invalid | some v ↦ from_dict p v ]) ≡ ok e
        → IsValid p e
    loaded none h = cc
    loaded (some v) h = from_dict-IsValid p v e h

-- Every row that `row_to_envelope` reads gives a valid envelope, with which all its columns agree.
pub row_to_envelope-IsValid :
    (p : Parsers) (loads : Text → Option Value) (r : EventRow) (e : EventEnvelope)
    → row_to_envelope p loads r ≡ ok e
    → IsValid p e × (all_agree r e ≡ true)
unfolding row_to_envelope
row_to_envelope-IsValid p loads r e h = stored r.payload_json h
  where
    stored :
        (o : Option Text)
        → (elim o [
          | none ↦ raised invalid
          | some [] ↦ raised invalid
          | some (c ∷ cs) ↦ bind (from_json p loads (c ∷ cs)) (checked_row r)
        ])
          ≡ ok e
        → IsValid p e × (all_agree r e ≡ true)
    stored none h = cc
    stored (some []) h = cc
    stored (some (c ∷ cs)) h =
        let (k, a) = checked_row-ok r (from_json p loads (c ∷ cs)) e h in
        (from_json-IsValid p loads (c ∷ cs) e k, a)
