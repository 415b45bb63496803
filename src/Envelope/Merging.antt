-- ===== src/Envelope/Merging.antt =====
-- The dicts of map-business-backend/app/runtime/event_envelope.py: what `update` and the filter of unknown fields give where no key clashes.
use map.Base.{
  String, Bool, true, false, ◌||◌, List, [], ◌∷◌, ◌≡◌, refl, sym, ap, ◌∙◌, arith, str_eq, eq_iff,
  Bool-cases, &&-eq-true, inl, inr,
}
use map.StateMachine.{contains}
use map.Envelope.{
  Key, str_key, scalar_key, object_key, Value, Entries, no_entries, entry, validate_json_types,
  validate_entries, thaw_entries, deep_thaw,
}
use map.Envelope.Fields.{
  key_eq, has_key, set_key, update, reserved_envelope_fields, unknown_fields, shadows,
}

infixr 60 ◌⧺◌
abbrev pub ◌⧺◌ : Entries → Entries → Entries
no_entries ⧺ fs = fs
entry k v es ⧺ fs = entry k v (es ⧺ fs)

-- No string is a key twice, as in every Python dict.
abbrev pub Distinct : Entries → Type 0
Distinct no_entries = Unit
Distinct (entry (str_key s) v es) = (has_key s es ≡ false) × Distinct es
Distinct (entry k v es) = Distinct es

-- String keys, none reserved, none twice.
abbrev pub Plain : Entries → Type 0
Plain no_entries = Unit
Plain (entry (str_key s) v es) =
    (contains s reserved_envelope_fields ≡ false) × (has_key s es ≡ false) × Plain es
Plain (entry k v es) = true ≡ false

||-eq-false : (a b : Bool) → (a || b) ≡ false → (a ≡ false) × (b ≡ false)
||-eq-false true b h = cc
||-eq-false false b h = (refl, h)

str_eq_comm : (s t : String) → str_eq s t ≡ str_eq t s
str_eq_comm s t = ground (arith, eq_iff s t, eq_iff t s)

has_key-⧺ :
    (s : String) (es : Entries) (k : Key) (v : Value)
    → has_key s (es ⧺ entry k v no_entries) ≡ (has_key s es || key_eq k (str_key s))
unfolding has_key
has_key-⧺ s no_entries k v = elim (Bool-cases (key_eq k (str_key s))) [
  | inl h ↦ rw h refl
  | inr h ↦ rw h refl
]
has_key-⧺ s (entry j w es) k v = elim (Bool-cases (key_eq j (str_key s))) [
  | inl h ↦ rw h refl
  | inr h ↦ rw h (has_key-⧺ s es k v)
]

⧺-nil : (es : Entries) → es ⧺ no_entries ≡ es
⧺-nil no_entries = refl
⧺-nil (entry k v es) = ap (entry k v) (⧺-nil es)

⧺-assoc : (es fs gs : Entries) → (es ⧺ fs) ⧺ gs ≡ es ⧺ (fs ⧺ gs)
⧺-assoc no_entries fs gs = refl
⧺-assoc (entry k v es) fs gs = ap (entry k v) (⧺-assoc es fs gs)

set_key-new :
    (s : String) (v : Value) (es : Entries)
    → has_key s es ≡ false
    → set_key (str_key s) v es ≡ es ⧺ entry (str_key s) v no_entries
unfolding has_key set_key
set_key-new s v no_entries h = refl
set_key-new s v (entry j w es) h =
    let (hj, hes) = ||-eq-false (key_eq j (str_key s)) (has_key s es) h in
    rw (hj, set_key-new s v es hes) refl

-- No string key of the second is one of the first.
abbrev Apart : Entries → Entries → Type 0
Apart es no_entries = Unit
Apart es (entry (str_key s) v fs) = (has_key s es ≡ false) × Apart es fs
Apart es (entry k v fs) = Apart es fs

Apart-grow :
    (es : Entries) (t : String) (v : Value) (fs : Entries)
    → Apart es fs
    → has_key t fs ≡ false
    → Apart (es ⧺ entry (str_key t) v no_entries) fs
unfolding has_key
Apart-grow es t v no_entries a h = tt
Apart-grow es t v (entry (str_key s) w fs) a h =
    let (hk, hfs) = ||-eq-false (str_eq s t) (has_key t fs) h in
    (has_key-⧺ s es (str_key t) v ∙ rw (a.0, str_eq_comm t s) hk, Apart-grow es t v fs a.1 hfs)
Apart-grow es t v (entry (scalar_key x y) w fs) a h = Apart-grow es t v fs a h
Apart-grow es t v (entry (object_key x) w fs) a h = Apart-grow es t v fs a h

update-Apart : (es fs : Entries) → Apart es fs → Plain fs → update es fs ≡ es ⧺ fs
unfolding update
update-Apart es no_entries a p = sym (⧺-nil es)
update-Apart es (entry (str_key s) v fs) a p =
    rw
      (
        set_key-new s v es a.0,
        update-Apart (es ⧺ entry (str_key s) v no_entries) fs (Apart-grow es s v fs a.1 p.1) p.2,
      )
      (⧺-assoc es (entry (str_key s) v no_entries) fs)
update-Apart es (entry (scalar_key x y) v fs) a p = cc
update-Apart es (entry (object_key x) v fs) a p = cc

-- A key that is in the second is not reserved, where the reserved names are the first's keys.
Plain-Apart :
    (es : Entries)
    → ((s : String) → has_key s es ≡ contains s reserved_envelope_fields)
    → (fs : Entries) → Plain fs
    → Apart es fs
Plain-Apart es h no_entries p = tt
Plain-Apart es h (entry (str_key s) v fs) p = (h s ∙ p.0, Plain-Apart es h fs p.2)
Plain-Apart es h (entry (scalar_key x y) v fs) p = cc
Plain-Apart es h (entry (object_key x) v fs) p = cc

-- `update` of a dict whose keys are the reserved names appends plain entries.
pub update-Plain :
    (es : Entries)
    → ((s : String) → has_key s es ≡ contains s reserved_envelope_fields)
    → (fs : Entries) → Plain fs
    → update es fs ≡ es ⧺ fs
update-Plain es h fs p = update-Apart es fs (Plain-Apart es h fs p) p

pub unknown_fields-Plain : (fs : Entries) → Plain fs → unknown_fields fs ≡ fs
unfolding unknown_fields
unknown_fields-Plain no_entries p = refl
unknown_fields-Plain (entry (str_key s) v fs) p =
    rw p.0 (ap (entry (str_key s) v) (unknown_fields-Plain fs p.2))
unknown_fields-Plain (entry (scalar_key x y) v fs) p = cc
unknown_fields-Plain (entry (object_key x) v fs) p = cc

shadows-tail :
    (names : List String) (s : String) (v : Value) (es : Entries)
    → shadows names (entry (str_key s) v es) ≡ false
    → (contains s names ≡ false) × (shadows names es ≡ false)
unfolding shadows has_key contains
shadows-tail [] s v es h = (refl, refl)
shadows-tail (n ∷ ns) s v es h =
    let (hn, hns) =
      ||-eq-false (str_eq s n || has_key n es) (shadows ns (entry (str_key s) v es)) h in
    let (hs, hes) = ||-eq-false (str_eq s n) (has_key n es) hn in
    let (c, d) = shadows-tail ns s v es hns in (rw (str_eq_comm n s, hs) c, rw hes d)

has_key-thaw_entries : (s : String) (es : Entries) → has_key s (thaw_entries es) ≡ has_key s es
unfolding has_key deep_thaw
has_key-thaw_entries s no_entries = refl
has_key-thaw_entries s (entry k v es) =
    ap (λ b. key_eq k (str_key s) || b) (has_key-thaw_entries s es)

pub shadows-thaw_entries :
    (names : List String) (es : Entries) → shadows names (thaw_entries es) ≡ shadows names es
unfolding shadows
shadows-thaw_entries [] es = refl
shadows-thaw_entries (n ∷ ns) es = rw (has_key-thaw_entries n es, shadows-thaw_entries ns es) refl

-- The thawed extra fields that the constructor lets through are plain.
pub thaw_entries-Plain :
    (es : Entries)
    → Distinct es
    → validate_entries es ≡ true
    → shadows reserved_envelope_fields es ≡ false
    → Plain (thaw_entries es)
unfolding deep_thaw validate_json_types
thaw_entries-Plain no_entries d h n = tt
thaw_entries-Plain (entry (str_key s) v es) d h n =
    let (c, m) = shadows-tail reserved_envelope_fields s v es n in
    (
      c,
      has_key-thaw_entries s es ∙ d.0,
      thaw_entries-Plain es d.1 (&&-eq-true (validate_json_types v) (validate_entries es) h).1 m,
    )
thaw_entries-Plain (entry (scalar_key x y) v es) d h n = cc
thaw_entries-Plain (entry (object_key x) v es) d h n = cc
