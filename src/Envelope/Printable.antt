-- ===== src/Envelope/Printable.antt =====
-- The text that `json.dumps` writes for map-business-backend/app/runtime/event_envelope.py has no control character.
use map.Base.{
  ℕ, zero, suc, ◌+◌, ◌≤◌, String, Bool, true, false, Option, none, some, [], ◌∷◌, ltb, ◌==◌,
  if◌then◌else◌, ◌≡◌, refl, arith, All, All-append, Bool-cases, inl, inr,
}
use map.Envelope.{
  ℤ, pos, negsuc, Mark, digit, Decimal, end, mark, Key, str_key, scalar_key, object_key, Value,
  none_value, bool, int, finite, non_finite, str, surrogate_str, list, tuple, dict, proxy, object,
  Items, no_items, item, Entries, no_entries, entry,
}
use map.Envelope.Canonical.{
  Text, codes, digits_from, show_nat, show_int, hex_digit, escape, escape_all, quoted, show_mark,
  show_decimal, dump_key, both, bracket, dumps, dump_items, dump_entries,
}
use Prim.Native.Nat.{◌/◌, ◌%◌}

-- No control character of ASCII.
abbrev pub Printable : Text → Type 0
Printable = All (λ c. 32 ≤ c)

abbrev pub Shown : Option Text → Type 0
Shown none = Unit
Shown (some t) = Printable t

-- Decimal digits.
abbrev pub Digits : Text → Type 0
Digits = All (λ c. (48 ≤ c) × (c ≤ 57))

digits_from-Digits : (fuel n : ℕ) (acc : Text) → Digits acc → Digits (digits_from fuel n acc)
unfolding digits_from
digits_from-Digits zero n acc h = h
digits_from-Digits (suc fuel) n acc h = elim (Bool-cases (ltb n 10)) [
  | inl e ↦ rw e ((omega arith, omega arith), h)
  | inr e ↦
      rw e (digits_from-Digits fuel (n / 10) ((48 + n % 10) ∷ acc) ((omega arith, omega arith), h))
]

pub show_nat-Digits : (n : ℕ) → Digits (show_nat n)
unfolding show_nat
show_nat-Digits n = digits_from-Digits (suc n) n [] tt

Digits-Printable : (t : Text) → Digits t → Printable t
Digits-Printable [] h = tt
Digits-Printable (c ∷ cs) h = let (a, b) = h.0 in (omega (arith, a), Digits-Printable cs h.1)

show_nat-Printable : (n : ℕ) → Printable (show_nat n)
show_nat-Printable n = Digits-Printable (show_nat n) (show_nat-Digits n)

show_int-Printable : (n : ℤ) → Printable (show_int n)
unfolding show_int
show_int-Printable (pos n) = show_nat-Printable n
show_int-Printable (negsuc n) = (omega arith, show_nat-Printable (suc n))

if-Printable :
    (b : Bool) (x y : Text)
    → Printable x
    → (b ≡ false → Printable y)
    → Printable (if b then x else y)
if-Printable true x y hx hy = hx
if-Printable false x y hx hy = hy refl

hex_digit-le : (n : ℕ) → 32 ≤ hex_digit n
hex_digit-le n = ground arith

pair-Printable : (c : ℕ) → 32 ≤ c → Printable (92 ∷ c ∷ [])
pair-Printable c h = (omega arith, (h, tt))

escape-Printable : (c : ℕ) → Printable (escape c)
escape-Printable c = if-Printable (c == 34) _ _ (pair-Printable 34 (omega arith)) (λ _.
    if-Printable (c == 92) _ _ (pair-Printable 92 (omega arith)) (λ _.
      if-Printable (c == 10) _ _ (pair-Printable 110 (omega arith)) (λ _.
        if-Printable (c == 13) _ _ (pair-Printable 114 (omega arith)) (λ _.
          if-Printable (c == 9) _ _ (pair-Printable 116 (omega arith)) (λ _.
            if-Printable (c == 12) _ _ (pair-Printable 102 (omega arith)) (λ _.
              if-Printable (c == 8) _ _ (pair-Printable 98 (omega arith)) (λ _.
                if-Printable (ltb c 32) _ _
                  (
                    omega arith,
                    (
                      omega arith,
                      (
                        omega arith,
                        (omega arith, (hex_digit-le (c / 16), (hex_digit-le (c % 16), tt))),
                      ),
                    ),
                  )
                  (λ e. (ground arith, tt)))))))))

escape_all-Printable : (cs : Text) → Printable (escape_all cs)
unfolding escape_all
escape_all-Printable [] = tt
escape_all-Printable (c ∷ cs) =
    All-append (λ c. 32 ≤ c) (escape c) (escape_all cs) (escape-Printable c)
      (escape_all-Printable cs)

quoted-Printable : (s : String) → Printable (quoted s)
unfolding quoted
quoted-Printable s = (
  omega arith,
  All-append (λ c. 32 ≤ c) (escape_all (codes s)) (34 ∷ []) (escape_all-Printable (codes s))
      (omega arith, tt),
)

show_mark-le : (m : Mark) → 32 ≤ show_mark m
show_mark-le (digit d) = omega arith
show_mark-le _ = omega arith

show_decimal-Printable : (r : Decimal) → Printable (show_decimal r)
unfolding show_decimal
show_decimal-Printable end = tt
show_decimal-Printable (mark m r) = (show_mark-le m, show_decimal-Printable r)

dump_key-Shown : (k : Key) → Shown (dump_key k)
unfolding dump_key
dump_key-Shown (str_key s) = quoted-Printable s
dump_key-Shown (scalar_key t s) = quoted-Printable s
dump_key-Shown (object_key t) = tt

both-Shown :
    (sep : ℕ) (a b : Option Text) → 32 ≤ sep → Shown a → Shown b → Shown (both (sep ∷ []) a b)
both-Shown sep none b h ha hb = tt
both-Shown sep (some a) none h ha hb = tt
both-Shown sep (some a) (some b) h ha hb = All-append (λ c. 32 ≤ c) a (sep ∷ b) ha (h, hb)

bracket-Shown : (a b : ℕ) (o : Option Text) → 32 ≤ a → 32 ≤ b → Shown o → Shown (bracket a b o)
bracket-Shown a b none ha hb h = tt
bracket-Shown a b (some t) ha hb h = (ha, All-append (λ c. 32 ≤ c) t (b ∷ []) h (hb, tt))

mutual
  unfolding dumps

  pub dumps-Shown : (v : Value) → Shown (dumps v)
  dumps-Shown none_value = (omega arith, (omega arith, (omega arith, (omega arith, tt))))
  dumps-Shown (bool true) = (omega arith, (omega arith, (omega arith, (omega arith, tt))))
  dumps-Shown (bool false) =
      (omega arith, (omega arith, (omega arith, (omega arith, (omega arith, tt)))))
  dumps-Shown (int n) = show_int-Printable n
  dumps-Shown (finite r) = show_decimal-Printable r
  dumps-Shown non_finite = tt
  dumps-Shown (str s) = quoted-Printable s
  dumps-Shown (surrogate_str t) = (
    omega arith,
    All-append (λ c. 32 ≤ c) (escape_all t) (34 ∷ []) (escape_all-Printable t) (omega arith, tt),
  )
  dumps-Shown (list xs) =
      bracket-Shown 91 93 (dump_items xs) (omega arith) (omega arith) (dump_items-Shown xs)
  dumps-Shown (tuple xs) =
      bracket-Shown 91 93 (dump_items xs) (omega arith) (omega arith) (dump_items-Shown xs)
  dumps-Shown (dict es) =
      bracket-Shown 123 125 (dump_entries es) (omega arith) (omega arith) (dump_entries-Shown es)
  dumps-Shown (proxy es) = tt
  dumps-Shown (object t) = tt

  dump_items-Shown : (xs : Items) → Shown (dump_items xs)
  dump_items-Shown no_items = tt
  dump_items-Shown (item v no_items) = dumps-Shown v
  dump_items-Shown (item v (item w xs)) =
      both-Shown 44 (dumps v) (dump_items (item w xs)) (omega arith) (dumps-Shown v)
        (dump_items-Shown (item w xs))

  dump_entries-Shown : (es : Entries) → Shown (dump_entries es)
  dump_entries-Shown no_entries = tt
  dump_entries-Shown (entry k v no_entries) =
      both-Shown 58 (dump_key k) (dumps v) (omega arith) (dump_key-Shown k) (dumps-Shown v)
  dump_entries-Shown (entry k v (entry l w es)) =
      both-Shown 44 (both (58 ∷ []) (dump_key k) (dumps v)) (dump_entries (entry l w es))
        (omega arith)
        (both-Shown 58 (dump_key k) (dumps v) (omega arith) (dump_key-Shown k) (dumps-Shown v))
        (dump_entries-Shown (entry l w es))
