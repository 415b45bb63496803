-- ===== src/Conversation/Messages/Stale.antt =====
-- The rows that the subquery of map-business-backend/app/services/message_reconciler.py chooses.
use map.Base.{
  ℕ, zero, suc, Bool, true, false, ◌||◌, some, [], ◌∷◌, ◌==◌, leb, take, ◌≡◌, refl, sym, ap, ◌∙◌,
  subst, Bool-cases, inl, inr,
}
use map.Conversation.Messages.{
  Message, Table, is_stale, filter_rows, insert_by_time, sort_by_time, stale_ids, find_row,
  id_taken,
}
use map.Conversation.Messages.Rows.{Unique, find-here, find-later}

id_taken-take : (id n : ℕ) (ms : Table) → id_taken id (take n ms) ≡ true → id_taken id ms ≡ true
unfolding id_taken
id_taken-take id zero ms h = cc
id_taken-take id (suc n) [] h = h
id_taken-take id (suc n) (m ∷ ms) h = elim (Bool-cases (m.id == id)) [
  | inl e ↦ rw e refl
  | inr e ↦ rw e (id_taken-take id n ms (subst (λ b. (b || id_taken id (take n ms)) ≡ true) e h))
]

||_swap : (a b c : Bool) → (a || (b || c)) ≡ (b || (a || c))
||_swap true true c = refl
||_swap true false c = refl
||_swap false b c = refl

id_taken-insert :
    (id : ℕ) (m : Message) (ns : Table)
    → id_taken id (insert_by_time m ns) ≡ ((m.id == id) || id_taken id ns)
unfolding id_taken insert_by_time
id_taken-insert id m [] = refl
id_taken-insert id m (n ∷ ns) = elim (Bool-cases (leb m.updated_at n.updated_at)) [
  | inl e ↦ rw e refl
  | inr e ↦ rw e (
      ap (λ b. (n.id == id) || b) (id_taken-insert id m ns)
      ∙ ||_swap (n.id == id) (m.id == id) (id_taken id ns))
]

id_taken-sort : (id : ℕ) (ms : Table) → id_taken id (sort_by_time ms) ≡ id_taken id ms
unfolding sort_by_time id_taken
id_taken-sort id [] = refl
id_taken-sort id (m ∷ ms) =
    id_taken-insert id m (sort_by_time ms) ∙ ap (λ b. (m.id == id) || b) (id_taken-sort id ms)

filter_rows-skip :
    (p : Message → Bool) (n : Message) (ms : Table)
    → p n ≡ false
    → filter_rows p (n ∷ ms) ≡ filter_rows p ms
unfolding filter_rows
filter_rows-skip p n ms h = rw h refl

-- A row with another id in front does not matter.
filter_rows-other :
    (id : ℕ) (p : Message → Bool) (n : Message) (ms : Table)
    → (n.id == id) ≡ false
    → id_taken id (filter_rows p (n ∷ ms)) ≡ id_taken id (filter_rows p ms)
unfolding filter_rows id_taken
filter_rows-other id p n ms e = elim (Bool-cases (p n)) [
  | inl t ↦ rw (t, e) refl
  | inr f ↦ rw f refl
]

id_taken-filter :
    (id : ℕ) (p : Message → Bool) (ms : Table)
    → id_taken id (filter_rows p ms) ≡ true
    → id_taken id ms ≡ true
unfolding id_taken filter_rows
id_taken-filter id p [] h = h
id_taken-filter id p (m ∷ ms) h = elim (Bool-cases (m.id == id)) [
  | inl e ↦ rw e refl
  | inr e ↦ rw e (id_taken-filter id p ms (sym (filter_rows-other id p m ms e) ∙ h))
]

-- By the primary key, a row that was chosen is one that passes the test.
filtered-passes :
    (p : Message → Bool) (ms : Table) (m : Message)
    → Unique ms
    → find_row (m.id) ms ≡ some m
    → id_taken (m.id) (filter_rows p ms) ≡ true
    → p m ≡ true
unfolding id_taken find_row filter_rows
filtered-passes p [] m u f h = cc
filtered-passes p (n ∷ ms) m u f h = elim (Bool-cases (n.id == m.id)) [
  | inl e ↦
      let same : n ≡ m = option_path n m (sym (find-here m.id n ms e) ∙ f) in
      elim (Bool-cases (p n)) [
        | inl t ↦ ap p (sym same) ∙ t
        | inr t ↦
            let taken =
              id_taken-filter m.id p ms
                (sym (ap (id_taken m.id) (filter_rows-skip p n ms t)) ∙ h) in
            let free = ap (λ z. id_taken (z.id) ms) (sym same) ∙ u.0 in cc
      ]
  | inr e ↦
      filtered-passes p ms m u.1 (sym (find-later m.id n ms e) ∙ f)
        (sym (filter_rows-other m.id p n ms e) ∙ h)
]
  where
    option_path : (a b : Message) → some a ≡ some b → a ≡ b
    option_path a b h = cc

-- A row that the subquery chooses is stale, and so still streaming.
pub stale_ids-stale :
    (threshold limit : ℕ) (ms : Table) (m : Message)
    → Unique ms
    → find_row (m.id) ms ≡ some m
    → id_taken (m.id) (stale_ids threshold limit ms) ≡ true
    → is_stale threshold m ≡ true
unfolding stale_ids
stale_ids-stale threshold limit ms m u f h = filtered-passes (is_stale threshold) ms m u f (
    sym (id_taken-sort m.id (filter_rows (is_stale threshold) ms))
    ∙ id_taken-take m.id limit (sort_by_time (filter_rows (is_stale threshold) ms)) h)
