-- ===== src/Jobs/Rows.antt =====
-- Rows of the job table of jobs.py: what an UPDATE and the ordered selection do to a look-up by primary
-- key.
use mathlib.Core.Option
use mathlib.Core.List.{Memᴰ}
use map.Base.{
  ℕ, Bool, true, false, ◌&&◌, ◌≡◌, refl, sym, subst, ◌≢◌, ◌⊎◌, inl, inr, Option, none, some, List,
  [], ◌∷◌, All, All_mem, arith, Bool-cases, if◌then◌else◌,
}
use map.Jobs.{Job, update, any_row, find, before, best, pick}

-- Primary keys are distinct.
abbrev pub Unique : List Job → Type 0
Unique [] = Unit {0}
Unique (j ∷ js) = All (λ k. k.id ≢ j.id) js × Unique js

abbrev pub KeepsId : (Job → Job) → Type 0
KeepsId f = (j : Job) → (f j).id ≡ j.id

module _ (p : Job → Bool) (f : Job → Job) (keeps : KeepsId f) where
  changed : Job → Job
  changed j = if p j then f j else j

  changed-id : (j : Job) → (changed j).id ≡ j.id
  unfolding changed
  changed-id j = ground (arith, keeps j)

  pub find-update :
      (i : ℕ) (js : List Job)
      → find i (update p f js) ≡ Option.map (λ j. if p j then f j else j) (find i js)
  unfolding find update
  find-update i [] = refl
  find-update i (j ∷ js) = ground (arith, find-update i js, keeps j)

  others-update :
      (i : ℕ) (js : List Job) → All (λ k. k.id ≢ i) js → All (λ k. k.id ≢ i) (update p f js)
  unfolding update
  others-update i [] a = tt
  others-update i (j ∷ js) a = (ground (arith, keeps j), others-update i js a.1)

  pub Unique-update : (js : List Job) → Unique js → Unique (update p f js)
  unfolding update changed
  Unique-update [] u = tt
  Unique-update (j ∷ js) u = (rest, Unique-update js u.1)
    where
      rest : All (λ k. k.id ≢ (changed j).id) (update p f js)
      rest = rw (changed-id j) (others-update j.id js u.0)

pub find-id : (i : ℕ) (js : List Job) (j : Job) → find i js ≡ some j → j.id ≡ i
unfolding find
find-id i [] j h = cc
find-id i (k ∷ js) j h = ground (arith, find-id i js j)

find_of_mem_at :
    (i : ℕ) (j : Job) (js : List Job) → j.id ≡ i → Unique js → Memᴰ j js → find i js ≡ some j
unfolding find
find_of_mem_at i j [] e u m = elim m [ ]
find_of_mem_at i j (k ∷ js) e u (Memᴰ.head same) = ground arith
find_of_mem_at i j (k ∷ js) e u (Memᴰ.tail m) =
    ground (arith, find_of_mem_at i j js e u.1 m, All_mem (λ x. x.id ≢ k.id) js j u.0 m)

pub find_of_mem : (j : Job) (js : List Job) → Unique js → Memᴰ j js → find j.id js ≡ some j
find_of_mem j js = find_of_mem_at j.id j js refl

best-cases : (k : Job) (r : Option Job) (j : Job) → best k r ≡ some j → (k ≡ j) ⊎ (r ≡ some j)
best-cases k none j h = inl (ground arith)
best-cases k (some r) j h = ground arith

best-ne-none : (k : Job) (r : Option Job) → best k r ≢ none
best-ne-none k none h = cc
best-ne-none k (some r) h = ground arith

-- The selected row is in the table and satisfies the condition.
pub pick-mem :
    (p : Job → Bool) (js : List Job) (j : Job) → pick p js ≡ some j → (p j ≡ true) × Memᴰ j js
unfolding pick
pick-mem p [] j h = cc
pick-mem p (k ∷ js) j h = elim (Bool-cases (p k)) [
  | inr e ↦ let (a, m) = pick-mem p js j (rw e at h) in (a, Memᴰ.tail m)
  | inl e ↦ elim (best-cases k (pick p js) j (rw e at h)) [
    | inl same ↦ (subst (λ x. p x ≡ true) same e, Memᴰ.head (sym same))
    | inr later ↦ let (a, m) = pick-mem p js j later in (a, Memᴰ.tail m)
  ]
]

pub pick-none : (p : Job → Bool) (js : List Job) → pick p js ≡ none → All (λ k. p k ≡ false) js
unfolding pick
pick-none p [] h = tt
pick-none p (k ∷ js) h = elim (Bool-cases (p k)) [
  | inr e ↦ (e, pick-none p js (rw e at h))
  | inl e ↦ absurd (best-ne-none k (pick p js) (rw e at h))
]

before_trans : (a b c : Job) → before a b ≡ false → before b c ≡ false → before a c ≡ false
before_trans a b c h g = ground arith

before_asym : (a b : Job) → before a b ≡ true → before b a ≡ false
before_asym a b h = ground arith

before_irrefl : (a : Job) → before a a ≡ false
before_irrefl a = ground arith

abbrev NoneBefore : (Job → Bool) → Job → List Job → Type 0
NoneBefore p j = All (λ k. p k ≡ true → before k j ≡ false)

NoneBefore-none :
    (p : Job → Bool) (j : Job) (js : List Job) → All (λ k. p k ≡ false) js → NoneBefore p j js
NoneBefore-none p j [] a = tt
NoneBefore-none p j (k ∷ js) a = (λ h. cc, NoneBefore-none p j js a.1)

NoneBefore-trans :
    (p : Job → Bool) (r j : Job) (js : List Job)
    → before r j ≡ false
    → NoneBefore p r js
    → NoneBefore p j js
NoneBefore-trans p r j [] h a = tt
NoneBefore-trans p r j (k ∷ js) h a =
    (λ g. before_trans k r j (a.0 g) h, NoneBefore-trans p r j js h a.1)

-- One more row: the better of it and of the best of the rest.
best-NoneBefore :
    (p : Job → Bool) (k : Job) (r : Option Job) (j : Job) (js : List Job)
    → pick p js ≡ r
    → ((r' : Job) → r ≡ some r' → NoneBefore p r' js)
    → best k r ≡ some j
    → (before k j ≡ false) × NoneBefore p j js
best-NoneBefore p k none j js e ih h =
    (ground (arith, before_irrefl k), NoneBefore-none p j js (pick-none p js e))
best-NoneBefore p k (some r) j js e ih h = elim (Bool-cases (before r k)) [
  | inl b ↦
      let same : r ≡ j = ground arith in
      subst (λ x. (before k x ≡ false) × NoneBefore p x js) same (before_asym r k b, ih r refl)
  | inr b ↦
      let same : k ≡ j = ground arith in
      subst (λ x. (before k x ≡ false) × NoneBefore p x js) same
        (before_irrefl k, NoneBefore-trans p r k js b (ih r refl))
]

pick-best :
    (p : Job → Bool) (js : List Job) (j : Job)
    → pick p js ≡ some j
    → All (λ k. p k ≡ true → before k j ≡ false) js
unfolding pick
pick-best p [] j h = tt
pick-best p (k ∷ js) j h = elim (Bool-cases (p k)) [
  | inl e ↦
      let (a, b) = best-NoneBefore p k (pick p js) j js refl (pick-best p js) (rw e at h) in
      (λ _. a, b)
  | inr e ↦ (λ g. cc, pick-best p js j (rw e at h))
]

none_before :
    (p : Job → Bool) (j : Job) (js : List Job)
    → NoneBefore p j js
    → All (λ k. (p k && before k j) ≡ false) js
none_before p j [] a = tt
none_before p j (k ∷ js) a =
    (elim (Bool-cases (p k)) [ inl e ↦ rw e (a.0 e) | inr e ↦ rw e refl ], none_before p j js a.1)

-- No row that satisfies the condition stands before the selected one.
pub pick-first :
    (p : Job → Bool) (js : List Job) (j : Job)
    → pick p js ≡ some j
    → All (λ k. (p k && before k j) ≡ false) js
pick-first p js j h = none_before p j js (pick-best p js j h)

-- An UPDATE that matches no row leaves the table as it was.
pub update-none :
    (p : Job → Bool) (f : Job → Job) (js : List Job) → any_row p js ≡ false → update p f js ≡ js
unfolding update any_row
update-none p f [] h = refl
update-none p f (j ∷ js) h = ground (arith, update-none p f js)

pub any_row-mem :
    (p : Job → Bool) (js : List Job) → any_row p js ≡ true → (j : Job) × (p j ≡ true) × Memᴰ j js
unfolding any_row
any_row-mem p [] h = cc
any_row-mem p (k ∷ js) h = elim (Bool-cases (p k)) [
  | inl e ↦ (k, e, Memᴰ.head refl)
  | inr e ↦ let (j, a, m) = any_row-mem p js (rw e at h) in (j, a, Memᴰ.tail m)
]

pub any_row-find :
    (p : Job → Bool) (i : ℕ) (js : List Job) (j : Job)
    → find i js ≡ some j
    → p j ≡ true
    → any_row p js ≡ true
unfolding any_row find
any_row-find p i [] j h e = cc
any_row-find p i (k ∷ js) j h e = ground (arith, any_row-find p i js j)
