-- ===== src/Conversation/Messages/Rows.antt =====
-- Rows of `messages` by their ids (map-business-backend/app/db/models/conversation.py) under an UPDATE and an INSERT.
use map.Base.{
  ℕ, Bool, true, false, ◌||◌, Option, none, some, [], ◌∷◌, ◌++◌, ◌==◌, ◌≡◌, refl, sym, ap, ◌∙◌,
  Bool-cases, inl, inr, arith, if◌then◌else◌,
}
use map.Conversation.Messages.{Message, Table, update_where, find_row, id_taken}

abbrev pub changed : (Message → Bool) → (Message → Message) → Option Message → Option Message
changed p f none = none
changed p f (some m) = some (if p m then f m else m)

-- A change that keeps the id.
abbrev pub KeepsId : (Message → Message) → Type 0
KeepsId f = (m : Message) → (f m).id ≡ m.id

kept-id :
    (p : Message → Bool) (f : Message → Message) (m : Message)
    → KeepsId f
    → (if p m then f m else m).id ≡ m.id
kept-id p f m h = elim (Bool-cases (p m)) [ inl e ↦ rw e (h m) | inr e ↦ rw e refl ]

pub find-here :
    (id : ℕ) (m : Message) (ms : Table) → (m.id == id) ≡ true → find_row id (m ∷ ms) ≡ some m
unfolding find_row
find-here id m ms h = rw h refl

pub find-later :
    (id : ℕ) (m : Message) (ms : Table)
    → (m.id == id) ≡ false
    → find_row id (m ∷ ms) ≡ find_row id ms
unfolding find_row
find-later id m ms h = rw h refl

pub find_row-update_where :
    (id : ℕ) (p : Message → Bool) (f : Message → Message)
    → KeepsId f
    → (ms : Table) → find_row id (update_where p f ms) ≡ changed p f (find_row id ms)
unfolding update_where find_row
find_row-update_where id p f h [] = refl
find_row-update_where id p f h (m ∷ ms) =
    let same = ap (λ i. i == id) (kept-id p f m h) in
    elim (Bool-cases (m.id == id)) [
      | inl e ↦
          find-here id (if p m then f m else m) (update_where p f ms) (same ∙ e)
          ∙ ap (changed p f) (sym (find-here id m ms e))
      | inr e ↦
          find-later id (if p m then f m else m) (update_where p f ms) (same ∙ e)
          ∙ (find_row-update_where id p f h ms ∙ ap (changed p f) (sym (find-later id m ms e)))
    ]

pub find_row-append :
    (id : ℕ) (m : Message) (ms ns : Table)
    → find_row id ms ≡ some m
    → find_row id (ms ++ ns) ≡ some m
unfolding find_row
find_row-append id m [] ns h = cc
find_row-append id m (n ∷ ms) ns h = elim (Bool-cases (n.id == id)) [
  | inl e ↦ find-here id n (ms ++ ns) e ∙ (sym (find-here id n ms e) ∙ h)
  | inr e ↦
      find-later id n (ms ++ ns) e ∙ find_row-append id m ms ns (sym (find-later id n ms e) ∙ h)
]

pub id_taken-update_where :
    (id : ℕ) (p : Message → Bool) (f : Message → Message)
    → KeepsId f
    → (ms : Table) → id_taken id (update_where p f ms) ≡ id_taken id ms
unfolding update_where id_taken
id_taken-update_where id p f h [] = refl
id_taken-update_where id p f h (m ∷ ms) =
    rw (kept-id p f m h, id_taken-update_where id p f h ms) refl

-- The primary key.
abbrev pub Unique : Table → Type 0
Unique [] = Unit
Unique (m ∷ ms) = (id_taken (m.id) ms ≡ false) × Unique ms

pub update_where-Unique :
    (p : Message → Bool) (f : Message → Message)
    → KeepsId f
    → (ms : Table) → Unique ms
    → Unique (update_where p f ms)
unfolding update_where
update_where-Unique p f h [] u = tt
update_where-Unique p f h (m ∷ ms) u = (
  ap (λ i. id_taken i (update_where p f ms)) (kept-id p f m h)
      ∙ (id_taken-update_where m.id p f h ms ∙ u.0),
  update_where-Unique p f h ms u.1,
)

pub ||-false : (a b : Bool) → (a || b) ≡ false → (a ≡ false) × (b ≡ false)
||-false true b h = cc
||-false false b h = (refl, h)

pub id_taken-append :
    (id : ℕ) (ms : Table) (n : Message)
    → id_taken id ms ≡ false
    → (n.id == id) ≡ false
    → id_taken id (ms ++ n ∷ []) ≡ false
unfolding id_taken
id_taken-append id [] n h k = rw k refl
id_taken-append id (m ∷ ms) n h k =
    let (a, b) = ||-false (m.id == id) (id_taken id ms) h in rw a (id_taken-append id ms n b k)

pub ==_comm : (a b : ℕ) → (a == b) ≡ false → (b == a) ≡ false
==_comm a b h = ground arith

pub append-Unique :
    (ms : Table) (n : Message) → Unique ms → id_taken (n.id) ms ≡ false → Unique (ms ++ n ∷ [])
unfolding id_taken
append-Unique [] n u h = (refl, tt)
append-Unique (m ∷ ms) n u h =
    let (a, b) = ||-false (m.id == n.id) (id_taken n.id ms) h in
    (id_taken-append m.id ms n u.0 (==_comm m.id n.id a), append-Unique ms n u.1 b)
