-- ===== src/Effects/Rows.antt =====
-- Histories of statements on the effect ledger (map-business-backend/app/workers/job_runner.py), and properties of a row that they
-- keep.
use map.Base.{
  ℕ, suc, ◌≤◌, Bool, true, false, ◌≡◌, refl, sym, ◌∙◌, subst, inl, inr, some, List, [], ◌∷◌, All,
  arith, if◌then◌else◌, Bool-cases, eq_iff,
}
use map.Effects.{Row, Slot, Ledger, Statement, statement_row, mints, same_slot, write, execute}
use map.Effects.Fencing.{rank, IsTerminal, RowStep, statement-RowStep}

pub record Timed : Type 0 where
  pub statement : Statement
  pub slot : Slot
  pub now : ℕ

unfoldable pub run : List Timed → Ledger → Ledger
unfolding execute
run [] l = l
run (e ∷ es) l = run es (execute e.statement e.slot e.now l).0

pub same_slot-eq : (s t : Slot) → same_slot s t ≡ true → s ≡ t
same_slot-eq s t h = ground (arith, eq_iff s.effect_key t.effect_key)

-- A property of the row of one key that every statement keeps, given the supply of tokens.
abbrev pub Keeps : (ℕ → Row → Type 0) → Timed → Type 0
Keeps P e =
    (token : ℕ) (r : Row)
    → P token r
    → (r' : Row) × ((statement_row e.statement token e.now (some r)).0 ≡ some r')
      × P (if mints e.statement then suc token else token) r'

abbrev pub RowOf : (ℕ → Row → Type 0) → Slot → Ledger → Type 0
RowOf P t l = (r : Row) × (l.rows t ≡ some r) × P l.minted r

module _ (P : ℕ → Row → Type 0) (grows : (m : ℕ) (r : Row) → P m r → P (suc m) r) (t : Slot) where
  pub mint_keeps : (b : Bool) (m : ℕ) (r : Row) → P m r → P (if b then suc m else m) r
  mint_keeps true m r h = grows m r h
  mint_keeps false m r h = h

  pub execute-Keeps :
      (e : Timed)
      → Keeps P e
      → (l : Ledger) → RowOf P t l
      → RowOf P t (execute e.statement e.slot e.now l).0
  unfolding execute write
  execute-Keeps e keeps l (r, here, h) = elim (Bool-cases (same_slot e.slot t)) [
    | inl same ↦
        let at : l.rows e.slot ≡ some r =
          subst (λ x. l.rows x ≡ some r) (sym (same_slot-eq e.slot t same)) here in
        let (r', wrote, h') = keeps l.minted r h in (r', rw same (rw at wrote), h')
    | inr other ↦ (r, rw other here, mint_keeps (mints e.statement) l.minted r h)
  ]

  pub run-Keeps :
      (es : List Timed) → All (Keeps P) es → (l : Ledger) → RowOf P t l → RowOf P t (run es l)
  unfolding run
  run-Keeps [] a l h = h
  run-Keeps (e ∷ es) a l h =
      run-Keeps es a.1 (execute e.statement e.slot e.now l).0 (execute-Keeps e a.0 l h)

pub every_All {ℓ κ} : {A : Type ℓ} (P : A → Type κ) → ((a : A) → P a) → (xs : List A) → All P xs
every_All P h [] = tt
every_All P h (x ∷ xs) = (h x, every_All P h xs)

-- A later row beside an earlier one.
pub record After (r r' : Row) : Type 0 where
  pub rank_grows : rank r.status ≤ rank r'.status
  pub terminal_stays : IsTerminal r → r' ≡ r

pub After-RowStep : {token : ℕ} {r x x' : Row} → After r x → RowStep token x x' → After r x'
After-RowStep a b = record {
  rank_grows = omega arith;
  terminal_stays = λ h. let e = a.terminal_stays h in b.terminal_stays (rw e h) ∙ e;
}

pub After-Keeps : (r : Row) (e : Timed) → Keeps (λ _ x. After r x) e
After-Keeps r e m x h =
    let (x', wrote, st) = statement-RowStep m e.now x e.statement in (x', wrote, After-RowStep h st)

-- After any history of statements, by any callers, a row of the ledger is still there, its status has not gone back, and if it
-- was delivered or uncertain it is as it was.
pub run-After :
    (es : List Timed) (l : Ledger) (t : Slot) (r : Row)
    → l.rows t ≡ some r
    → (r' : Row) × ((run es l).rows t ≡ some r') × After r r'
run-After es l t r here =
    run-Keeps (λ _ x. After r x) (λ m x h. h) t es
      (every_All (Keeps (λ _ x. After r x)) (After-Keeps r) es) l
      (r, here, record { rank_grows = omega arith; terminal_stays = λ _. refl })
