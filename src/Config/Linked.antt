-- ===== src/Config/Linked.antt =====
-- Appending to the audit chain (map-business-backend/app/services/config_mutation.py) and verifying it (map-business-backend/app/api/audit_events.py).
use map.Base.{
  ℕ, suc, Bool, true, false, Option, none, some, List, [], ◌∷◌, ◌++◌, ◌==◌, ==_iff, length, ◌≡◌,
  ◌⊎◌, refl, sym, ap, Bool-cases, inl, inr,
}
use mathlib.Core.Bool.{false≢true}
use map.Envelope.Canonical.{Text}
use map.Conversation.{text_eq}
use map.Conversation.Completed.{text_eq-path}
use map.Config.{
  Refusals, Appended, appended, audit_write_error, other_exception, fits, ConfigAuditEvent, Chain,
  Append, compute_entry_hash, truncated, lock_chain_head, new_event,
}
use map.Config.Record.{canonical}
use map.Config.Verify.{Verdict, intact, check_hash, walk, verify_chain_rows}

pub text_eq_refl : (t : Text) → text_eq t t ≡ true
unfolding text_eq
text_eq_refl [] = refl
text_eq_refl (c ∷ cs) = rw ((==_iff c c).1 refl) (text_eq_refl cs)

abbrev pub is_some : Option Text → Bool
is_some none = false
is_some (some t) = true

abbrev pub is_intact : Verdict → Bool
is_intact (intact n) = true
is_intact _ = false

-- The hash after the rows.
abbrev pub last_hash : Text → List ConfigAuditEvent → Text
last_hash prev [] = prev
last_hash prev (row ∷ rows) = last_hash (row.entry_hash) rows

-- A second event behind the same hash, which the unique index refuses.
unfoldable pub Forks : Text → List ConfigAuditEvent → Type 0
Forks prev [] = ⊥
Forks prev (row ∷ rows) = (row.prev_entry_hash ≡ prev) ⊎ Forks prev rows

module _ (sha256_hex : Text → Text) where
  -- The rows follow one another from this ordinal and this hash.
  abbrev pub Linked : ℕ → Text → List ConfigAuditEvent → Type 0
  Linked index prev [] = Unit
  Linked index prev (row ∷ rows) =
      (row.ordinal ≡ index)
      × (row.prev_entry_hash ≡ prev)
      × (compute_entry_hash sha256_hex prev (row.columns) ≡ some (row.entry_hash))
      × Linked (suc index) (row.entry_hash) rows

  pub Linked-walk :
      (n index : ℕ) (prev : Text) (rows : List ConfigAuditEvent)
      → Linked index prev rows
      → walk sha256_hex n index prev rows ≡ intact n
  unfolding walk
  Linked-walk n index prev [] h = refl
  Linked-walk n index prev (row ∷ rows) h =
      rw
        (
          h.0,
          h.1,
          (==_iff index index).1 refl,
          text_eq_refl prev,
          h.2,
          text_eq_refl (row.entry_hash),
        )
        (Linked-walk n (suc index) (row.entry_hash) rows h.3)

  check_hash-intact :
      (n index : ℕ) (row : ConfigAuditEvent) (rest : Verdict) (o : Option Text)
      → is_intact (check_hash sha256_hex n index row rest o) ≡ true
      → (o ≡ some (row.entry_hash)) × (is_intact rest ≡ true)
  check_hash-intact n index row rest none h = absurd (false≢true h)
  check_hash-intact n index row rest (some t) h = elim (Bool-cases (text_eq (row.entry_hash) t)) [
    | inl e ↦ (ap some (sym (text_eq-path (row.entry_hash) t e)), rw e at h)
    | inr e ↦ absurd (false≢true (rw e at h))
  ]

  pub walk-Linked :
      (n index : ℕ) (prev : Text) (rows : List ConfigAuditEvent)
      → is_intact (walk sha256_hex n index prev rows) ≡ true
      → Linked index prev rows
  unfolding walk
  walk-Linked n index prev [] h = tt
  walk-Linked n index prev (row ∷ rows) h = elim (Bool-cases (row.ordinal == index)) [
    | inl o ↦ elim (Bool-cases (text_eq (row.prev_entry_hash) prev)) [
      | inl p ↦
          let (e, r) =
            check_hash-intact n index row (walk sha256_hex n (suc index) (row.entry_hash) rows)
              (compute_entry_hash sha256_hex prev (row.columns)) (rw (o, p) at h) in
          (
            (==_iff (row.ordinal) index).0 o,
            text_eq-path (row.prev_entry_hash) prev p,
            e,
            walk-Linked n (suc index) (row.entry_hash) rows r,
          )
      | inr p ↦ absurd (false≢true (rw (o, p) at h))
    ]
    | inr o ↦ absurd (false≢true (rw o at h))
  ]

  -- The verifier finds nothing broken, and the head stands behind the last event.
  abbrev pub IsChain : Chain → Type 0
  IsChain c =
      (verify_chain_rows sha256_hex (c.events) ≡ intact (length (c.events)))
      × ((lock_chain_head (c.head)).head_ordinal ≡ length (c.events))
      × ((lock_chain_head (c.head)).head_entry_hash ≡ last_hash [] (c.events))

  pub IsChain-Linked : (c : Chain) → IsChain c → Linked 0 [] (c.events)
  unfolding verify_chain_rows
  IsChain-Linked c h = walk-Linked (length (c.events)) 0 [] (c.events) (ap is_intact h.0)

  -- An event that this append would write is too wide for a column.
  abbrev pub Wide : Append → Chain → Type 0
  Wide a c = (t : Text) × (fits (new_event sha256_hex a (lock_chain_head (c.head)) t) ≡ false)

  -- What an append does to a chain that is whole, by how it ends.
  abbrev pub Outcome : Refusals → Append → Chain → Appended → Type 0
  Outcome f a c (appended d) =
      IsChain d
      × ((e : ConfigAuditEvent) × (d.events ≡ c.events ++ e ∷ [])
          × (e.columns ≡ truncated a.columns))
  Outcome f a c audit_write_error =
      (canonical (truncated a.columns) ≡ none)
      ⊎ (Forks (last_hash [] (c.events)) (c.events) ⊎ (Wide a c ⊎ (f.flush_refused ≡ true)))
  Outcome f a c other_exception = (canonical (truncated a.columns) ≡ none) ⊎ (f.head_refused ≡ true)
