-- ===== src/Config/Evidence.antt =====
-- What the verified chain (map-business-backend/app/api/audit_events.py) says of the events: they cannot be changed under one last hash.
use map.Base.{
  ℕ, suc, true, Option, none, some, List, [], ◌∷◌, ◌++◌, length, ◌≡◌, ◌≢◌, ◌⊎◌, refl, sym, ap, ◌∙◌,
  subst, Bool-cases, inl, inr, arith,
}
use mathlib.Core.Bool.{false≢true}
use map.Envelope.Canonical.{Text}
use map.Conversation.{text_eq}
use map.Conversation.Completed.{text_eq-path}
use map.Config.{ConfigAuditEvent, hashed, compute_entry_hash}
use map.Config.Record.{AuditRecord, canonical}
use map.Config.Linked.{text_eq_refl, Linked, last_hash, walk-Linked, is_intact, is_some}
use map.Config.Verify.{intact, verify_chain_rows}

-- The texts of two lists of events are the same, one by one.
abbrev pub SameRecords : List ConfigAuditEvent → List ConfigAuditEvent → Type 0
SameRecords [] [] = Unit
SameRecords [] (f ∷ fs) = ⊥
SameRecords (e ∷ es) [] = ⊥
SameRecords (e ∷ es) (f ∷ fs) = (canonical (e.columns) ≡ canonical (f.columns)) × SameRecords es fs

split_at : (a b s t : Text) → length a ≡ length b → a ++ s ≡ b ++ t → (a ≡ b) × (s ≡ t)
split_at [] [] s t n h = (refl, h)
split_at [] (y ∷ b) s t n h = absurd (omega arith)
split_at (x ∷ a) [] s t n h = absurd (omega arith)
split_at (x ∷ a) (y ∷ b) s t n h =
    let (p, q) = split_at a b s t (omega arith) (cc) in let r : x ≡ y = cc in (cc, q)

abbrev text_of : Option Text → Text
text_of none = []
text_of (some t) = t

module _ (sha256_hex : Text → Text) where
  -- Two texts with one hash.
  abbrev pub Collision : Type 0
  Collision = (s : Text) × (t : Text) × (s ≢ t) × (sha256_hex s ≡ sha256_hex t)

  same_or_collision : (s t : Text) → sha256_hex s ≡ sha256_hex t → (s ≡ t) ⊎ Collision
  same_or_collision s t h = elim (Bool-cases (text_eq s t)) [
    | inl e ↦ inl (text_eq-path s t e)
    | inr e ↦
        inr (s, t, λ p. false≢true (sym e ∙ subst (λ z. text_eq s z ≡ true) p (text_eq_refl s)), h)
  ]

  hashed-text :
      (prev : Text) (o : Option Text) (h : Text)
      → hashed sha256_hex prev o ≡ some h
      → (t : Text) × (o ≡ some t) × (sha256_hex (prev ++ t) ≡ h)
  hashed-text prev none h e = absurd (false≢true (ap is_some e))
  hashed-text prev (some t) h e = (t, refl, ap (λ o. text_of o) e)

  hash-text :
      (prev : Text) (r : AuditRecord) (h : Text)
      → compute_entry_hash sha256_hex prev r ≡ some h
      → (t : Text) × (canonical r ≡ some t) × (sha256_hex (prev ++ t) ≡ h)
  unfolding compute_entry_hash
  hash-text prev r h e = hashed-text prev (canonical r) h e

  evident :
      (i : ℕ) (p q : Text) (es fs : List ConfigAuditEvent)
      → ((t : Text) → length (sha256_hex t) ≡ 64)
      → length p ≡ length q
      → Linked sha256_hex i p es
      → Linked sha256_hex i q fs
      → length es ≡ length fs
      → last_hash p es ≡ last_hash q fs
      → ((p ≡ q) × SameRecords es fs) ⊎ Collision
  evident i p q [] [] size b le lf n h = inl (h, tt)
  evident i p q [] (f ∷ fs) size b le lf n h = absurd (omega arith)
  evident i p q (e ∷ es) [] size b le lf n h = absurd (omega arith)
  evident i p q (e ∷ es) (f ∷ fs) size b le lf n h =
      let (s, se, hs) = hash-text p (e.columns) (e.entry_hash) le.2 in
      let (t, te, ht) = hash-text q (f.columns) (f.entry_hash) lf.2 in
      let sizes : length (e.entry_hash) ≡ length (f.entry_hash) =
        sym (ap length hs) ∙ size (p ++ s) ∙ sym (size (q ++ t)) ∙ ap length ht in
      elim (evident (suc i) (e.entry_hash) (f.entry_hash) es fs size sizes le.3 lf.3 (omega arith)
        h) [
          | inl (hh, same) ↦ elim (same_or_collision (p ++ s) (q ++ t) (hs ∙ hh ∙ sym ht)) [
            | inl joined ↦
                let (pq, st) = split_at p q s t b joined in
                inl (pq, (se ∙ ap some st ∙ sym te, same))
            | inr c ↦ inr c
          ]
          | inr c ↦ inr c
        ]

  -- Two tables of events that the verifier finds whole, of one length and with one last hash, hold the same canonical records in the same order, or the hash function gives one digest for two texts; its digests have 64 characters.
  pub verify_chain_rows-evident :
      ((t : Text) → length (sha256_hex t) ≡ 64)
      → (es fs : List ConfigAuditEvent) → verify_chain_rows sha256_hex es ≡ intact (length es)
      → verify_chain_rows sha256_hex fs ≡ intact (length fs)
      → length es ≡ length fs
      → last_hash [] es ≡ last_hash [] fs
      → SameRecords es fs ⊎ Collision
  unfolding verify_chain_rows
  verify_chain_rows-evident size es fs he hf n h =
      elim (evident 0 [] [] es fs size refl
        (walk-Linked sha256_hex (length es) 0 [] es (ap is_intact he))
        (walk-Linked sha256_hex (length fs) 0 [] fs (ap is_intact hf)) n h) [
          | inl r ↦ inl r.1
          | inr c ↦ inr c
        ]
