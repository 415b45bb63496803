-- ===== src/Config/Verify.antt =====
-- `verify_chain_rows` of map-business-backend/app/api/audit_events.py.
use map.Base.{
  ℕ, suc, String, not, ◌||◌, Option, none, some, List, [], ◌∷◌, ◌==◌, length, if◌then◌else◌,
}
use map.Envelope.Canonical.{Text}
use map.Conversation.{text_eq}
use map.Config.{ConfigAuditEvent, compute_entry_hash}

-- What the verifier answers: the number of rows, with the index and the id of the first broken
-- one; or it raises, on a row that `json.dumps` refuses.
pub data Verdict : Type 0 where
  intact : ℕ → Verdict
  broken : ℕ → ℕ → String → Verdict
  refused : Verdict

module _ (sha256_hex : Text → Text) where
  abbrev pub check_hash : ℕ → ℕ → ConfigAuditEvent → Verdict → Option Text → Verdict
  check_hash n index row rest none = refused
  check_hash n index row rest (some h) =
      if text_eq (row.entry_hash) h then rest else broken n index (row.id)

  unfoldable pub walk : ℕ → ℕ → Text → List ConfigAuditEvent → Verdict
  unfolding text_eq compute_entry_hash
  walk n index prev [] = intact n
  walk n index prev (row ∷ rows) =
      let rest = walk n (suc index) (row.entry_hash) rows in
      if not (row.ordinal == index) || not (text_eq (row.prev_entry_hash) prev)
      then broken n index (row.id)
      else check_hash n index row rest (compute_entry_hash sha256_hex prev (row.columns))

  unfoldable pub verify_chain_rows : List ConfigAuditEvent → Verdict
  unfolding walk
  verify_chain_rows rows = walk (length rows) 0 [] rows
