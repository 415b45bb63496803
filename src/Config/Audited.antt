-- ===== src/Config/Audited.antt =====
-- That no write of the state is lost to the audit: `apply_mutation` and the reconciler of map-business-backend/app/services/config_mutation.py together.
use map.Base.{String, Bool, true, false, none, some, List, [], ◌∷◌, ◌++◌, ◌≡◌, ◌⊎◌}
use mathlib.Core.List.{Memᴰ}
use map.Envelope.Canonical.{Text}
use map.Config.{ConfigAuditEvent}
use map.Config.Linked.{IsChain}
use map.Config.Mutations.{ConfigMutation, Database, current_hash, classify, is_pending}
use map.Config.Store.{States, File, holds, loaded}
use map.Config.Applying.{Reply, returned, http, audit_failed, escapes, Result}

abbrev pub nonempty : String → Bool
nonempty String.[] = false
nonempty (String.◌∷◌ c t) = true

module _ (sha256_hex : Text → Text) (s : States) where
  -- The last event of the chain records that the state was changed to this one.
  abbrev Records : s.State → Database → Database → Type 0
  Records t db d =
      (e : ConfigAuditEvent) × ((d.chain).events ≡ (db.chain).events ++ e ∷ [])
      × ((e.columns).status ≡ "applied")
      × ((e.columns).after_hash ≡ some (s.state_hash t))

  -- For a pending row, the reconciler that reads this state finds that it was applied; or the
  -- row does not tell its two hashes apart.
  abbrev Pending : s.State → Database → Type 0
  Pending t d =
      (m : ConfigMutation) × Memᴰ m (d.mutations)
      × (is_pending m ≡ true)
      × ((classify (current_hash (loaded s (holds t))) m ≡ ("applied", none))
          ⊎ (m.expected_hash ≡ s.state_hash t))

  -- What is known of the file at the end, by the answer.
  abbrev Left : Reply sha256_hex s → File s → Database → Result sha256_hex s → Type 0
  Left (returned t) file db r = (r.file ≡ holds t) × Records t db (r.database)
  Left audit_failed file db r = (t : s.State) × (r.file ≡ holds t) × Pending t (r.database)
  Left (http n code) file db r = r.file ≡ file
  Left escapes file db r =
      (r.file ≡ file) ⊎ ((t : s.State) × (r.file ≡ holds t) × Pending t (r.database))

  abbrev pub Audited : File s → Database → Result sha256_hex s → Type 0
  Audited file db r = IsChain sha256_hex ((r.database).chain) × Left (r.reply) file db r
