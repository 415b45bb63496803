-- ===== src/Config/Recovered.antt =====
-- What `reconcile_config_mutations` (map-business-backend/app/services/config_mutation.py) leaves behind.
use map.Base.{
  true, ℕ, String, false, Option, none, some, List, [], ◌∷◌, ◌++◌, str_eq, ◌==◌, length, ◌≡◌, ◌⊎◌,
  if◌then◌else◌,
}
use map.Envelope.Canonical.{Text}
use map.Config.{Append, audit_write_error, other_exception, ConfigAuditEvent, Chain, truncated}
use map.Config.Record.{AuditRecord}
use map.Config.Linked.{IsChain, Outcome}
use map.Config.Mutations.{Surroundings, ConfigMutation, Database, recovered_event, pending_of}

-- The mutations of another id.
abbrev others : ℕ → List ConfigMutation → List ConfigMutation
others id [] = []
others id (m ∷ ms) = let rest = others id ms in if m.id == id then rest else m ∷ rest

abbrev without : List ConfigMutation → List ConfigMutation → List ConfigMutation
without [] ps = ps
without (m ∷ ms) ps = without ms (others (m.id) ps)

-- Not a status of a pending row.
abbrev Closes : String → Type 0
Closes s = str_eq s "pending" ≡ false

module _ (sha256_hex : Text → Text) (w : Surroundings) where
  -- The columns of the event of a mutation.
  abbrev recovered_columns : ConfigMutation → AuditRecord
  recovered_columns m = truncated (recovered_event w.now w.draw w.load m).columns

  -- One event for each mutation, in the order of the mutations.
  abbrev pub EventsOf : List ConfigMutation → List ConfigAuditEvent → Type 0
  EventsOf [] [] = Unit
  EventsOf [] (e ∷ es) = ⊥
  EventsOf (m ∷ ms) [] = ⊥
  EventsOf (m ∷ ms) (e ∷ es) = (e.columns ≡ recovered_columns m) × EventsOf ms es

  abbrev event_of : ConfigMutation → Append
  event_of m = recovered_event w.now w.draw w.load m

  -- The append of some mutation's event to a whole chain has raised, with what made it raise.
  abbrev pub Refused : Type 0
  Refused =
      (m : ConfigMutation) × (c : Chain) × IsChain sha256_hex c
      × (Outcome sha256_hex (w.refusals m) (event_of m) c audit_write_error
          ⊎ Outcome sha256_hex (w.refusals m) (event_of m) c other_exception)

  abbrev AfterRow : ConfigMutation → Database → Option Database → Type 0
  AfterRow m db none = Refused
  AfterRow m db (some d) =
      IsChain sha256_hex (d.chain)
      × (pending_of (d.mutations) ≡ others (m.id) (pending_of (db.mutations)))
      × ((e : ConfigAuditEvent) × ((d.chain).events ≡ (db.chain).events ++ e ∷ [])
          × (e.columns ≡ recovered_columns m))

  abbrev AfterRows : List ConfigMutation → Database → Option Database → Type 0
  AfterRows ms db none = Refused
  AfterRows ms db (some d) =
      IsChain sha256_hex (d.chain)
      × (pending_of (d.mutations) ≡ without ms (pending_of (db.mutations)))
      × ((es : List ConfigAuditEvent) × ((d.chain).events ≡ (db.chain).events ++ es)
          × EventsOf ms es)

  -- What the reconciler answers, with the tables.
  abbrev pub Reconciled : Database → Option (ℕ × Database) → Type 0
  Reconciled db none = Refused ⊎ (w.commit_refused ≡ true)
  Reconciled db (some (n, d)) =
      (n ≡ length (pending_of (db.mutations)))
      × IsChain sha256_hex (d.chain)
      × (pending_of (d.mutations) ≡ [])
      × ((es : List ConfigAuditEvent) × ((d.chain).events ≡ (db.chain).events ++ es)
          × EventsOf (pending_of (db.mutations)) es)
