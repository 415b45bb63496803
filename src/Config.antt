-- ===== src/Config.antt =====
-- The audit chain of the configuration: `audit_record_payload`, `compute_entry_hash`, `_lock_chain_head` and `append_audit_event` of map-business-backend/app/services/config_mutation.py over app/db/models/audit.py.
pub mod Record
pub mod Verify
pub mod Linked
mod Evidence
pub mod Mutations
mod Recovered
pub mod Store
pub mod Applying
mod Audited
mod Examples
use Prim.Native.String.{count}
use map.Base.{
  leb, not, ◌&&◌, length, ℕ, zero, suc, ◌+◌, String, Bool, true, false, not, ◌&&◌, ◌||◌, Option,
  none, some, List, [], ◌∷◌, ◌++◌, ltb, ◌==◌, if◌then◌else◌,
}
use map.Envelope.{
  Key, str_key, scalar_key, object_key, Value, none_value, bool, int, finite, non_finite, str,
  surrogate_str, list, tuple, dict, proxy, object, Items, no_items, item, Entries, no_entries,
  entry,
}
use map.Envelope.Canonical.{Text, codes, dumps, has_surrogate}
use map.Conversation.{text_eq}
use map.Config.Record.{AuditRecord, canonical}

-- `ConfigAuditEvent`, less `created_at`, in which the canonical columns are one record.
pub record ConfigAuditEvent : Type 0 where
  pub id : String
  pub columns : AuditRecord
  pub source_ip : Option String
  pub user_agent : Option String
  pub before_version : Option String
  pub after_version : Option String
  pub prev_entry_hash : Text
  pub entry_hash : Text
  pub ordinal : ℕ

-- `ConfigAuditChainHead`
pub record ConfigAuditChainHead : Type 0 where
  pub head_ordinal : ℕ
  pub head_entry_hash : Text
  pub updated_at : ℕ

-- The events in the order of their ordinals, and the row of the head once it is seeded.
pub record Chain : Type 0 where
  pub events : List ConfigAuditEvent
  pub head : Option ConfigAuditChainHead

-- What the caller of `append_audit_event` and the database give.
pub record Append : Type 0 where
  pub columns : AuditRecord
  pub source_ip : Option String
  pub user_agent : Option String
  pub id : String
  pub now : ℕ

-- `s[:n]`
unfoldable pub first : ℕ → String → String
first zero s = String.[]
first (suc n) String.[] = String.[]
first (suc n) (String.◌∷◌ c s) = String.◌∷◌ c (first n s)

abbrev pub limited : ℕ → Option String → Option String
limited n none = none
limited n (some s) = some (first n s)

-- `h[:16] if h else None`
abbrev pub version : Option String → Option String
version none = none
version (some String.[]) = none
version (some (String.◌∷◌ c s)) = some (first 16 (String.◌∷◌ c s))

abbrev pub error_message_limit : ℕ
error_message_limit = 2000

unfoldable pub truncated : AuditRecord → AuditRecord
truncated r = record r { error_message = limited error_message_limit (r.error_message) }

abbrev pub lock_chain_head : Option ConfigAuditChainHead → ConfigAuditChainHead
lock_chain_head none = record { head_ordinal = 0; head_entry_hash = []; updated_at = 0 }
lock_chain_head (some h) = h

-- The two unique indexes of the table.
unfoldable pub conflicts : ℕ → Text → List ConfigAuditEvent → Bool
unfolding text_eq
conflicts n prev [] = false
conflicts n prev (e ∷ es) =
    (e.ordinal == n || text_eq e.prev_entry_hash prev) || conflicts n prev es

-- Whether a value fits a column `String(width)`, which PostgreSQL measures in characters; NULL fits.
abbrev pub fits_text : ℕ → String → Bool
fits_text width t = leb (count t) width

abbrev pub fits_width : ℕ → Option String → Bool
fits_width width none = true
fits_width width (some t) = fits_text width t

abbrev pub columns_fit : AuditRecord → Bool
columns_fit r =
    fits_text 64 r.resource_type
    && (fits_text 128 r.resource_id
        && (fits_text 32 r.action
            && (fits_text 128 r.actor_user_id
                && (fits_width 128 r.actor_subject
                    && (fits_width 128 r.request_id
                        && (fits_width 64 r.before_hash
                            && (fits_width 64 r.after_hash
                                && (fits_text 16 r.status && fits_width 64 r.failure_code))))))))

-- Whether the row fits the columns of `config_audit_events`.
unfoldable pub fits : ConfigAuditEvent → Bool
fits e =
    columns_fit e.columns
    && (fits_width 64 e.source_ip
        && (fits_width 32 e.before_version
            && (fits_width 32 e.after_version
                && (leb (length e.prev_entry_hash) 64 && leb (length e.entry_hash) 64))))

-- A value without NaN and the infinities, which `json.dumps` writes.
unfoldable mutual
  pub finite_value : Value → Value
  finite_value non_finite = none_value
  finite_value (list xs) = list (finite_items xs)
  finite_value (tuple xs) = tuple (finite_items xs)
  finite_value (dict es) = dict (finite_entries es)
  finite_value v = v

  pub finite_items : Items → Items
  finite_items no_items = no_items
  finite_items (item v xs) = item (finite_value v) (finite_items xs)

  pub finite_entries : Entries → Entries
  finite_entries no_entries = no_entries
  finite_entries (entry k v es) = entry k (finite_value v) (finite_entries es)

abbrev pub finite_patch : Option Items → Option Items
finite_patch none = none
finite_patch (some xs) = some (finite_items xs)

-- How the database refuses for reasons of its own, as a lost connection: the statements on the head of the chain, or the flush
-- of the event.
pub record Refusals : Type 0 where
  pub head_refused : Bool
  pub flush_refused : Bool

-- How an append ends; `other_exception` is the TypeError of `json.dumps`, the UnicodeEncodeError or the driver's error.
pub data Appended : Type 0 where
  appended : Chain → Appended
  audit_write_error : Appended
  other_exception : Appended

-- Without a text: `json.dumps` has raised, or it has written NaN or an infinity, which the JSONB column refuses at the flush.
abbrev pub not_dumped : Option Text → Appended
not_dumped none = other_exception
not_dumped (some t) = audit_write_error

module _ (sha256_hex : Text → Text) where
  abbrev pub hashed : Text → Option Text → Option Text
  hashed prev none = none
  hashed prev (some t) = some (sha256_hex (prev ++ t))

  unfoldable pub compute_entry_hash : Text → AuditRecord → Option Text
  unfolding canonical
  compute_entry_hash prev r = hashed prev (canonical r)

  abbrev pub new_event : Append → ConfigAuditChainHead → Text → ConfigAuditEvent
  new_event a h entry_hash = record {
    id = a.id;
    columns = truncated a.columns;
    source_ip = a.source_ip;
    user_agent = a.user_agent;
    before_version = version (a.columns.before_hash);
    after_version = version (a.columns.after_hash);
    prev_entry_hash = h.head_entry_hash;
    entry_hash = entry_hash;
    ordinal = h.head_ordinal;
  }

  abbrev pub flushed : Refusals → Append → ConfigAuditChainHead → Chain → Option Text → Appended
  flushed f a h c none =
      let r = truncated a.columns in
      not_dumped (canonical (record r { json_patch = finite_patch r.json_patch }))
  flushed f a h c (some entry_hash) =
      if conflicts (h.head_ordinal) (h.head_entry_hash) (c.events)
      then audit_write_error
      else if not (fits (new_event a h entry_hash))
      then audit_write_error
      else if f.flush_refused
      then audit_write_error
      else appended (record {
        events = c.events ++ new_event a h entry_hash ∷ [];
        head = some (record {
          head_ordinal = h.head_ordinal + 1;
          head_entry_hash = entry_hash;
          updated_at = a.now;
        });
      })

  -- After an exception the transaction is rolled back.
  unfoldable pub append_audit_event : Refusals → Append → Chain → Appended
  unfolding compute_entry_hash truncated
  append_audit_event f a c =
      let h = lock_chain_head (c.head) in
      if f.head_refused
      then other_exception
      else flushed f a h c (compute_entry_hash (h.head_entry_hash) (truncated a.columns))
