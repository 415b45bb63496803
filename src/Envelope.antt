-- ===== src/Envelope.antt =====
-- `_validate_json_types`, `_deep_freeze`, `_deep_thaw` of map-business-backend/app/runtime/event_envelope.py, and the Python values they read.
pub mod Canonical
pub mod Fields
pub mod Events
mod Snapshot
pub mod Merging
pub mod Accepted
pub mod RoundTrip
pub mod Mapping
pub mod Written
pub mod Valid
mod Json
pub mod Errors
pub mod Printable
pub mod Stored
mod StoredBack
pub mod Samples
mod Examples
use map.Base.{List, ℕ, String, Bool, true, false, ◌&&◌}

-- A Python `int`.
pub data ℤ : Type 0 where
  pos : ℕ → ℤ
  negsuc : ℕ → ℤ

-- The characters of a float's shortest decimal form.
pub data Mark : Type 0 where
  digit : ℕ → Mark
  point exponent plus minus : Mark

mutual
  -- A float is finite, with its decimal form, or one of NaN and the infinities.
  pub data Decimal : Type 0 where
    end : Decimal
    mark : Mark → Decimal → Decimal

  -- A dict's key: a string; another scalar, by its type's name and the text that `json.dumps`
  -- writes for it; or an object that `json.dumps` refuses.
  pub data Key : Type 0 where
    str_key : String → Key
    scalar_key : String → String → Key
    object_key : String → Key

  pub data Value : Type 0 where
    none_value : Value
    bool : Bool → Value
    int : ℤ → Value
    finite : Decimal → Value
    non_finite : Value
    str : String → Value
    -- A `str` with a lone surrogate, by its code points: no text of UTF-8 has one.
    surrogate_str : List ℕ → Value
    list : Items → Value
    tuple : Items → Value
    dict : Entries → Value
    -- `MappingProxyType`
    proxy : Entries → Value
    -- Any other object: bytes, a set, a datetime, by its type's name.
    object : String → Value

  pub data Items : Type 0 where
    no_items : Items
    item : Value → Items → Items

  pub data Entries : Type 0 where
    no_entries : Entries
    entry : Key → Value → Entries → Entries

abbrev pub is_str_key : Key → Bool
is_str_key (str_key s) = true
is_str_key _ = false

-- `_validate_json_types`: whether it returns; else it raises PAYLOAD_NOT_SERIALIZABLE.
unfoldable mutual
  pub validate_json_types : Value → Bool
  validate_json_types (dict es) = validate_entries es
  validate_json_types (list xs) = validate_items xs
  validate_json_types (tuple xs) = validate_items xs
  validate_json_types none_value = true
  validate_json_types (bool b) = true
  validate_json_types (int n) = true
  validate_json_types (finite r) = true
  validate_json_types non_finite = false
  validate_json_types (str s) = true
  validate_json_types (surrogate_str t) = true
  validate_json_types (proxy es) = false
  validate_json_types (object t) = false

  pub validate_items : Items → Bool
  validate_items no_items = true
  validate_items (item v xs) = validate_json_types v && validate_items xs

  pub validate_entries : Entries → Bool
  validate_entries no_entries = true
  validate_entries (entry k v es) = is_str_key k && (validate_json_types v && validate_entries es)

-- `_deep_freeze`; a proxy is no dict, and stays as it is.
unfoldable mutual
  pub deep_freeze : Value → Value
  deep_freeze (dict es) = proxy (freeze_entries es)
  deep_freeze (list xs) = tuple (freeze_items xs)
  deep_freeze (tuple xs) = tuple (freeze_items xs)
  deep_freeze v = v

  pub freeze_items : Items → Items
  freeze_items no_items = no_items
  freeze_items (item v xs) = item (deep_freeze v) (freeze_items xs)

  pub freeze_entries : Entries → Entries
  freeze_entries no_entries = no_entries
  freeze_entries (entry k v es) = entry k (deep_freeze v) (freeze_entries es)

-- `_deep_thaw`
unfoldable mutual
  pub deep_thaw : Value → Value
  deep_thaw (dict es) = dict (thaw_entries es)
  deep_thaw (proxy es) = dict (thaw_entries es)
  deep_thaw (tuple xs) = list (thaw_items xs)
  deep_thaw (list xs) = list (thaw_items xs)
  deep_thaw v = v

  pub thaw_items : Items → Items
  thaw_items no_items = no_items
  thaw_items (item v xs) = item (deep_thaw v) (thaw_items xs)

  pub thaw_entries : Entries → Entries
  thaw_entries no_entries = no_entries
  thaw_entries (entry k v es) = entry k (deep_thaw v) (thaw_entries es)
