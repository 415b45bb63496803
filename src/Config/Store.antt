-- ===== src/Config/Store.antt =====
-- `prepare_update` and `apply_prepared` of map-business-backend/app/store.py, over a state that is known by its hash.
use map.Base.{ℕ, String, Bool, Option, str_eq, if◌then◌else◌}
use map.Envelope.{Items}
use map.Config.Mutations.{Loaded, state, bad_state_file}

-- A state of the administration as the service uses it: `AdminState`, `state_hash`, setting
-- `updated_at`, and the JSON patch of two redacted states.
pub record States : Type 1 where
  pub State : Type 0
  pub state_hash : State → String
  pub updated : ℕ → State → State
  pub json_patch_diff : State → State → Items

-- How `apply_prepared` ends.
pub data Written : Type 0 where
  written : Written
  changed_between : Written
  write_failed : Written
  unreadable : Written

module _ (s : States) where
  -- The state file: a state, or what BadStateFileError says of it.
  pub data File : Type 0 where
    holds : s.State → File
    corrupt : String → File

  -- The updater of a caller changes the state, or raises an HTTPException, which may carry a
  -- code in its headers, or another exception.
  pub data Update : Type 0 where
    changes : s.State → Update
    http_exception : ℕ → Option String → Update
    exception : Update

  pub data Prepared : Type 0 where
    prepared : s.State → Prepared
    rejected : ℕ → Option String → Prepared
    changed_since : Prepared
    fails : Prepared

  abbrev pub after_updater : ℕ → Update → Prepared
  after_updater now (changes t) = prepared (s.updated now t)
  after_updater now (http_exception n code) = rejected n code
  after_updater now exception = fails

  unfoldable pub prepare_update : ℕ → String → (s.State → Update) → File → Prepared
  prepare_update now expected updater (corrupt e) = fails
  prepare_update now expected updater (holds t) =
      if str_eq (s.state_hash t) expected then after_updater now (updater t) else changed_since

  -- Whether `_write_atomic` succeeds is the file system's.
  unfoldable pub apply_prepared : String → Bool → File → Written
  apply_prepared expected writes (corrupt e) = unreadable
  apply_prepared expected writes (holds t) =
      if str_eq (s.state_hash t) expected
      then (if writes then written else write_failed)
      else changed_between

  abbrev pub loaded : File → Loaded
  loaded (holds t) = state (s.state_hash t)
  loaded (corrupt e) = bad_state_file e
