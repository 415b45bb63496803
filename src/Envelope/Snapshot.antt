-- ===== src/Envelope/Snapshot.antt =====
-- `_deep_freeze` and `_deep_thaw` of map-business-backend/app/runtime/event_envelope.py: what a snapshot keeps.
use map.Base.{◌≡◌, refl, true, ◌&&◌, &&-eq-true, ap}
use map.Envelope.{
  Value, Items, Entries, non_finite, list, tuple, dict, proxy, object, no_items, item, no_entries,
  entry, is_str_key, validate_json_types, validate_items, validate_entries, deep_freeze,
  freeze_items, freeze_entries, deep_thaw, thaw_items, thaw_entries,
}

mutual
  unfolding deep_thaw

  pub deep_thaw-deep_thaw : (v : Value) → deep_thaw (deep_thaw v) ≡ deep_thaw v
  deep_thaw-deep_thaw (dict es) = ap dict (thaw_entries-thaw_entries es)
  deep_thaw-deep_thaw (proxy es) = ap dict (thaw_entries-thaw_entries es)
  deep_thaw-deep_thaw (tuple xs) = ap list (thaw_items-thaw_items xs)
  deep_thaw-deep_thaw (list xs) = ap list (thaw_items-thaw_items xs)
  deep_thaw-deep_thaw _ = refl

  thaw_items-thaw_items : (xs : Items) → thaw_items (thaw_items xs) ≡ thaw_items xs
  thaw_items-thaw_items no_items = refl
  thaw_items-thaw_items (item v xs) = rw (deep_thaw-deep_thaw v, thaw_items-thaw_items xs) refl

  pub thaw_entries-thaw_entries : (es : Entries) → thaw_entries (thaw_entries es) ≡ thaw_entries es
  thaw_entries-thaw_entries no_entries = refl
  thaw_entries-thaw_entries (entry k v es) =
      rw (deep_thaw-deep_thaw v, thaw_entries-thaw_entries es) refl

mutual
  unfolding deep_thaw deep_freeze validate_json_types

  -- For a value that `_validate_json_types` passes, thawing its snapshot gives what thawing the value gives.
  pub deep_thaw-deep_freeze :
      (v : Value) → validate_json_types v ≡ true → deep_thaw (deep_freeze v) ≡ deep_thaw v
  deep_thaw-deep_freeze (dict es) h = ap dict (thaw_entries-freeze_entries es h)
  deep_thaw-deep_freeze (tuple xs) h = ap list (thaw_items-freeze_items xs h)
  deep_thaw-deep_freeze (list xs) h = ap list (thaw_items-freeze_items xs h)
  deep_thaw-deep_freeze _ h = refl

  thaw_items-freeze_items :
      (xs : Items) → validate_items xs ≡ true → thaw_items (freeze_items xs) ≡ thaw_items xs
  thaw_items-freeze_items no_items h = refl
  thaw_items-freeze_items (item v xs) h =
      let (hv, hxs) = &&-eq-true (validate_json_types v) (validate_items xs) h in
      rw (deep_thaw-deep_freeze v hv, thaw_items-freeze_items xs hxs) refl

  pub thaw_entries-freeze_entries :
      (es : Entries)
      → validate_entries es ≡ true
      → thaw_entries (freeze_entries es) ≡ thaw_entries es
  thaw_entries-freeze_entries no_entries h = refl
  thaw_entries-freeze_entries (entry k v es) h =
      let (hk, hr) = &&-eq-true (is_str_key k) (validate_json_types v && validate_entries es) h in
      let (hv, hes) = &&-eq-true (validate_json_types v) (validate_entries es) hr in
      rw (deep_thaw-deep_freeze v hv, thaw_entries-freeze_entries es hes) refl

mutual
  unfolding deep_thaw deep_freeze validate_json_types

  -- The snapshot of a thawed snapshot is the snapshot.
  pub deep_freeze-deep_thaw :
      (v : Value) → validate_json_types v ≡ true → deep_freeze (deep_thaw v) ≡ deep_freeze v
  deep_freeze-deep_thaw (dict es) h = ap proxy (freeze_entries-thaw_entries es h)
  deep_freeze-deep_thaw (tuple xs) h = ap tuple (freeze_items-thaw_items xs h)
  deep_freeze-deep_thaw (list xs) h = ap tuple (freeze_items-thaw_items xs h)
  deep_freeze-deep_thaw (proxy es) h = cc
  deep_freeze-deep_thaw _ h = refl

  freeze_items-thaw_items :
      (xs : Items) → validate_items xs ≡ true → freeze_items (thaw_items xs) ≡ freeze_items xs
  freeze_items-thaw_items no_items h = refl
  freeze_items-thaw_items (item v xs) h =
      let (hv, hxs) = &&-eq-true (validate_json_types v) (validate_items xs) h in
      rw (deep_freeze-deep_thaw v hv, freeze_items-thaw_items xs hxs) refl

  pub freeze_entries-thaw_entries :
      (es : Entries)
      → validate_entries es ≡ true
      → freeze_entries (thaw_entries es) ≡ freeze_entries es
  freeze_entries-thaw_entries no_entries h = refl
  freeze_entries-thaw_entries (entry k v es) h =
      let (hk, hr) = &&-eq-true (is_str_key k) (validate_json_types v && validate_entries es) h in
      let (hv, hes) = &&-eq-true (validate_json_types v) (validate_entries es) hr in
      rw (deep_freeze-deep_thaw v hv, freeze_entries-thaw_entries es hes) refl

mutual
  unfolding deep_thaw validate_json_types

  pub validate_json_types-deep_thaw :
      (v : Value) → validate_json_types v ≡ true → validate_json_types (deep_thaw v) ≡ true
  validate_json_types-deep_thaw (dict es) h = validate_entries-thaw_entries es h
  validate_json_types-deep_thaw (tuple xs) h = validate_items-thaw_items xs h
  validate_json_types-deep_thaw (list xs) h = validate_items-thaw_items xs h
  validate_json_types-deep_thaw (proxy es) h = cc
  validate_json_types-deep_thaw non_finite h = h
  validate_json_types-deep_thaw (object t) h = h
  validate_json_types-deep_thaw _ h = refl

  validate_items-thaw_items :
      (xs : Items) → validate_items xs ≡ true → validate_items (thaw_items xs) ≡ true
  validate_items-thaw_items no_items h = refl
  validate_items-thaw_items (item v xs) h =
      let (hv, hxs) = &&-eq-true (validate_json_types v) (validate_items xs) h in
      rw (validate_json_types-deep_thaw v hv, validate_items-thaw_items xs hxs) refl

  pub validate_entries-thaw_entries :
      (es : Entries) → validate_entries es ≡ true → validate_entries (thaw_entries es) ≡ true
  validate_entries-thaw_entries no_entries h = refl
  validate_entries-thaw_entries (entry k v es) h =
      let (hk, hr) = &&-eq-true (is_str_key k) (validate_json_types v && validate_entries es) h in
      let (hv, hes) = &&-eq-true (validate_json_types v) (validate_entries es) hr in
      rw (hk, validate_json_types-deep_thaw v hv, validate_entries-thaw_entries es hes) refl
