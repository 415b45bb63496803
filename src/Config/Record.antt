-- ===== src/Config/Record.antt =====
-- The canonical text of an audit event: `audit_record_payload` and `compute_entry_hash` of map-business-backend/app/services/config_mutation.py.
use map.Base.{
  ◌&&◌, String, Bool, true, false, ◌&&◌, ◌||◌, Option, none, some, List, [], ◌∷◌, ltb, ◌==◌,
  if◌then◌else◌,
}
use map.Envelope.{
  Key, str_key, scalar_key, object_key, Value, none_value, bool, int, finite, non_finite, str,
  surrogate_str, list, tuple, dict, proxy, object, Items, no_items, item, Entries, no_entries,
  entry,
}
use map.Envelope.Canonical.{Text, codes, dumps, has_surrogate}

-- The order of the texts by their code points.
unfoldable pub text_ltb : Text → Text → Bool
text_ltb [] [] = false
text_ltb [] (d ∷ ds) = true
text_ltb (c ∷ cs) [] = false
text_ltb (c ∷ cs) (d ∷ ds) = ltb c d || (c == d && text_ltb cs ds)

-- The text of a key, by which `sort_keys` sorts; the keys of a state are strings.
abbrev pub key_text : Key → Text
key_text (str_key s) = codes s
key_text (scalar_key t s) = codes s
key_text (object_key t) = []

unfoldable pub insert_key : Key → Value → Entries → Entries
unfolding text_ltb
insert_key k v no_entries = entry k v no_entries
insert_key k v (entry l w es) =
    let rest = insert_key k v es in
    if text_ltb (key_text l) (key_text k) then entry l w rest else entry k v (entry l w es)

-- `sort_keys=True`, at every depth.
unfoldable mutual
  unfolding insert_key

  pub sort_keys : Value → Value
  sort_keys none_value = none_value
  sort_keys (bool b) = bool b
  sort_keys (int n) = int n
  sort_keys (finite r) = finite r
  sort_keys non_finite = non_finite
  sort_keys (str s) = str s
  sort_keys (surrogate_str t) = surrogate_str t
  sort_keys (list xs) = list (sort_items xs)
  sort_keys (tuple xs) = tuple (sort_items xs)
  sort_keys (dict es) = dict (sort_entries es)
  sort_keys (proxy es) = proxy es
  sort_keys (object t) = object t

  pub sort_items : Items → Items
  sort_items no_items = no_items
  sort_items (item v xs) = item (sort_keys v) (sort_items xs)

  pub sort_entries : Entries → Entries
  sort_entries no_entries = no_entries
  sort_entries (entry k v es) = insert_key k (sort_keys v) (sort_entries es)

-- The columns of an event that its hash covers.
pub record AuditRecord : Type 0 where
  pub workspace_id : Option String
  pub resource_type : String
  pub resource_id : String
  pub action : String
  pub actor_user_id : String
  pub actor_subject : Option String
  pub actor_roles : List String
  pub request_id : Option String
  pub status : String
  pub failure_code : Option String
  pub before_hash : Option String
  pub after_hash : Option String
  pub json_patch : Option Items
  pub recovered : Bool
  pub error_message : Option String

abbrev pub optional : Option String → Value
optional none = none_value
optional (some s) = str s

unfoldable pub strings : List String → Items
strings [] = no_items
strings (s ∷ ss) = item (str s) (strings ss)

abbrev pub patch_value : Option Items → Value
patch_value none = none_value
patch_value (some xs) = list xs

unfoldable pub audit_record_payload : AuditRecord → Entries
unfolding strings
audit_record_payload r = entry (str_key "workspace_id") (optional r.workspace_id) (
    entry (str_key "resource_type") (str r.resource_type) (
      entry (str_key "resource_id") (str r.resource_id) (
        entry (str_key "action") (str r.action) (
          entry (str_key "actor_user_id") (str r.actor_user_id) (
            entry (str_key "actor_subject") (optional r.actor_subject) (
              entry (str_key "actor_roles") (list (strings r.actor_roles)) (
                entry (str_key "request_id") (optional r.request_id) (
                  entry (str_key "status") (str r.status) (
                    entry (str_key "failure_code") (optional r.failure_code) (
                      entry (str_key "before_hash") (optional r.before_hash) (
                        entry (str_key "after_hash") (optional r.after_hash) (
                          entry (str_key "json_patch") (patch_value r.json_patch) (
                            entry (str_key "recovered") (bool r.recovered) (
                              entry (str_key "error_message") (optional r.error_message)
                                no_entries))))))))))))))

-- What `.encode("utf-8")` takes.
abbrev pub encodable : Option Text → Option Text
encodable none = none
encodable (some t) = if has_surrogate t then none else some t

-- `json.dumps(record, sort_keys=True, ensure_ascii=False, separators=(",", ":"))`. `none` is its
-- TypeError, the UnicodeEncodeError of a lone surrogate in it, or NaN and the infinities, which the JSONB column of the patch
-- refuses.
unfoldable pub canonical : AuditRecord → Option Text
unfolding dumps sort_keys audit_record_payload has_surrogate
canonical r = encodable (dumps (sort_keys (dict (audit_record_payload r))))
