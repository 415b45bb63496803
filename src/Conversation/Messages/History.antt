-- ===== src/Conversation/Messages/History.antt =====
-- Sequences of statements on `messages` (map-business-backend/app/repositories/conversations.py, app/services/message_reconciler.py) by any callers.
use map.Base.{
  ℕ, ◌-◌, Bool, true, false, ◌||◌, some, List, [], ◌∷◌, ◌++◌, ◌==◌, ◌≡◌, refl, ap, ◌∙◌, subst,
  Bool-cases, inl, inr, arith,
}
use map.Envelope.Canonical.{Text}
use map.Conversation.Messages.{
  Message, Table, is_streaming, is_stale, update_where, streaming_row, checkpoint_content, Final,
  finalized_row, finalize_message, Pair, user_message, assistant_message, refuses, request_taken,
  create_message_pair, stale_ids, is_among, interrupted_row, reconcile_rows, reconcile, find_row,
  id_taken,
}
use map.Conversation.Messages.Rows.{
  KeepsId, changed, find_row-update_where, find_row-append, Unique, update_where-Unique,
  append-Unique, id_taken-append, ||-false,
}
use map.Conversation.Messages.Stale.{stale_ids-stale}
use mathlib.Core.List.{append_assoc}

-- A statement that some caller commits.
pub data Statement : Type 0 where
  checkpointing : ℕ → Text → Statement
  finalizing : ℕ → Final → Statement
  creating : Pair → Statement
  reconciling : Bool → ℕ → ℕ → Statement

unfoldable pub execute : Statement → ℕ → Table → Table
unfolding checkpoint_content finalize_message create_message_pair reconcile
execute (checkpointing id content) now ms = checkpoint_content now id content ms
execute (finalizing id f) now ms = (finalize_message now id f ms).1
execute (creating a) now ms = (create_message_pair now a ms).1
execute (reconciling lease_ok stale_after limit) now ms =
    reconcile lease_ok now stale_after limit ms

unfoldable pub execute_all : List (Statement × ℕ) → Table → Table
unfolding execute
execute_all [] ms = ms
execute_all ((st, now) ∷ sts) ms = execute_all sts (execute st now ms)

-- A terminal row that an UPDATE leaves alone.
untouched :
    (p : Message → Bool) (f : Message → Message) (ms : Table) (m : Message)
    → KeepsId f
    → find_row (m.id) ms ≡ some m
    → p m ≡ false
    → find_row (m.id) (update_where p f ms) ≡ some m
untouched p f ms m k h e = find_row-update_where m.id p f k ms ∙ (ap (changed p f) h ∙ rw e refl)

changed-some :
    (p : Message → Bool) (f : Message → Message) (m : Message)
    → p m ≡ true
    → changed p f (some m) ≡ some (f m)
changed-some p f m h = rw h refl

not_streaming : (id : ℕ) (m : Message) → is_streaming m ≡ false → streaming_row id m ≡ false
not_streaming id m h = elim (Bool-cases (m.id == id)) [ inl e ↦ rw (e, h) refl | inr e ↦ rw e refl ]

not_stale : (threshold : ℕ) (m : Message) → is_streaming m ≡ false → is_stale threshold m ≡ false
not_stale threshold m h = rw h refl

not_among :
    (threshold limit : ℕ) (ms : Table) (m : Message)
    → Unique ms
    → find_row (m.id) ms ≡ some m
    → is_streaming m ≡ false
    → is_among (stale_ids threshold limit ms) m ≡ false
not_among threshold limit ms m u f h =
    elim (Bool-cases (id_taken m.id (stale_ids threshold limit ms))) [
      | inl e ↦
          let stale = stale_ids-stale threshold limit ms m u f e in
          let fresh = not_stale threshold m h in cc
      | inr e ↦ e
    ]

created-find :
    (now : ℕ) (a : Pair) (ms : Table) (m : Message)
    → find_row (m.id) ms ≡ some m
    → find_row (m.id) ((create_message_pair now a ms).1) ≡ some m
unfolding create_message_pair
created-find now a ms m h = elim (Bool-cases (refuses a ms)) [
  | inl e ↦ rw e h
  | inr e ↦ rw e (find_row-append m.id m ms (user_message now a ∷ assistant_message now a ∷ []) h)
]

execute-terminal :
    (st : Statement) (now : ℕ) (ms : Table) (m : Message)
    → Unique ms
    → find_row (m.id) ms ≡ some m
    → is_streaming m ≡ false
    → find_row (m.id) (execute st now ms) ≡ some m
unfolding execute
execute-terminal (checkpointing id content) now ms m u f h =
    untouched (streaming_row id) _ ms m (λ m. refl) f (not_streaming id m h)
execute-terminal (finalizing id g) now ms m u f h =
    untouched (streaming_row id) (finalized_row now g) ms m (λ m. refl) f (not_streaming id m h)
execute-terminal (creating a) now ms m u f h = created-find now a ms m f
execute-terminal (reconciling false stale_after limit) now ms m u f h = f
execute-terminal (reconciling true stale_after limit) now ms m u f h =
    untouched (is_among (stale_ids (now - stale_after) limit ms)) (interrupted_row now) ms m
      (λ m. refl) f (not_among (now - stale_after) limit ms m u f h)

created-Unique :
    (now : ℕ) (a : Pair) (ms : Table) → Unique ms → Unique ((create_message_pair now a ms).1)
unfolding create_message_pair
created-Unique now a ms u = elim (Bool-cases (refuses a ms)) [
  | inl e ↦ rw e u
  | inr e ↦ rw e (
      let (req, ids) =
        ||-false (request_taken a.request_id ms)
          (id_taken a.user_id ms || (id_taken a.assistant_id ms || (a.user_id == a.assistant_id)))
          e in
      let (user, rest) =
        ||-false (id_taken a.user_id ms)
          (id_taken a.assistant_id ms || (a.user_id == a.assistant_id)) ids in
      let (reply, differ) =
        ||-false (id_taken a.assistant_id ms) (a.user_id == a.assistant_id) rest in
      let one = append-Unique ms (user_message now a) u user in
      let free = id_taken-append a.assistant_id ms (user_message now a) reply differ in
      subst Unique (append_assoc ms (user_message now a ∷ []) (assistant_message now a ∷ []))
        (append-Unique (ms ++ user_message now a ∷ []) (assistant_message now a) one free))
]

execute-Unique : (st : Statement) (now : ℕ) (ms : Table) → Unique ms → Unique (execute st now ms)
unfolding execute
execute-Unique (checkpointing id content) now ms u =
    update_where-Unique (streaming_row id) _ (λ m. refl) ms u
execute-Unique (finalizing id g) now ms u =
    update_where-Unique (streaming_row id) (finalized_row now g) (λ m. refl) ms u
execute-Unique (creating a) now ms u = created-Unique now a ms u
execute-Unique (reconciling false stale_after limit) now ms u = u
execute-Unique (reconciling true stale_after limit) now ms u =
    update_where-Unique (is_among (stale_ids (now - stale_after) limit ms)) (interrupted_row now)
      (λ m. refl) ms u

-- Whatever checkpoints, finalizations, new turns and reconciliations follow, a message that is no
-- longer streaming stays the same row in every field, where ids are unique and nothing comes
-- between a reconciler's subquery and its UPDATE.
pub execute_all-terminal :
    (sts : List (Statement × ℕ)) (ms : Table) (m : Message)
    → Unique ms
    → find_row (m.id) ms ≡ some m
    → is_streaming m ≡ false
    → find_row (m.id) (execute_all sts ms) ≡ some m
unfolding execute_all
execute_all-terminal [] ms m u f h = f
execute_all-terminal ((st, now) ∷ sts) ms m u f h =
    execute_all-terminal sts (execute st now ms) m (execute-Unique st now ms u)
      (execute-terminal st now ms m u f h) h

-- Where another caller finalizes a message between a reconciler's subquery and its UPDATE, the
-- outcome that was just written is overwritten: the row is failed and interrupted in the end,
-- whatever its status had become.
pub reconcile_rows-overwrites :
    (stale_after limit now earlier : ℕ) (f : Final) (ms : Table) (m : Message)
    → find_row (m.id) ms ≡ some m
    → is_streaming m ≡ true
    → is_among (stale_ids (now - stale_after) limit ms) m ≡ true
    → find_row (m.id) (
        reconcile_rows now
          (stale_ids (now - stale_after) limit ms)
          ((finalize_message earlier (m.id) f ms).1))
      ≡ some (interrupted_row now (finalized_row earlier f m))
unfolding finalize_message reconcile_rows
reconcile_rows-overwrites stale_after limit now earlier f ms m h s among =
    let chosen = stale_ids (now - stale_after) limit ms in
    find_row-update_where m.id (is_among chosen) (interrupted_row now) (λ m. refl)
      (update_where (streaming_row (m.id)) (finalized_row earlier f) ms)
    ∙ (ap (changed (is_among chosen) (interrupted_row now)) (
          find_row-update_where m.id (streaming_row (m.id)) (finalized_row earlier f) (λ m. refl) ms
          ∙ (ap (changed (streaming_row (m.id)) (finalized_row earlier f)) h
              ∙ changed-some (streaming_row (m.id)) (finalized_row earlier f) m
                  (rw (own_id m, s) refl)))
        ∙ changed-some (is_among chosen) (interrupted_row now) (finalized_row earlier f m) among)
  where
    own_id : (m : Message) → (m.id == m.id) ≡ true
    own_id m = ground arith
