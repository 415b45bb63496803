-- ===== src/Conversation/Messages/Replies.antt =====
-- The unique index on request ids (map-business-backend/app/db/models/conversation.py): one reply to each request.
use map.Base.{
  ℕ, ◌-◌, String, Bool, true, false, ◌&&◌, ◌||◌, List, [], ◌∷◌, ◌++◌, ◌==◌, str_eq, eq_iff, ◌≡◌,
  refl, sym, ◌∙◌, subst, Bool-cases, inl, inr, &&-eq-true, if◌then◌else◌,
}
use map.Conversation.Messages.{
  Message, Table, update_where, streaming_row, finalized_row, Pair, user_message, assistant_message,
  refuses, request_taken, same_request, create_message_pair, stale_ids, is_among, interrupted_row,
  id_taken,
}
use map.Conversation.Messages.Rows.{||-false}
use map.Conversation.Messages.History.{
  Statement, checkpointing, finalizing, creating, reconciling, execute, execute_all,
}
use mathlib.Core.List.{append_assoc}

-- Whether a row is a reply to a request.
abbrev pub answers : String → Message → Bool
answers r m = str_eq m.role "assistant" && same_request r m.request_id

-- No two rows are replies to one request.
abbrev pub OneReply : Table → Type 0
OneReply [] = Unit
OneReply (m ∷ ms) = ((r : String) → answers r m ≡ true → request_taken r ms ≡ false) × OneReply ms

-- A change that keeps the role and the request.
abbrev KeepsRequest : (Message → Message) → Type 0
KeepsRequest f = (r : String) (m : Message) → answers r (f m) ≡ answers r m

kept-answers :
    (r : String) (p : Message → Bool) (f : Message → Message) (m : Message)
    → KeepsRequest f
    → answers r (if p m then f m else m) ≡ answers r m
kept-answers r p f m h = elim (Bool-cases (p m)) [ inl e ↦ rw e (h r m) | inr e ↦ rw e refl ]

request_taken-update_where :
    (r : String) (p : Message → Bool) (f : Message → Message) (ms : Table)
    → KeepsRequest f
    → request_taken r (update_where p f ms) ≡ request_taken r ms
unfolding update_where request_taken
request_taken-update_where r p f [] h = refl
request_taken-update_where r p f (m ∷ ms) h =
    rw (kept-answers r p f m h, request_taken-update_where r p f ms h) refl

update_where-OneReply :
    (p : Message → Bool) (f : Message → Message) (ms : Table)
    → KeepsRequest f
    → OneReply ms
    → OneReply (update_where p f ms)
unfolding update_where
update_where-OneReply p f [] h o = tt
update_where-OneReply p f (m ∷ ms) h o = (
  λ r a. request_taken-update_where r p f ms h ∙ o.0 r (sym (kept-answers r p f m h) ∙ a),
  update_where-OneReply p f ms h o.1,
)

request_taken-append :
    (r : String) (ms : Table) (n : Message)
    → request_taken r ms ≡ false
    → answers r n ≡ false
    → request_taken r (ms ++ n ∷ []) ≡ false
unfolding request_taken
request_taken-append r [] n h k = rw k refl
request_taken-append r (m ∷ ms) n h k =
    let (a, b) = ||-false (answers r m) (request_taken r ms) h in
    rw a (request_taken-append r ms n b k)

append-OneReply :
    (ms : Table) (n : Message)
    → OneReply ms
    → ((r : String) → answers r n ≡ true → request_taken r ms ≡ false)
    → OneReply (ms ++ n ∷ [])
unfolding request_taken
append-OneReply [] n o h = (λ r a. refl, tt)
append-OneReply (m ∷ ms) n o h = (
  λ r a. request_taken-append r ms n (o.0 r a) (elim (Bool-cases (answers r n)) [
    | inl e ↦ let both = (||-false (answers r m) (request_taken r ms) (h r e)).0 in cc
    | inr e ↦ e
  ]),
  append-OneReply ms n o.1 (λ r a. (||-false (answers r m) (request_taken r ms) (h r a)).1),
)

-- The reply of a new turn answers its own request only.
reply_answers :
    (now : ℕ) (a : Pair) (r : String)
    → answers r (assistant_message now a) ≡ true
    → a.request_id ≡ r
reply_answers now a r h =
    (eq_iff a.request_id r).0
      (&&-eq-true (str_eq "assistant" "assistant") (str_eq a.request_id r) h).1

created-OneReply :
    (now : ℕ) (a : Pair) (ms : Table) → OneReply ms → OneReply ((create_message_pair now a ms).1)
unfolding create_message_pair
created-OneReply now a ms o = elim (Bool-cases (refuses a ms)) [
  | inl e ↦ rw e o
  | inr e ↦ rw e (
      let free =
        (||-false (request_taken a.request_id ms)
          (id_taken a.user_id ms || (id_taken a.assistant_id ms || (a.user_id == a.assistant_id)))
          e).0 in
      let user = user_message now a in
      let one = append-OneReply ms user o (λ r h. cc) in
      subst OneReply (append_assoc ms (user ∷ []) (assistant_message now a ∷ [])) (
        append-OneReply (ms ++ user ∷ []) (assistant_message now a) one (λ r h.
          request_taken-append r ms user
            (subst (λ z. request_taken z ms ≡ false) (reply_answers now a r h) free) refl)))
]

execute-OneReply :
    (st : Statement) (now : ℕ) (ms : Table) → OneReply ms → OneReply (execute st now ms)
unfolding execute
execute-OneReply (checkpointing id content) now ms o =
    update_where-OneReply (streaming_row id) _ ms (λ r m. refl) o
execute-OneReply (finalizing id g) now ms o =
    update_where-OneReply (streaming_row id) (finalized_row now g) ms (λ r m. refl) o
execute-OneReply (creating a) now ms o = created-OneReply now a ms o
execute-OneReply (reconciling false stale_after limit) now ms o = o
execute-OneReply (reconciling true stale_after limit) now ms o =
    update_where-OneReply (is_among (stale_ids (now - stale_after) limit ms)) (interrupted_row now)
      ms (λ r m. refl) o

-- A request has one reply at most, whatever turns are begun with whatever request ids, and however
-- they are checkpointed, finalized and reconciled.
pub execute_all-OneReply :
    (sts : List (Statement × ℕ)) (ms : Table) → OneReply ms → OneReply (execute_all sts ms)
unfolding execute_all
execute_all-OneReply [] ms o = o
execute_all-OneReply ((st, now) ∷ sts) ms o =
    execute_all-OneReply sts (execute st now ms) (execute-OneReply st now ms o)
