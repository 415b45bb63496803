-- ===== src/Conversation/Completed.antt =====
-- When a turn (map-business-backend/app/services/conversation_service.py) is recorded as completed.
use map.Base.{
  String, Bool, true, false, not, ◌||◌, ◌==◌, ==_iff, &&-eq-true, Option, none, some, List, [], ◌∷◌,
  ◌≡◌, ◌⊎◌, refl, sym, ap, ◌∙◌, subst, Bool-cases, inl, inr, if◌then◌else◌,
}
use map.Envelope.{Value, str, Entries}
use map.Envelope.Canonical.{Text, codes}
use map.Sse.{SseFrame}
use map.Conversation.{
  Thrown, Event, Progress, Step, goes, throws, text_eq, is_run_event_frame, frame_data_json,
  parse_run_event_data,
}
use map.Conversation.Turn.{
  Python, get_field, is_word_of, is_hashable, on_delta, on_meta, on_done, on_error, on_data,
  on_frame, run_step, core_error, dispatch, and_yielded, next, dispatch_all,
}

-- Whether a frame has this event.
unfoldable pub has_event : String → List SseFrame → Bool
unfolding text_eq codes
has_event word [] = false
has_event word (f ∷ fs) = text_eq (f.event) (codes word) || has_event word fs

pub text_eq-path : (s t : Text) → text_eq s t ≡ true → s ≡ t
unfolding text_eq
text_eq-path [] [] h = refl
text_eq-path [] (d ∷ t) h = cc
text_eq-path (c ∷ s) [] h = cc
text_eq-path (c ∷ s) (d ∷ t) h =
    let (a, b) = &&-eq-true (c == d) (text_eq s t) h in
    ap (λ z. z ∷ s) ((==_iff c d).0 a) ∙ ap (λ z. d ∷ z) (text_eq-path s t b)

-- An event that is one word is not another.
apart : (event a b : Text) → text_eq event a ≡ true → text_eq a b ≡ false → text_eq event b ≡ false
apart event a b h k = subst (λ z. text_eq z b ≡ false) (sym (text_eq-path event a h)) k

-- What a frame with this event may do to the facts that decide the outcome.
abbrev Careful : Text → Progress → Step → Type 0
Careful event s (throws t r es) = Unit
Careful event s (goes r es) =
    (r.outcome.done_received ≡ true
      → (s.outcome.done_received ≡ true) ⊎ (text_eq event (codes "done") ≡ true))
    × (r.outcome.error_code ≡ none
        → (s.outcome.error_code ≡ none) × (text_eq event (codes "error") ≡ false))

module _ (py : Python) (event : Text) where
  delta-Careful :
      (s : Progress) (v : Value)
      → text_eq event (codes "error") ≡ false
      → Careful event s (on_delta py s v)
  delta-Careful s (str t) n = (λ k. inl k, λ k. (k, n))
  delta-Careful s _ n = (λ k. inl k, λ k. (k, n))

  if-Careful :
      (s : Progress) (b : Bool) (x y : Step)
      → (b ≡ true → Careful event s x)
      → (b ≡ false → Careful event s y)
      → Careful event s (if b then x else y)
  if-Careful s true x y hx hy = hx refl
  if-Careful s false x y hx hy = hy refl

  meta-Careful :
      (s : Progress) (es : Entries)
      → text_eq event (codes "error") ≡ false
      → Careful event s (on_meta py s es)
  unfolding on_meta
  meta-Careful s es n =
      let type = get_field "type" es in
      if-Careful s (is_word_of "decision" type) _ _ (λ _. (λ k. inl k, λ k. (k, n)))
        (λ _.
          if-Careful s (not (is_hashable type)) _ _ (λ _. tt)
            (λ _.
              if-Careful s (is_word_of "tool_observation" type || is_word_of "evidence" type) _ _
                (λ _. (λ k. inl k, λ k. (k, n))) (λ _. (λ k. inl k, λ k. (k, n)))))

  done-Careful :
      (s : Progress) (es : Entries)
      → text_eq event (codes "done") ≡ true
      → text_eq event (codes "error") ≡ false
      → Careful event s (on_done py s es)
  unfolding on_done
  done-Careful s es h n =
      if-Careful s s.outcome.done_received _ _ (λ _. (λ k. inl k, λ k. (k, n)))
        (λ _. (λ _. inr h, λ k. (k, n)))

  error-Careful : (s : Progress) → Careful event s (on_error py s)
  error-Careful s = (λ h. inl h, λ h. failed s.outcome.error_code h)
    where
      failed :
          (o : Option String)
          → core_error py o ≡ none
          → (o ≡ none) × (text_eq event (codes "error") ≡ false)
      failed none h = cc
      failed (some c) h = cc

  data-Careful : (s : Progress) (es : Entries) → Careful event s (on_data py event s es)
  unfolding on_data
  data-Careful s es =
      if-Careful s (text_eq event (codes "content_delta")) _ _
        (λ h. delta-Careful s (get_field "content" es) (apart event _ _ h refl))
        (λ _.
          if-Careful s (text_eq event (codes "meta")) _ _
            (λ h. meta-Careful s es (apart event _ _ h refl))
            (λ _.
              if-Careful s (text_eq event (codes "tool_evidence")) _ _
                (λ h. (λ k. inl k, λ k. (k, (apart event _ _ h refl))))
                (λ _.
                  if-Careful s (text_eq event (codes "done")) _ _
                    (λ h. done-Careful s es h (apart event _ _ h refl))
                    (λ _.
                      if-Careful s (text_eq event (codes "error")) _ _ (λ _. error-Careful s)
                        (λ n. (λ k. inl k, λ k. (k, n)))))))

  run-Careful :
      (s : Progress) (es : Entries) (o : Option Thrown)
      → text_eq event (codes "error") ≡ false
      → Careful event s (run_step py event s es o)
  run-Careful s es none n = (λ k. inl k, λ k. (k, n))
  run-Careful s es (some t) n = tt

  run_event-no_error : is_run_event_frame event ≡ true → text_eq event (codes "error") ≡ false
  unfolding is_run_event_frame
  run_event-no_error h = elim (Bool-cases (text_eq event (codes "error"))) [
    | inl e ↦
        let same = text_eq-path event (codes "error") e in
        let absurd = subst (λ z. is_run_event_frame z ≡ true) same h in cc
    | inr e ↦ e
  ]

  frame-Careful :
      (s : Progress) (f : SseFrame) (o : Option Entries)
      → f.event ≡ event
      → Careful event s (on_frame py f s o)
  unfolding on_frame
  frame-Careful s f none e = tt
  frame-Careful s f (some es) e =
      subst
        (λ z. Careful event s (
          if is_run_event_frame z
          then run_step py z s es (parse_run_event_data (py.parsers) z es)
          else on_data py z s es))
        (sym e)
        (if-Careful s (is_run_event_frame event) _ _
          (λ h. run-Careful s es (parse_run_event_data py.parsers event es) (run_event-no_error h))
          (λ _. data-Careful s es))

dispatch-Careful :
    (py : Python) (f : SseFrame) (s : Progress) → Careful (f.event) s (dispatch py f s)
unfolding dispatch
dispatch-Careful py f s = frame-Careful py f.event s f (frame_data_json py.loads f) refl

-- What a whole list of frames may do to those facts.
abbrev pub CarefulAll : List SseFrame → Progress → Step → Type 0
CarefulAll fs s (throws t r es) = Unit
CarefulAll fs s (goes r es) =
    (r.outcome.done_received ≡ true
      → (s.outcome.done_received ≡ true) ⊎ (has_event "done" fs ≡ true))
    × (r.outcome.error_code ≡ none → (s.outcome.error_code ≡ none) × (has_event "error" fs ≡ false))

yielded-CarefulAll :
    (py : Python) (fs : List SseFrame) (s : Progress) (es : List Event) (r : Step)
    → CarefulAll fs s r
    → CarefulAll fs s (and_yielded py es r)
yielded-CarefulAll py fs s es (goes r gs) h = h
yielded-CarefulAll py fs s es (throws t r gs) h = h

||-left : (a b : Bool) → a ≡ true → (a || b) ≡ true
||-left true b h = refl
||-left false b h = cc

||-right : (a b : Bool) → b ≡ true → (a || b) ≡ true
||-right true b h = refl
||-right false b h = h

joined-CarefulAll :
    (f : SseFrame) (fs : List SseFrame) (s r : Progress) (es : List Event) (u : Step)
    → Careful (f.event) s (goes r es)
    → CarefulAll fs r u
    → CarefulAll (f ∷ fs) s u
unfolding has_event
joined-CarefulAll f fs s r es (throws t v gs) h k = tt
joined-CarefulAll f fs s r es (goes v gs) h k =
    let here = text_eq f.event (codes "done") in
    (
      λ d. elim (k.0 d) [
        | inl e ↦ elim (h.0 e) [
          | inl a ↦ inl a
          | inr a ↦ inr (||-left here (has_event "done" fs) a)
        ]
        | inr e ↦ inr (||-right here (has_event "done" fs) e)
      ],
      λ n.
          let (a, b) = k.1 n in
          let (c, d) = h.1 a in (c, ap (λ z. z || has_event "error" fs) d ∙ b),
    )

next-CarefulAll :
    (py : Python) (f : SseFrame) (fs : List SseFrame) (s : Progress) (more : Progress → Step)
    (u : Step)
    → ((r : Progress) → CarefulAll fs r (more r))
    → Careful (f.event) s u
    → CarefulAll (f ∷ fs) s (next py more u)
next-CarefulAll py f fs s more (throws t r es) h k = tt
next-CarefulAll py f fs s more (goes r es) h k =
    yielded-CarefulAll py (f ∷ fs) s es (more r) (joined-CarefulAll f fs s r es (more r) k (h r))

pub dispatch_all-CarefulAll :
    (py : Python) (fs : List SseFrame) (s : Progress) → CarefulAll fs s (dispatch_all py fs s)
unfolding dispatch_all has_event
dispatch_all-CarefulAll py [] s = (λ h. inl h, λ h. (h, refl))
dispatch_all-CarefulAll py (f ∷ fs) s =
    next-CarefulAll py f fs s (dispatch_all py fs) (dispatch py f s) (dispatch_all-CarefulAll py fs)
      (dispatch-Careful py f s)
