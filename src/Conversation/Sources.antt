-- ===== src/Conversation/Sources.antt =====
-- Where a completed turn (map-business-backend/app/services/conversation_service.py) comes from.
use map.Base.{
  ℕ, String, Bool, true, false, not, Option, none, some, List, [], ◌∷◌, ◌++◌, ◌≡◌, ◌⊎◌, refl, sym,
  ap, ◌∙◌, subst, Option-cases, inl, inr, if◌then◌else◌, str_eq,
}
use map.Envelope.Canonical.{Text}
use map.Sse.{SseFrame, SseStreamParser, new_parser, feed, prefixed, after, feed_all}
use map.Conversation.{StreamOutcome, Event, Progress, Step, goes, throws, new_progress}
use map.Conversation.Turn.{
  Python, Item, chunk, upstream_eof, upstream_error, aborted, cancelled, End, finalized, waiting,
  and_yielded, next, dispatch_all, cut_off, code_of, at_eof, status_of, checkpoint, stepped, parsed,
  consume,
}
use map.Conversation.Streams.{arriving, bytes_of, consume-chunk, dispatch_all-append}
use map.Conversation.Completed.{has_event, dispatch_all-CarefulAll, CarefulAll}

-- A status that a turn which was cut off never has.
not_completed : String → Bool
not_completed status = not (str_eq status "completed")

contradiction {ℓ} :
    {A : Type ℓ} (py : Python) (status code : String) (content : Text) (o : StreamOutcome)
    → finalized (cut_off py status code content) ≡ finalized o
    → o.status ≡ "completed"
    → not_completed status ≡ true
    → A
unfolding not_completed
contradiction py status code content o h k n =
    let same : status ≡ o.status = ap (λ e. status_in e) h in
    let absurd = subst (λ z. not (str_eq z "completed") ≡ true) (same ∙ k) n in cc
  where
    status_in : End → String
    status_in (finalized o) = o.status
    status_in waiting = ""

module _ (py : Python) (interval : ℕ) where
  -- The stream that a completed turn has read: chunks, then the end, that parse to frames which go
  -- through, and the outcome is the one at the end of the stream.
  pub record Source (q : SseStreamParser) (s : Progress) (items : List Item) (o : StreamOutcome)
      : Type 0 where
    pub chunks : List (List ℕ × ℕ)
    pub later : List Item
    pub frames : List SseFrame
    pub parser : SseStreamParser
    pub progress : Progress
    pub events : List Event
    pub arrived : items ≡ arriving py chunks (upstream_eof ∷ later)
    pub read : feed_all q (bytes_of py chunks) ≡ some (frames, parser)
    pub dispatched : dispatch_all py frames s ≡ goes progress events
    pub concluded : at_eof py progress ≡ o

  abbrev StepSource : List ℕ → ℕ → List Item → SseStreamParser → Progress → StreamOutcome → Type 0
  StepSource bytes now items q s o = Source q s (chunk bytes now ∷ items) o

  after-first :
      (q r p : SseStreamParser) (bytes : List ℕ) (rest : List (List ℕ)) (fs gs : List SseFrame)
      → feed q bytes ≡ some (fs, r)
      → feed_all r rest ≡ some (gs, p)
      → feed_all q (bytes ∷ rest) ≡ some (fs ++ gs, p)
  unfolding feed_all
  after-first q r p bytes rest fs gs h k = ap (after (λ q. feed_all q rest)) h ∙ ap (prefixed fs) k

  longer :
      (bytes : List ℕ) (now : ℕ) (items : List Item) (q r : SseStreamParser) (s t : Progress)
      (fs : List SseFrame) (es : List Event) (o : StreamOutcome)
      → feed q bytes ≡ some (fs, r)
      → dispatch_all py fs s ≡ goes t es
      → Source r t items o
      → Source q s (chunk bytes now ∷ items) o
  longer bytes now items q r s t fs es o h k src = record {
    chunks = (bytes, now) ∷ src.chunks;
    later = src.later;
    frames = fs ++ src.frames;
    parser = src.parser;
    progress = src.progress;
    events = es ++ src.events;
    arrived = ap (λ z. chunk bytes now ∷ z) src.arrived;
    read = after-first q r src.parser bytes (bytes_of py src.chunks) fs src.frames h src.read;
    dispatched =
        dispatch_all-append py fs src.frames s
        ∙ (ap (next py (dispatch_all py src.frames)) k ∙ ap (and_yielded py es) src.dispatched);
    concluded = src.concluded;
  }

  -- A chunk's step, when the turn is completed in the end.
  stepped-Source :
      (bytes : List ℕ) (now : ℕ) (items : List Item) (q r : SseStreamParser) (s : Progress)
      (last : ℕ) (fs : List SseFrame) (o : StreamOutcome) (u : Step)
      → ((t : Progress) (last : ℕ)
          → (consume py interval items r t last).0 ≡ finalized o
          → Source r t items o)
      → feed q bytes ≡ some (fs, r)
      → dispatch_all py fs s ≡ u
      → (stepped py
          (λ s. checkpoint py interval now last (s.accumulated))
          (λ s last. consume py interval items r s last)
          u).0
        ≡ finalized o
      → o.status ≡ "completed"
      → Source q s (chunk bytes now ∷ items) o
  unfolding not_completed
  stepped-Source bytes now items q r s last fs o (throws t v es) ih h k e c =
      contradiction py "failed" (code_of py t) v.accumulated o e c refl
  stepped-Source bytes now items q r s last fs o (goes t es) ih h k e c =
      longer bytes now items q r s t fs es o h k (ih t _ e)

  consume-undecoded :
      (bytes : List ℕ) (now : ℕ) (items : List Item) (q : SseStreamParser) (s : Progress) (last : ℕ)
      → feed q bytes ≡ none
      → (consume py interval (chunk bytes now ∷ items) q s last).0
        ≡ finalized (cut_off py "failed" "STREAM_DECODE_ERROR" (s.accumulated))
  unfolding consume
  consume-undecoded bytes now items q s last h =
      ap
        (λ o.
          (parsed py (λ s. checkpoint py interval now last (s.accumulated))
            (λ q s last. consume py interval items q s last) s o).0)
        h

  pub consume-Source :
      (items : List Item) (q : SseStreamParser) (s : Progress) (last : ℕ) (o : StreamOutcome)
      → (consume py interval items q s last).0 ≡ finalized o
      → o.status ≡ "completed"
      → Source q s items o
  unfolding consume not_completed feed_all dispatch_all
  consume-Source [] q s last o e c = cc
  consume-Source (chunk bytes now ∷ items) q s last o e c = elim (Option-cases (feed q bytes)) [
    | inl h ↦
        contradiction py "failed" "STREAM_DECODE_ERROR" s.accumulated o
          (sym (consume-undecoded bytes now items q s last h) ∙ e) c refl
    | inr ((fs, r), h) ↦
        stepped-Source bytes now items q r s last fs o (dispatch_all py fs s)
          (λ t l k. consume-Source items r t l o k c) h refl
          (ap (λ z. z.0) (sym (consume-chunk py interval bytes now items q r s last fs h)) ∙ e) c
  ]
  consume-Source (upstream_eof ∷ items) q s last o e c = record {
    chunks = [];
    later = items;
    frames = [];
    parser = q;
    progress = s;
    events = [];
    arrived = refl;
    read = refl;
    dispatched = refl;
    concluded = cc;
  }
  consume-Source (upstream_error ∷ items) q s last o e c =
      contradiction py "failed" "STREAM_CORE_ERROR" s.accumulated o e c refl
  consume-Source (aborted ∷ items) q s last o e c =
      contradiction py "stopped" "STREAM_ABORTED" s.accumulated o e c refl
  consume-Source (cancelled ∷ items) q s last o e c =
      contradiction py "stopped" "STREAM_ABORTED" s.accumulated o e c refl

  not_both {ℓ} : {A : Type ℓ} (status : String) → status ≡ "failed" → status ≡ "completed" → A
  unfolding not_completed
  not_both status f c = let absurd = subst (λ z. not_completed z ≡ true) (sym f ∙ c) refl in cc

  finished :
      (b : Bool) (code : Option String) (x y : StreamOutcome)
      → x.status ≡ status_of py code
      → y.status ≡ "failed"
      → (if b then x else y).status ≡ "completed"
      → (b ≡ true) × (code ≡ none)
  finished true none x y hx hy h = (refl, refl)
  finished true (some c) x y hx hy h = not_both x.status hx h
  finished false code x y hx hy h = not_both y.status hy h

  at_eof-finished :
      (s : Progress)
      → (at_eof py s).status ≡ "completed"
      → (s.outcome.done_received ≡ true) × (s.outcome.error_code ≡ none)
  unfolding at_eof
  at_eof-finished s h = finished s.outcome.done_received s.outcome.error_code _ _ refl refl h

  received : (b : Bool) → (false ≡ true) ⊎ (b ≡ true) → b ≡ true
  received b (inl h) = cc
  received b (inr h) = h

  -- A turn is recorded as completed only if its chunks parse without an error, the end of the
  -- stream came after them, every frame went through, one of the frames was a `done` and none was
  -- an `error`; and the outcome is then the one gathered of these frames.
  pub consume-Completed :
      (items : List Item) (last : ℕ) (o : StreamOutcome)
      → (consume py interval items new_parser new_progress last).0 ≡ finalized o
      → o.status ≡ "completed"
      → (src : Source new_parser new_progress items o) × (has_event "done" (src.frames) ≡ true)
        × (has_event "error" (src.frames) ≡ false)
  consume-Completed items last o h c =
      let src = consume-Source items new_parser new_progress last o h c in
      let (d, e) = at_eof-finished src.progress (ap (λ o. o.status) src.concluded ∙ c) in
      let facts =
        subst (CarefulAll src.frames new_progress) src.dispatched
          (dispatch_all-CarefulAll py src.frames new_progress) in
      (src, received (has_event "done" src.frames) (facts.0 d), (facts.1 e).1)
