-- ===== src/Conversation/Streams.antt =====
-- The end of a turn (map-business-backend/app/services/conversation_service.py) and the stream that it has read.
use map.Base.{
  ℕ, Bool, true, false, Option, none, some, List, [], ◌∷◌, ◌++◌, ◌≡◌, refl, sym, ap, ◌∙◌, subst,
}
use map.Sse.{SseFrame, SseStreamParser, new_parser, feed, prefixed, after, feed_all, flatten}
use map.Sse.Feeding.{Clear, feed_all-flatten}
use map.Conversation.{Thrown, Event, Progress, Step, goes, throws, new_progress}
use map.Conversation.Turn.{
  Python, Item, chunk, upstream_eof, upstream_error, aborted, cancelled, Action, End, finalized,
  waiting, dispatch, and_yielded, next, dispatch_all, cut_off, code_of, at_eof, checkpoint, stepped,
  parsed, consume,
}
use mathlib.Core.List.{append_assoc}

and_yielded-and_yielded :
    (py : Python) (xs ys : List Event) (r : Step)
    → and_yielded py xs (and_yielded py ys r) ≡ and_yielded py (xs ++ ys) r
and_yielded-and_yielded py xs ys (goes s es) = ap (goes s) (sym (append_assoc xs ys es))
and_yielded-and_yielded py xs ys (throws t s es) = ap (throws t s) (sym (append_assoc xs ys es))

module _ (py : Python) where
  next-and_yielded :
      (m : Progress → Step) (xs : List Event) (r : Step)
      → and_yielded py xs (next py m r) ≡ next py m (and_yielded py xs r)
  next-and_yielded m xs (goes s es) = and_yielded-and_yielded py xs es (m s)
  next-and_yielded m xs (throws t s es) = refl

  next-next :
      (k l m : Progress → Step) (r : Step)
      → ((s : Progress) → k s ≡ next py m (l s))
      → next py k r ≡ next py m (next py l r)
  next-next k l m (goes s es) h = ap (and_yielded py es) (h s) ∙ next-and_yielded m es (l s)
  next-next k l m (throws t s es) h = refl

  and_yielded-nil : (r : Step) → r ≡ and_yielded py [] r
  and_yielded-nil (goes s es) = refl
  and_yielded-nil (throws t s es) = refl

  pub dispatch_all-append :
      (fs gs : List SseFrame) (s : Progress)
      → dispatch_all py (fs ++ gs) s ≡ next py (dispatch_all py gs) (dispatch_all py fs s)
  unfolding dispatch_all
  dispatch_all-append [] gs s = and_yielded-nil (dispatch_all py gs s)
  dispatch_all-append (f ∷ fs) gs s =
      next-next (dispatch_all py (fs ++ gs)) (dispatch_all py fs) (dispatch_all py gs)
        (dispatch py f s) (dispatch_all-append fs gs)

  -- Chunks with the times of their arrival, before other items.
  abbrev pub arriving : List (List ℕ × ℕ) → List Item → List Item
  arriving [] items = items
  arriving ((bytes, now) ∷ cs) items = chunk bytes now ∷ arriving cs items

  abbrev pub bytes_of : List (List ℕ × ℕ) → List (List ℕ)
  bytes_of [] = []
  bytes_of ((bytes, now) ∷ cs) = bytes ∷ bytes_of cs

  -- How a turn is over when something other than a chunk comes.
  abbrev pub concluded : Item → Step → End
  concluded item (throws t s es) = finalized (cut_off py "failed" (code_of py t) (s.accumulated))
  concluded (chunk bytes now) (goes s es) = waiting
  concluded upstream_eof (goes s es) = finalized (at_eof py s)
  concluded upstream_error (goes s es) =
      finalized (cut_off py "failed" "STREAM_CORE_ERROR" (s.accumulated))
  concluded aborted (goes s es) = finalized (cut_off py "stopped" "STREAM_ABORTED" (s.accumulated))
  concluded cancelled (goes s es) =
      finalized (cut_off py "stopped" "STREAM_ABORTED" (s.accumulated))

  -- Something other than a chunk.
  abbrev pub is_last : Item → Bool
  is_last (chunk bytes now) = false
  is_last _ = true

  concluded-yielded :
      (item : Item) (es : List Event) (r : Step)
      → concluded item (and_yielded py es r) ≡ concluded item r
  concluded-yielded (chunk b n) es (goes s fs) = refl
  concluded-yielded (chunk b n) es (throws t s fs) = refl
  concluded-yielded upstream_eof es (goes s fs) = refl
  concluded-yielded upstream_eof es (throws t s fs) = refl
  concluded-yielded upstream_error es (goes s fs) = refl
  concluded-yielded upstream_error es (throws t s fs) = refl
  concluded-yielded aborted es (goes s fs) = refl
  concluded-yielded aborted es (throws t s fs) = refl
  concluded-yielded cancelled es (goes s fs) = refl
  concluded-yielded cancelled es (throws t s fs) = refl

  consume-last :
      (interval : ℕ) (item : Item) (items : List Item) (q : SseStreamParser) (s : Progress)
      (last : ℕ)
      → is_last item ≡ true
      → (consume py interval (item ∷ items) q s last).0 ≡ concluded item (goes s [])
  unfolding consume
  consume-last interval (chunk b n) items q s last h = cc
  consume-last interval upstream_eof items q s last h = refl
  consume-last interval upstream_error items q s last h = refl
  consume-last interval aborted items q s last h = refl
  consume-last interval cancelled items q s last h = refl

  -- What is left after a chunk whose frames took a step.
  stepped-End :
      (saved : Progress → List Action × ℕ) (more : Progress → ℕ → End × List Action)
      (m : Progress → Step) (item : Item) (r : Step)
      → ((s : Progress) (last : ℕ) → (more s last).0 ≡ concluded item (m s))
      → (stepped py saved more r).0 ≡ concluded item (next py m r)
  stepped-End saved more m item (throws t s es) h = concluded-throws item t s es
    where
      concluded-throws :
          (item : Item) (t : Thrown) (s : Progress) (es : List Event)
          → finalized (cut_off py "failed" (code_of py t) (s.accumulated))
            ≡ concluded item (throws t s es)
      concluded-throws (chunk b n) t s es = refl
      concluded-throws _ t s es = refl
  stepped-End saved more m item (goes s es) h =
      h s (saved s).1 ∙ sym (concluded-yielded item es (m s))

  -- The pieces of a stream that is fed without an error.
  record Fed (f : SseStreamParser → Option (List SseFrame × SseStreamParser))
      (o : Option (List SseFrame × SseStreamParser)) (fs : List SseFrame) (q : SseStreamParser)
      : Type 0 where
    head : List SseFrame
    parser : SseStreamParser
    tail : List SseFrame
    first : o ≡ some (head, parser)
    rest : f parser ≡ some (tail, q)
    joined : head ++ tail ≡ fs

  prefixed-some :
      (xs : List SseFrame) (o : Option (List SseFrame × SseStreamParser)) (fs : List SseFrame)
      (q : SseStreamParser)
      → prefixed xs o ≡ some (fs, q)
      → (ys : List SseFrame) × (o ≡ some (ys, q)) × (xs ++ ys ≡ fs)
  prefixed-some xs none fs q h = cc
  prefixed-some xs (some (ys, r)) fs q h = (ys, cc, cc)

  after-Fed :
      (f : SseStreamParser → Option (List SseFrame × SseStreamParser))
      (o : Option (List SseFrame × SseStreamParser)) (fs : List SseFrame) (q : SseStreamParser)
      → after f o ≡ some (fs, q)
      → Fed f o fs q
  after-Fed f none fs q h = cc
  after-Fed f (some (xs, r)) fs q h =
      let (ys, e, j) = prefixed-some xs (f r) fs q h in
      record { head = xs; parser = r; tail = ys; first = refl; rest = e; joined = j }

  pub consume-chunk :
      (interval : ℕ) (bytes : List ℕ) (now : ℕ) (items : List Item) (q r : SseStreamParser)
      (s : Progress) (last : ℕ) (fs : List SseFrame)
      → feed q bytes ≡ some (fs, r)
      → consume py interval (chunk bytes now ∷ items) q s last
        ≡ stepped py
            (λ s. checkpoint py interval now last (s.accumulated))
            (λ s last. consume py interval items r s last)
            (dispatch_all py fs s)
  unfolding consume
  consume-chunk interval bytes now items q r s last fs h =
      ap
        (parsed py (λ s. checkpoint py interval now last (s.accumulated))
          (λ q s last. consume py interval items q s last) s)
        h

  pub consume-arriving :
      (interval : ℕ) (cs : List (List ℕ × ℕ)) (item : Item) (items : List Item)
      (q r : SseStreamParser) (s : Progress) (last : ℕ) (fs : List SseFrame)
      → feed_all q (bytes_of cs) ≡ some (fs, r)
      → is_last item ≡ true
      → (consume py interval (arriving cs (item ∷ items)) q s last).0
        ≡ concluded item (dispatch_all py fs s)
  unfolding feed_all dispatch_all
  consume-arriving interval [] item items q r s last fs h l =
      let e : [] ≡ fs = cc in
      subst
        (λ z.
          (consume py interval (item ∷ items) q s last).0 ≡ concluded item (dispatch_all py z s))
        e (consume-last interval item items q s last l)
  consume-arriving interval ((bytes, now) ∷ cs) item items q r s last fs h l =
      let fed = after-Fed (λ q. feed_all q (bytes_of cs)) (feed q bytes) fs r h in
      ap (λ z. z.0)
        (consume-chunk interval bytes now (arriving cs (item ∷ items)) q fed.parser s last fed.head
          fed.first)
      ∙ (stepped-End (λ s. checkpoint py interval now last (s.accumulated))
            (λ s last. consume py interval (arriving cs (item ∷ items)) fed.parser s last)
            (dispatch_all py fed.tail) item (dispatch_all py fed.head s)
            (λ s last.
              consume-arriving interval cs item items fed.parser r s last fed.tail fed.rest l)
          ∙ ap (concluded item) (
              sym (dispatch_all-append fed.head fed.tail s)
              ∙ ap (λ z. dispatch_all py z s) fed.joined))

  -- A turn is over as the whole stream, parsed at once, says: where its bytes parse and no CR CR
  -- comes about in their text, the outcome is the one of all frames of the joined chunks followed
  -- by what came last, however the stream was cut and whenever its pieces came.
  pub consume-flatten :
      (interval last : ℕ) (cs : List (List ℕ × ℕ)) (item : Item) (items : List Item)
      (fs : List SseFrame) (r : SseStreamParser)
      → Clear new_parser (flatten (bytes_of cs))
      → feed new_parser (flatten (bytes_of cs)) ≡ some (fs, r)
      → is_last item ≡ true
      → (consume py interval (arriving cs (item ∷ items)) new_parser new_progress last).0
        ≡ concluded item (dispatch_all py fs new_progress)
  consume-flatten interval last cs item items fs r c h l =
      consume-arriving interval cs item items new_parser r new_progress last fs
        (feed_all-flatten new_parser (bytes_of cs) c ∙ h) l
