-- ===== src/Sse.antt =====
-- map-business-backend/app/services/sse.py: the frames of a stream, on code points, and the parser that is fed bytes.
pub mod Utf8
pub mod Splitting
mod Chunks
pub mod Feeding
mod Lines
mod Frames
mod Fields
mod Envelopes
mod Broken
mod Examples
use map.Base.{
  ℕ, zero, suc, Bool, true, false, ◌&&◌, ◌||◌, Option, none, some, List, [], ◌∷◌, ◌++◌, ◌==◌, leb,
  length, if◌then◌else◌,
}
use map.Effects.Guard.{is_space}
use map.Envelope.Canonical.{Text, codes}
use map.Envelope.Fields.{starts_with}
use map.Sse.Utf8.{Pending, idle, decode, finish}

pub record SseFrame : Type 0 where
  pub event : Text
  pub data_field : Text

-- `remaining.replace("\r\n", "\n")`
unfoldable pub normalize : Text → Text
normalize [] = []
normalize (c ∷ []) = c ∷ []
normalize (c ∷ d ∷ cs) =
    let rest = normalize cs in
    let more = normalize (d ∷ cs) in if (c == 13) && (d == 10) then 10 ∷ rest else c ∷ more

abbrev pub before : ℕ → Option (Text × Text) → Option (Text × Text)
before c none = none
before c (some (a, r)) = some (c ∷ a, r)

-- `remaining.split("\n\n", 1)`; `none` where no blank line is in it.
unfoldable pub split_blank : Text → Option (Text × Text)
split_blank [] = none
split_blank (c ∷ []) = none
split_blank (c ∷ d ∷ cs) =
    let more = split_blank (d ∷ cs) in
    if (c == 10) && (d == 10) then some ([], cs) else before c more

-- The characters at which `str.splitlines` ends a line.
abbrev pub is_break : ℕ → Bool
is_break c =
    (leb 10 c && leb c 13) || ((leb 28 c && leb c 30) || (c == 133 || (c == 8232 || c == 8233)))

abbrev pub onto_line : ℕ → List Text → List Text
onto_line c [] = (c ∷ []) ∷ []
onto_line c (l ∷ ls) = (c ∷ l) ∷ ls

-- `str.splitlines`, where CR LF is one end.
unfoldable pub splitlines : Text → List Text
splitlines [] = []
splitlines (c ∷ []) = if is_break c then [] ∷ [] else (c ∷ []) ∷ []
splitlines (c ∷ d ∷ cs) =
    let rest = splitlines cs in
    let more = splitlines (d ∷ cs) in
    if (c == 13) && (d == 10) then [] ∷ rest else if is_break c then [] ∷ more else onto_line c more

unfoldable pub lstrip : Text → Text
unfolding is_space
lstrip [] = []
lstrip (c ∷ cs) = let rest = lstrip cs in if is_space c then rest else c ∷ cs

abbrev pub onto_stripped : ℕ → Text → Text
onto_stripped c [] = if is_space c then [] else c ∷ []
onto_stripped c (d ∷ cs) = c ∷ d ∷ cs

unfoldable pub rstrip : Text → Text
unfolding is_space
rstrip [] = []
rstrip (c ∷ cs) = onto_stripped c (rstrip cs)

-- `str.strip`
unfoldable pub strip : Text → Text
unfolding lstrip rstrip
strip cs = rstrip (lstrip cs)

unfoldable pub drop : ℕ → Text → Text
drop zero cs = cs
drop (suc n) [] = []
drop (suc n) (c ∷ cs) = drop n cs

abbrev pub event_field : Text
event_field = 101 ∷ 118 ∷ 101 ∷ 110 ∷ 116 ∷ 58 ∷ []

abbrev pub data_prefix : Text
data_prefix = 100 ∷ 97 ∷ 116 ∷ 97 ∷ 58 ∷ []

-- The event and the data lines, after one more line.
unfoldable pub read_line : Text × List Text → Text → Text × List Text
unfolding starts_with strip drop
read_line (event, data_lines) line =
    if starts_with event_field line
    then (strip (drop 6 line), data_lines)
    else if starts_with data_prefix line
    then (event, data_lines ++ strip (drop 5 line) ∷ [])
    else (event, data_lines)

unfoldable pub read_lines : Text × List Text → List Text → Text × List Text
unfolding read_line
read_lines s [] = s
read_lines s (line ∷ lines) = read_lines (read_line s line) lines

-- `"\n".join(lines)`
unfoldable pub join : List Text → Text
join [] = []
join (l ∷ []) = l
join (l ∷ m ∷ ls) = l ++ 10 ∷ join (m ∷ ls)

abbrev pub frame_of_fields : Text × List Text → SseFrame
frame_of_fields (event, data_lines) = record { event = event; data_field = join data_lines }

-- A frame whose event is "message" unless a line says otherwise.
unfoldable pub frame_of : Text → SseFrame
unfolding read_lines join splitlines codes
frame_of text = frame_of_fields (read_lines (codes "message", []) (splitlines text))

abbrev pub and_frames : Text → List SseFrame × Text → List SseFrame × Text
and_frames text (frames, remaining) = (frame_of text ∷ frames, remaining)

-- One turn of the loop of `_extract_frames`, around the turns that follow.
abbrev pub turn : (Text → List SseFrame × Text) → Text → Option (Text × Text) → List SseFrame × Text
turn more text none = ([], text)
turn more text (some (frame_text, rest)) = and_frames frame_text (more rest)

-- The loop of `_extract_frames`; the text's length is fuel enough.
unfoldable pub extract_loop : ℕ → Text → List SseFrame × Text
unfolding split_blank frame_of
extract_loop zero text = ([], text)
extract_loop (suc fuel) text = turn (extract_loop fuel) text (split_blank text)

-- `_extract_frames`, and `parse_sse_frames`.
unfoldable pub extract_frames : Text → List SseFrame × Text
unfolding extract_loop normalize
extract_frames buffer = extract_loop (length (normalize buffer)) (normalize buffer)

-- `SseStreamParser`
pub record SseStreamParser : Type 0 where
  pub decoder : Pending
  pub buffer : Text

abbrev pub new_parser : SseStreamParser
new_parser = record { decoder = idle; buffer = [] }

abbrev pub extracted : Pending → List SseFrame × Text → List SseFrame × SseStreamParser
extracted s (frames, remaining) = (frames, record { decoder = s; buffer = remaining })

abbrev pub fed :
    SseStreamParser → Option (Text × Pending) → Option (List SseFrame × SseStreamParser)
fed p none = none
fed p (some (text, s)) = some (extracted s (extract_frames (p.buffer ++ text)))

-- `feed`; `none` is the STREAM_DECODE_ERROR, which leaves the parser as it was.
unfoldable pub feed : SseStreamParser → List ℕ → Option (List SseFrame × SseStreamParser)
unfolding decode extract_frames
feed p [] = some ([], p)
feed p (b ∷ bs) = fed p (decode (p.decoder) (b ∷ bs))

-- `close`
unfoldable pub close : SseStreamParser → Option (List SseFrame × SseStreamParser)
unfolding finish extract_frames
close p = if finish (p.decoder) then some (extracted idle (extract_frames (p.buffer))) else none

abbrev pub prefixed :
    List SseFrame
    → Option (List SseFrame × SseStreamParser)
    → Option (List SseFrame × SseStreamParser)
prefixed frames none = none
prefixed frames (some (later, q)) = some (frames ++ later, q)

abbrev pub after :
    (SseStreamParser → Option (List SseFrame × SseStreamParser))
    → Option (List SseFrame × SseStreamParser)
    → Option (List SseFrame × SseStreamParser)
after more none = none
after more (some (frames, p)) = prefixed frames (more p)

-- The chunks of a stream, one after the other: all their frames, and the parser at the end.
unfoldable pub feed_all : SseStreamParser → List (List ℕ) → Option (List SseFrame × SseStreamParser)
unfolding feed
feed_all p [] = some ([], p)
feed_all p (chunk ∷ chunks) = after (λ q. feed_all q chunks) (feed p chunk)

unfoldable pub flatten : List (List ℕ) → List ℕ
flatten [] = []
flatten (chunk ∷ chunks) = chunk ++ flatten chunks
