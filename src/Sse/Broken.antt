-- ===== src/Sse/Broken.antt =====
-- Data with a line separator of Unicode, as `_extract_frames` (map-business-backend/app/services/sse.py) reads it.
use map.Base.{ℕ, false, List, [], ◌∷◌, ◌++◌, ◌≡◌, refl, sym, ap, ◌∙◌, All}
use map.Envelope.Canonical.{Text, codes}
use map.Envelope.Fields.{starts_with}
use map.Sse.{
  extract_frames, strip, event_field, data_prefix, read_line, read_lines, join, frame_of_fields,
}
use map.Sse.Lines.{Inside, Line, Ending, Ended, body, lines_of}
use map.Sse.Frames.{extract_frames-body}
use map.Sse.Fields.{Trimmed, read_line-event}
use mathlib.Core.List.{append_assoc}

read_line-any_data :
    (s : Text × List Text) (t : Text)
    → read_line s (codes "data: " ++ t) ≡ (s.0, s.1 ++ strip (32 ∷ t) ∷ [])
unfolding read_line codes
read_line-any_data s t = refl

-- A line of neither field.
abbrev pub Ignored : Text → Type 0
Ignored t = (starts_with event_field t ≡ false) × (starts_with data_prefix t ≡ false)

read_line-Ignored : (s : Text × List Text) (t : Text) → Ignored t → read_line s t ≡ s
unfolding read_line
read_line-Ignored s t (a, b) = rw (a, b) refl

abbrev broken_lines : List (Text × ℕ) → Text → Text → ℕ → List (Text × ℕ)
broken_lines [] type a e = (codes "event: " ++ type, 10) ∷ (codes "data: " ++ a, e) ∷ []
broken_lines (l ∷ heads) type a e = l ∷ broken_lines heads type a e

-- Lines of neither field, with their endings.
abbrev pub AllIgnored : List (Text × ℕ) → Type 0
AllIgnored [] = Unit
AllIgnored ((l, e) ∷ ls) = Ignored l × AllIgnored ls

broken_lines-read :
    (heads : List (Text × ℕ)) (type a b : Text) (e : ℕ)
    → AllIgnored heads
    → Trimmed type
    → Ignored b
    → frame_of_fields (read_lines (codes "message", []) (lines_of (broken_lines heads type a e) b))
      ≡ record { event = type; data_field = strip (32 ∷ a) }
unfolding read_lines join
broken_lines-read [] type a b e hs ht hb = ap frame_of_fields (
    ap (λ z. read_line (read_line z (codes "data: " ++ a)) b)
      (read_line-event (codes "message", []) type ht)
    ∙ (ap (λ z. read_line z b) (read_line-any_data (type, []) a)
        ∙ read_line-Ignored (type, strip (32 ∷ a) ∷ []) b hb))
broken_lines-read ((l, k) ∷ heads) type a b e hs ht hb =
    ap (λ z. frame_of_fields (read_lines z (lines_of (broken_lines heads type a e) b)))
      (read_line-Ignored (codes "message", []) l hs.0)
    ∙ broken_lines-read heads type a b e hs.1 ht hb

broken_lines-Ended :
    (heads : List (Text × ℕ)) (type a : Text) (e : ℕ)
    → Ended heads
    → All Inside type
    → All Inside a
    → Ending e
    → Ended (broken_lines heads type a e)
unfolding codes
broken_lines-Ended [] type a e hs ht ha he = (
  ((refl, (refl, (refl, (refl, (refl, (refl, (refl, ht))))))), (refl, refl)),
  (((refl, (refl, (refl, (refl, (refl, (refl, ha)))))), he), tt),
)
broken_lines-Ended ((l, k) ∷ heads) type a e hs ht ha he =
    (hs.0, broken_lines-Ended heads type a e hs.1 ht ha he)

-- The text of a frame whose data holds the character `e`: some lines, the event, and one data line.
abbrev pub broken_text : List (Text × ℕ) → Text → Text → ℕ → Text → Text → Text
broken_text [] type a e b rest =
    codes "event: " ++ (type ++ (10 ∷ codes "data: " ++ (a ++ e ∷ (b ++ 10 ∷ 10 ∷ rest))))
broken_text ((l, k) ∷ heads) type a e b rest = l ++ k ∷ broken_text heads type a e b rest

broken_lines-text :
    (heads : List (Text × ℕ)) (type a b rest : Text) (e : ℕ)
    → broken_text heads type a e b rest ≡ body (broken_lines heads type a e) b ++ 10 ∷ 10 ∷ rest
unfolding codes
broken_lines-text [] type a b rest e = simp (append_assoc)
broken_lines-text ((l, k) ∷ heads) type a b rest e =
    ap (λ z. l ++ k ∷ z) (broken_lines-text heads type a b rest e)
    ∙ sym (append_assoc l (k ∷ body (broken_lines heads type a e) b) (10 ∷ 10 ∷ rest))

-- A frame of any lines that name neither field, as the `id: ` line of `sse_frame`, then an event line and one data line
-- that holds a character at which `splitlines` breaks, other than the carriage return, is read as the event with the data up
-- to that character, stripped; what stands after it is lost. The conditions: the event's name has no blank at its ends and,
-- like the data before that character, no line break; what stands after is not empty, has no line break either, and starts
-- with neither field's name.
pub extract_frames-broken :
    (heads : List (Text × ℕ)) (type a b rest : Text) (e : ℕ)
    → Ended heads
    → AllIgnored heads
    → All Inside type
    → Trimmed type
    → All Inside a
    → Ending e
    → Line b
    → Ignored b
    → extract_frames (broken_text heads type a e b rest) ≡ (
      record { event = type; data_field = strip (32 ∷ a) } ∷ (extract_frames rest).0,
      (extract_frames rest).1,
    )
extract_frames-broken heads type a b rest e hi hs ti trimmed ai he hb ig =
    ap extract_frames (broken_lines-text heads type a b rest e)
    ∙ (extract_frames-body (broken_lines heads type a e) b rest
          (broken_lines-Ended heads type a e hi ti ai he) hb
        ∙ ap (λ z. (z ∷ (extract_frames rest).0, (extract_frames rest).1))
            (broken_lines-read heads type a b e hs trimmed ig))
