-- ===== src/Stream/Chunking.antt =====
-- The read loops give what one pass over the whole text gives, however the text is cut into chunks.
use agentleh_app.Base.{
  ℕ, false, List, [], ◌∷◌, ◌++◌, Option, none, some, Text, if◌then◌else◌, split_from, split, ◌==◌,
  ◌≡◌, refl, ◌∙◌, arith, Bool-cases, inl, inr, append_assoc,
}
use agentleh_app.Js.{Js, str, Error, error, Outcome, throw}
use agentleh_app.Net.{Chunks, done, broken, chunk}
use agentleh_app.Stream.{Progress, Success, run_lines, and_then, complete_lines, read_loop}

-- The lines of a text that begins with `cur`, in one pass.
scan : Text → Text → List Text × Text
scan cur [] = ([], cur)
scan cur (c ∷ s) =
    let cut = scan [] s in
    let go = scan (cur ++ c ∷ []) s in if c == b'\n' then (cur ∷ cut.0, cut.1) else go

split_from-cons :
    (sep : ℕ) (cur s : Text)
    → (part : Text) × (parts : List Text) × (split_from sep cur s ≡ part ∷ parts)
unfolding split_from
split_from-cons sep cur [] = (cur, [], refl)
split_from-cons sep cur (c ∷ s) = elim (Bool-cases (c == sep)) [
  | inl e ↦ (cur, split_from sep [] s, rw e refl)
  | inr e ↦ rw e (split_from-cons sep (cur ++ c ∷ []) s)
]

complete_lines-cons :
    (cur s : Text)
    → complete_lines (cur ∷ split_from b'\n' [] s) ≡ (
      cur ∷ (complete_lines (split_from b'\n' [] s)).0,
      (complete_lines (split_from b'\n' [] s)).1,
    )
unfolding complete_lines
complete_lines-cons cur s =
    let (part, parts, e) = split_from-cons b'\n' [] s in rw (e, complete_lines) refl

complete_lines-split_from : (cur s : Text) → complete_lines (split_from b'\n' cur s) ≡ scan cur s
unfolding scan split_from
complete_lines-split_from cur [] = unfold complete_lines in refl
complete_lines-split_from cur (c ∷ s) = ground (
  arith,
  complete_lines-cons cur s,
  complete_lines-split_from [] s,
  complete_lines-split_from (cur ++ c ∷ []) s,
)

scan-append :
    (cur a b : Text)
    → scan cur (a ++ b) ≡ ((scan cur a).0 ++ (scan (scan cur a).1 b).0, (scan (scan cur a).1 b).1)
unfolding scan
scan-append cur [] b = refl
scan-append cur (c ∷ a) b = ground (arith, scan-append [] a b, scan-append (cur ++ c ∷ []) a b)

-- A text without a line feed.
abbrev IsPartial : Text → Type 0
IsPartial s = scan [] s ≡ ([], s)

push-IsPartial :
    (cur : Text) (c : ℕ) → IsPartial cur → (c == b'\n') ≡ false → IsPartial (cur ++ c ∷ [])
unfolding scan
push-IsPartial cur c h k = rw (scan-append [] cur (c ∷ []), h, scan, k) refl

scan-IsPartial : (cur s : Text) → IsPartial cur → IsPartial (scan cur s).1
unfolding scan
scan-IsPartial cur [] h = h
scan-IsPartial cur (c ∷ s) h = elim (Bool-cases (c == b'\n')) [
  | inl e ↦ rw e (scan-IsPartial [] s refl)
  | inr e ↦ rw e (scan-IsPartial (cur ++ c ∷ []) s (push-IsPartial cur c h e))
]

complete_lines-split :
    (buffer value : Text)
    → IsPartial buffer
    → complete_lines (split b'\n' (buffer ++ value)) ≡ scan buffer value
unfolding split
complete_lines-split buffer value h =
    complete_lines-split_from [] (buffer ++ value) ∙ scan-append [] buffer value ∙ rw h refl

-- Two runs of the inner loop, one after the other.
joined :
    List Progress × Option (Outcome Success)
    → List Progress × Option (Outcome Success)
    → List Progress × Option (Outcome Success)
joined (ticks, some r) later = (ticks, some r)
joined (ticks, none) later = (ticks ++ later.0, later.1)

and_then-joined :
    (a b : List Progress × Option (Outcome Success)) (rest : List Progress × Outcome Success)
    → and_then (joined a b) rest ≡ and_then a (and_then b rest)
unfolding and_then joined
and_then-joined (ticks, some r) b rest = refl
and_then-joined (ticks, none) (more, some r) rest = refl
and_then-joined (ticks, none) (more, none) rest = simp append_assoc

module _ (parse_json : Text → Option Js) (failed : Text) where
  run_lines-append :
      (xs ys : List Text)
      → run_lines parse_json failed (xs ++ ys)
        ≡ joined (run_lines parse_json failed xs) (run_lines parse_json failed ys)
  unfolding run_lines joined
  run_lines-append [] ys = refl
  run_lines-append (x ∷ xs) ys = ground (arith, run_lines-append xs ys)

-- The whole text that the chunks carry, and what the reader meets after the last one.
pub text_of : Chunks → Text
text_of done = []
text_of (broken e) = []
text_of (chunk value later) = value ++ text_of later

pub end_of : Text → Chunks → Error
end_of ended done = error (str ended)
end_of ended (broken e) = e
end_of ended (chunk value later) = end_of ended later

module _ (parse_json : Text → Option Js) (failed ended : Text) where
  -- One pass over a whole text: its lines that end in a line feed, and then the reader's end.
  pub read_whole : Text → Error → List Progress × Outcome Success
  read_whole whole e =
      and_then (run_lines parse_json failed (complete_lines (split b'\n' whole)).0) ([], throw e)

  read_scan : Text → Text → Error → List Progress × Outcome Success
  read_scan buffer text e =
      and_then (run_lines parse_json failed (scan buffer text).0) ([], throw e)

  read_loop-chunk :
      (buffer value : Text) (later : Chunks)
      → IsPartial buffer
      → read_loop parse_json failed ended (scan buffer value).1 later
        ≡ read_scan (scan buffer value).1 (text_of later) (end_of ended later)
      → read_loop parse_json failed ended buffer (chunk value later)
        ≡ read_scan buffer (value ++ text_of later) (end_of ended later)
  unfolding read_loop read_scan
  read_loop-chunk buffer value later h ih =
      rw
        (
          read_loop,
          read_scan,
          complete_lines-split buffer value h,
          scan-append buffer value (text_of later),
          ih,
        )
        (rw
          (
            run_lines-append parse_json failed (scan buffer value).0
                (scan (scan buffer value).1 (text_of later)).0,
            and_then-joined,
          )
          refl)

  read_loop-scan :
      (buffer : Text) (chunks : Chunks)
      → IsPartial buffer
      → read_loop parse_json failed ended buffer chunks
        ≡ read_scan buffer (text_of chunks) (end_of ended chunks)
  unfolding read_loop read_scan run_lines and_then text_of end_of scan
  read_loop-scan buffer done h = refl
  read_loop-scan buffer (broken e) h = refl
  read_loop-scan buffer (chunk value later) h =
      read_loop-chunk buffer value later h
        (read_loop-scan (scan buffer value).1 later (scan-IsPartial buffer value h))

  -- However the text is cut into chunks, the loop makes the same calls of `onProgress`, in order,
  -- and ends in the same way as one pass over the whole text: at its first result or failing
  -- line, or else as the reader ends. A last line without a line feed is not read.
  pub read_loop_lem :
      (chunks : Chunks)
      → read_loop parse_json failed ended [] chunks
        ≡ read_whole (text_of chunks) (end_of ended chunks)
  unfolding read_whole read_scan
  read_loop_lem chunks =
      read_loop-scan [] chunks (unfold scan in refl)
      ∙ rw (read_whole, complete_lines-split [] (text_of chunks) (unfold scan in refl)) refl
