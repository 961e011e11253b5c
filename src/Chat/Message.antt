-- ===== src/Chat/Message.antt =====
-- Reading text and roles out of the gateway's messages: `extractText`, `normalizeRole` and
-- `firstStrongIsRtl` of frontend/src/components/ChatPane.tsx.
use agentleh_app.Base.{
  ℕ, zero, suc, Bool, true, false, not, ◌&&◌, ◌||◌, List, [], ◌∷◌, ◌++◌, Option, none, some, Text,
  codes, text_eq, is_empty, trim, trim_start, if◌then◌else◌, ◌==◌, leb, length, map, keep, ◌+◌, ◌≡◌,
  refl,
}
use agentleh_app.Js.{Js, str, arr, Number, truthy, opt, items}

pub data Role : Type 0 where
  user assistant system : Role

pub record Message : Type 0 where
  pub id : Text
  pub role : Role
  pub text : Text
  pub ts : Number
  pub streaming : Bool  -- an absent `streaming` is false
  pub run_id : Option Js

-- An ASCII letter in lower case, for the expression's `i` flag.
fold_case : ℕ → ℕ
fold_case c = if leb b'A' c && leb c b'Z' then c + 32 else c

-- The text behind a word that is matched without regard to case.
after_word : Text → Text → Option Text
after_word [] s = some s
after_word (d ∷ w) [] = none
after_word (d ∷ w) (c ∷ s) = if fold_case c == d then after_word w s else none

after_char : ℕ → Text → Option Text
after_char d [] = none
after_char d (c ∷ s) = if c == d then some s else none

after_optional_char : ℕ → Text → Text
after_optional_char d [] = []
after_optional_char d (c ∷ s) = if c == d then s else c ∷ s

infixl 5 ◌>>=◌
abbrev ◌>>=◌ {ℓ κ} : {A : Type ℓ} {B : Type κ} → Option A → (A → Option B) → Option B
none >>= k = none
some a >>= k = k a

-- FINAL_TAG_RE at the start of a text: `<\s*\/?\s*final\s*>`, without regard to case. The result
-- is the text behind the tag.
unfoldable pub match_final_tag : Text → Option Text
unfolding fold_case after_word after_char after_optional_char trim_start codes
match_final_tag s = do
  inside ← after_char b'<' s
  word ← after_word (codes "final") (trim_start (after_optional_char b'/' (trim_start inside)))
  after_char b'>' (trim_start word)

-- `raw.replace(FINAL_TAG_RE, '')`. The fuel is the length of the text, and each round takes at
-- least one character.
unfoldable pub strip_tags : ℕ → Text → Text
strip_tags zero s = s
strip_tags (suc fuel) [] = []
strip_tags (suc fuel) (c ∷ s) = elim (match_final_tag (c ∷ s)) [
  | some rest ↦ strip_tags fuel rest
  | none ↦ c ∷ strip_tags fuel s
]

-- `typeof c?.text === 'string' ? c.text : ''`
unfoldable pub text_or_empty : Js → Text
text_or_empty (str s) = s
text_or_empty _ = []

-- `.filter(Boolean).join('\n')`
unfoldable pub join_lines : List Text → Text
join_lines [] = []
join_lines (x ∷ []) = x
join_lines (x ∷ y ∷ xs) = x ++ b'\n' ∷ join_lines (y ∷ xs)

unfoldable pub content_text : Js → Text
unfolding text_or_empty join_lines opt codes items keep
content_text (str s) = s
content_text (arr xs) =
    join_lines
      (keep (λ s. not (is_empty s)) (map (λ c. text_or_empty (opt c (codes "text"))) (items xs)))
content_text _ = []

raw_text : Js → Js → Text
unfolding content_text
raw_text (str s) content = s
raw_text _ content = content_text content

unfoldable pub extract_text : Js → Text
unfolding truthy raw_text opt codes strip_tags trim match_final_tag
extract_text message =
    if truthy message
    then (let raw = raw_text (opt message (codes "text")) (opt message (codes "content")) in
        trim (strip_tags (length raw) raw))
    else []

role_named : Text → Option Role
role_named s =
    if text_eq s (codes "user")
    then some user
    else if text_eq s (codes "assistant")
    then some assistant
    else if text_eq s (codes "system")
    then some system
    else none

-- `normalizeRole`, over `String.prototype.toLowerCase`.
unfoldable pub normalize_role : (Text → Text) → Js → Option Role
unfolding role_named text_eq codes
normalize_role lower (str s) = elim (role_named s) [ some r ↦ some r | none ↦ role_named (lower s) ]
normalize_role lower _ = none

-- `firstStrongIsRtl`, over the code points of the text.
unfoldable pub first_strong_is_rtl : List ℕ → Bool
first_strong_is_rtl [] = false
first_strong_is_rtl (code ∷ rest) =
    if (leb 0x590 code && leb code 0x8ff) || (leb 0xfb1d code && leb code 0xfdff)
    then true
    else if leb 0x41 code && leb code 0x7a
    then false
    else first_strong_is_rtl rest

final_tag_stripped : strip_tags 40 (codes "< /FINAL >hi <b><final>") ≡ codes "hi <b>"
unfolding strip_tags match_final_tag codes
final_tag_stripped = refl
