-- ===== src/Prefs/Cookie/Header.antt =====
-- Reading a preference out of the header of all cookies of the page.
use agentleh_app.Base.{
  ℕ, Bool, true, false, not, List, [], ◌∷◌, ◌++◌, Option, none, some, Text, starts_with, text_eq,
  text_eq_iff, trim_start, is_space, split, split_from, split_from-append, lacks, drop, length, map,
  append-nil, All, if◌then◌else◌, ◌≡◌, refl, ◌∙◌, sym, ap, arith, Bool-cases, inl, inr,
}
use agentleh_app.Prefs.Cookie.{decoded, read_parts, read_cookie}

abbrev pub starts_clean : Text → Bool
starts_clean [] = false
starts_clean (c ∷ s) = not (is_space c)

-- A cookie with a name that is not empty, starts with no space and holds no equals sign, and without a semicolon.
pub record IsCookie (cookie : Text × Text) : Type 0 where
  pub clean : starts_clean cookie.0 ≡ true
  pub no_equals : lacks b'=' cookie.0 ≡ true
  pub name_whole : lacks b';' cookie.0 ≡ true
  pub value_whole : lacks b';' cookie.1 ≡ true

abbrev pub cookie_text : Text × Text → Text
cookie_text (name, value) = name ++ b'=' ∷ value

-- `document.cookie`, as a browser joins the cookies of a page.
abbrev pub header_of : List (Text × Text) → Text
header_of [] = []
header_of (c ∷ []) = cookie_text c
header_of (c ∷ d ∷ cs) = cookie_text c ++ b';' ∷ b' ' ∷ header_of (d ∷ cs)

-- The first cookie of a name, decoded where that succeeds.
abbrev pub first_named : (Text → Option Text) → Text → List (Text × Text) → Option Text
first_named decode name [] = none
first_named decode name ((n, v) ∷ cs) =
    let later = first_named decode name cs in
    if text_eq n name then some (decoded decode v) else later

lacks-append :
    (sep : ℕ) (a b : Text) → lacks sep a ≡ true → lacks sep b ≡ true → lacks sep (a ++ b) ≡ true
unfolding lacks
lacks-append sep [] b h k = k
lacks-append sep (c ∷ a) b h k = ground (arith, lacks-append sep a b)

pub cookie_text-lacks : (c : Text × Text) → IsCookie c → lacks b';' (cookie_text c) ≡ true
cookie_text-lacks (n, v) h =
    lacks-append b';' n (b'=' ∷ v) h.name_whole (unfold lacks in h.value_whole)

trim_start-cookie_text : (c : Text × Text) → IsCookie c → trim_start (cookie_text c) ≡ cookie_text c
unfolding trim_start
trim_start-cookie_text ([], v) h = absurd (ground (arith, h.clean))
trim_start-cookie_text (c ∷ n, v) h = ground (arith, h.clean)

-- A cookie starts with a name and an equals sign exactly when it has that name.
starts_with-named :
    (n name v : Text)
    → lacks b'=' n ≡ true
    → lacks b'=' name ≡ true
    → starts_with (n ++ b'=' ∷ v) (name ++ b'=' ∷ []) ≡ text_eq n name
unfolding starts_with text_eq lacks
starts_with-named [] [] v h k = refl
starts_with-named [] (d ∷ name) v h k = ground arith
starts_with-named (c ∷ n) [] v h k = ground arith
starts_with-named (c ∷ n) (d ∷ name) v h k = ground (arith, starts_with-named n name v)

drop-named : (name v : Text) → drop (length (name ++ b'=' ∷ [])) (name ++ b'=' ∷ v) ≡ v
drop-named [] v = refl
drop-named (c ∷ name) v = drop-named name v

split_from-whole : (cur a : Text) → lacks b';' a ≡ true → split_from b';' cur a ≡ (cur ++ a) ∷ []
unfolding split_from
split_from-whole cur a h =
    ap (λ (t : Text). split_from b';' cur t) (sym (append-nil a))
    ∙ split_from-append b';' cur a [] h

split_from-header_of :
    (c : Text × Text) (cs : List (Text × Text)) (cur : Text)
    → All IsCookie (c ∷ cs)
    → split_from b';' cur (header_of (c ∷ cs))
      ≡ (cur ++ cookie_text c) ∷ map (λ d. b' ' ∷ cookie_text d) cs
unfolding split_from
split_from-header_of c [] cur (h, hs) = split_from-whole cur (cookie_text c) (cookie_text-lacks c h)
split_from-header_of c (d ∷ cs) cur (h, hs) =
    split_from-append b';' cur (cookie_text c) (b';' ∷ b' ' ∷ header_of (d ∷ cs))
      (cookie_text-lacks c h)
    ∙ ap (λ (l : List Text). (cur ++ cookie_text c) ∷ l) (split_from-header_of d cs (b' ' ∷ []) hs)

module _ (decode : Text → Option Text) (name : Text) (no_equals : lacks b'=' name ≡ true) where
  read_parts-cookie :
      (c : Text × Text) (part : Text) (parts : List Text)
      → IsCookie c
      → trim_start part ≡ cookie_text c
      → read_parts decode (name ++ b'=' ∷ []) (part ∷ parts) ≡ (
          if text_eq c.0 name
          then some (decoded decode c.1)
          else read_parts decode (name ++ b'=' ∷ []) parts)
  unfolding read_parts
  read_parts-cookie (n, v) part parts h e = elim (Bool-cases (text_eq n name)) [
    | inl q ↦
        let dropped : drop (length (name ++ b'=' ∷ [])) (n ++ b'=' ∷ v) ≡ v =
          rw ((text_eq_iff n name).0 q) (drop-named name v) in
        rw (e, starts_with-named n name v h.no_equals no_equals, q)
          (ap (λ (t : Text). some (decoded decode t)) dropped)
    | inr q ↦ rw (e, starts_with-named n name v h.no_equals no_equals, q) refl
  ]

  read_parts-map :
      (cs : List (Text × Text))
      → All IsCookie cs
      → read_parts decode (name ++ b'=' ∷ []) (map (λ d. b' ' ∷ cookie_text d) cs)
        ≡ first_named decode name cs
  read_parts-map [] h = unfold read_parts in refl
  read_parts-map (c ∷ cs) (h, hs) =
      read_parts-cookie c (b' ' ∷ cookie_text c) (map (λ d. b' ' ∷ cookie_text d) cs) h
        (unfold trim_start is_space in trim_start-cookie_text c h)
      ∙ rw (read_parts-map cs hs) refl

  -- A cookie is read back out of the header by its name: the first one of that name, and none where there is none.
  pub read_cookie-header_of :
      (c : Text × Text) (cs : List (Text × Text))
      → All IsCookie (c ∷ cs)
      → read_cookie decode name (header_of (c ∷ cs)) ≡ first_named decode name (c ∷ cs)
  unfolding read_cookie split
  read_cookie-header_of c cs (h, hs) =
      ap (read_parts decode (name ++ b'=' ∷ [])) (split_from-header_of c cs [] (h, hs))
      ∙ read_parts-cookie c (cookie_text c) (map (λ d. b' ' ∷ cookie_text d) cs) h
          (trim_start-cookie_text c h)
      ∙ rw (read_parts-map cs hs) refl
