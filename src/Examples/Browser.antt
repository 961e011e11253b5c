-- ===== src/Examples/Browser.antt =====
-- A browser whose jar is the list of the cookies that it shows, with the assignments parsed as a browser does.
use agentleh_app.Base.{
  ℕ, true, List, [], ◌∷◌, ◌++◌, Text, codes, decimal, decimal-lacks_above, digits_value,
  digits_value-decimal, lacks, split, split_from, split_from-append, drop, append_assoc, ◌==◌,
  if◌then◌else◌, ◌≡◌, refl, ◌∙◌, ap, All, arith,
}
use agentleh_app.Prefs.Cookie.Header.{IsCookie, cookie_text-lacks}
use agentleh_app.Prefs.Jar.{attribute_text, cookie_line, placed, removed, Browser}

-- The name and the value around the first equals sign.
abbrev cut : Text → Text × Text
cut [] = ([], [])
cut (c ∷ s) = let (n, v) = cut s in if c == b'=' then ([], s) else (c ∷ n, v)

cut-named : (n v : Text) → lacks b'=' n ≡ true → cut (n ++ b'=' ∷ v) ≡ (n, v)
unfolding lacks
cut-named [] v h = refl
cut-named (c ∷ n) v h = ground (arith, cut-named n v)

-- The parts of an assignment: the cookie, its path, its age and the rest.
abbrev assigned : List Text → List (Text × Text) → List (Text × Text)
assigned (cookie ∷ path ∷ age ∷ rest) j =
    let (n, v) = cut cookie in
    if digits_value 0 (drop 9 age) == 0 then removed n j else placed n v j
assigned _ j = j

parts_of :
    (name value : Text) (age : ℕ) (more : List Text)
    → lacks b';' (name ++ b'=' ∷ value) ≡ true
    → split b';' (cookie_line name value age more)
      ≡ (name ++ b'=' ∷ value)
        ∷ codes " Path=/"
        ∷ (codes " Max-Age=" ++ decimal age)
        ∷ split_from b';' [] (codes " SameSite=Lax" ++ attribute_text more)
unfolding split split_from codes
parts_of name value age more h =
    ap (λ (t : Text). split b';' t) whole
    ∙ split_from-append b';' [] (name ++ b'=' ∷ value)
        (codes "; Path=/; Max-Age="
          ++ (decimal age ++ (codes "; SameSite=Lax" ++ attribute_text more)))
        h
    ∙ ap (λ (parts : List Text). (name ++ b'=' ∷ value) ∷ codes " Path=/" ∷ parts)
        (split_from-append b';' (codes " Max-Age=") (decimal age)
          (codes "; SameSite=Lax" ++ attribute_text more)
          (decimal-lacks_above b';' age (omega arith)))
  where
    whole :
        cookie_line name value age more
        ≡ (name ++ b'=' ∷ value)
          ++ (codes "; Path=/; Max-Age="
              ++ (decimal age ++ (codes "; SameSite=Lax" ++ attribute_text more)))
    whole = unfold codes in simp append_assoc

pub set_lem :
    (name value : Text) (age : ℕ) (more : List Text) (j : List (Text × Text))
    → IsCookie (name, value)
    → assigned (split b';' (cookie_line name value age more)) j
      ≡ (if age == 0 then removed name j else placed name value j)
set_lem name value age more j c =
    ap (λ (parts : List Text). assigned parts j)
      (parts_of name value age more (cookie_text-lacks (name, value) c))
    ∙ rw (cut-named name value c.no_equals) (
        ap (λ (n : ℕ). if n == 0 then removed name j else placed name value j)
          (unfold codes in digits_value-decimal age))

abbrev pub browser : Browser (List (Text × Text))
browser = record {
  cookies = λ j. j;
  assign = λ t j. assigned (split b';' t) j;
  IsOwn = λ name more j. All IsCookie j;
  cookies-IsCookie = λ name more j own. own;
  assign-cookies = λ name value age more j own c. set_lem name value age more j c;
}
