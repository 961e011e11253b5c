-- ===== src/Admin/Tenants/Filter.antt =====
-- Which workspaces the filter of the administration shows.
use agentleh_app.Base.{
  true, false, List, [], ◌∷◌, ◌++◌, Text, is_empty, trim, keep, starts_with, starts_with-append,
  ◌≡◌, ◌⊎◌, ◌↔◌, refl, arith, inl, inr, Bool-cases,
}
use agentleh_app.Admin.Tenants.{TenantRow, includes, or_blank, row_matches, visible_rows}

-- A text that holds another one somewhere.
abbrev pub Contains : Text → Text → Type 0
Contains s q = (a : Text) × (b : Text) × (s ≡ a ++ q ++ b)

starts_with-prefix : (s q : Text) → starts_with s q ≡ true → (b : Text) × (s ≡ q ++ b)
unfolding starts_with
starts_with-prefix s [] h = (s, refl)
starts_with-prefix [] (d ∷ q) h = absurd (ground arith)
starts_with-prefix (c ∷ s) (d ∷ q) h =
    let (b, e) = starts_with-prefix s q (ground arith) in (b, ground arith)

includes-Contains : (s q : Text) → includes s q ≡ true → Contains s q
unfolding includes
includes-Contains [] q h = let (b, e) = starts_with-prefix [] q h in ([], b, e)
includes-Contains (c ∷ s) q h = elim (Bool-cases (starts_with (c ∷ s) q)) [
  | inl p ↦ let (b, e) = starts_with-prefix (c ∷ s) q p in ([], b, e)
  | inr p ↦ let (a, b, e) = includes-Contains s q (ground arith) in (c ∷ a, b, ground arith)
]

includes-starts_with : (s q : Text) → starts_with s q ≡ true → includes s q ≡ true
unfolding includes
includes-starts_with [] q h = h
includes-starts_with (c ∷ s) q h = ground arith

includes-append : (a q b : Text) → includes (a ++ q ++ b) q ≡ true
unfolding includes
includes-append [] q b = includes-starts_with (q ++ b) q (starts_with-append q b)
includes-append (c ∷ a) q b = ground (arith, includes-append a q b)

includes_iff : (s q : Text) → (includes s q ≡ true) ↔ Contains s q
includes_iff s q = (includes-Contains s q, (λ (a, b, e). rw e (includes-append a q b)))

-- The rows of a list for which something holds, in their order, and no others.
pub data IsSelection (P : TenantRow → Type 0) : List TenantRow → List TenantRow → Type 0 where
  finished : IsSelection P [] []
  taken :
      (r : TenantRow) (rows chosen : List TenantRow)
      → P r
      → IsSelection P rows chosen
      → IsSelection P (r ∷ rows) (r ∷ chosen)
  passed :
      (r : TenantRow) (rows chosen : List TenantRow)
      → ¬ P r
      → IsSelection P rows chosen
      → IsSelection P (r ∷ rows) chosen

module _ (lower : Text → Text) where
  -- A row that a query asks for: an empty query asks for all, another one for those whose name, owner's address or slug
  -- holds it, where a missing one is empty.
  abbrev pub IsAsked : Text → TenantRow → Type 0
  IsAsked q r =
      (q ≡ [])
      ⊎ Contains (lower (or_blank r.name)) q
      ⊎ Contains (lower (or_blank r.owner_email)) q
      ⊎ Contains (lower (or_blank r.slug)) q

  row_matches-IsAsked : (q : Text) (r : TenantRow) → row_matches lower q r ≡ true → IsAsked q r
  unfolding row_matches
  row_matches-IsAsked q r h = elim (Bool-cases (includes (lower (or_blank r.name)) q)) [
    | inl a ↦ inr (inl (includes-Contains _ q a))
    | inr a ↦ elim (Bool-cases (includes (lower (or_blank r.owner_email)) q)) [
      | inl b ↦ inr (inr (inl (includes-Contains _ q b)))
      | inr b ↦ inr (inr (inr (includes-Contains (lower (or_blank r.slug)) q (ground arith))))
    ]
  ]

  IsAsked-row_matches :
      (q : Text) (r : TenantRow) → is_empty q ≡ false → IsAsked q r → row_matches lower q r ≡ true
  unfolding row_matches
  IsAsked-row_matches q r n (inl e) = absurd (ground arith)
  IsAsked-row_matches q r n (inr (inl c)) =
      ground (arith, (includes_iff (lower (or_blank r.name)) q).1 c)
  IsAsked-row_matches q r n (inr (inr (inl c))) =
      ground (arith, (includes_iff (lower (or_blank r.owner_email)) q).1 c)
  IsAsked-row_matches q r n (inr (inr (inr c))) =
      ground (arith, (includes_iff (lower (or_blank r.slug)) q).1 c)

  keep-IsSelection :
      (q : Text) (rows : List TenantRow)
      → is_empty q ≡ false
      → IsSelection (IsAsked q) rows (keep (row_matches lower q) rows)
  unfolding keep
  keep-IsSelection q [] n = finished
  keep-IsSelection q (r ∷ rows) n = elim (Bool-cases (row_matches lower q r)) [
    | inl e ↦ rw e (
        taken r rows (keep (row_matches lower q) rows) (row_matches-IsAsked q r e)
          (keep-IsSelection q rows n))
    | inr e ↦ rw e (
        passed r rows (keep (row_matches lower q) rows)
          (λ a. absurd (ground (arith, IsAsked-row_matches q r n a))) (keep-IsSelection q rows n))
  ]

  all-IsSelection : (q : Text) (rows : List TenantRow) → q ≡ [] → IsSelection (IsAsked q) rows rows
  all-IsSelection q [] e = finished
  all-IsSelection q (r ∷ rows) e = taken r rows rows (inl e) (all-IsSelection q rows e)

  empty : (q : Text) → is_empty q ≡ true → q ≡ []
  empty [] h = refl
  empty (c ∷ q) h = absurd (ground arith)

  -- The list shows, in their order, exactly the workspaces that the filter asks for, without its blanks at the ends and
  -- in lower case: all of them where it is blank, and otherwise those whose name, owner's address or slug, in lower case,
  -- holds it somewhere.
  pub visible_rows-IsSelection :
      (filter : Text) (rows : List TenantRow)
      → IsSelection (IsAsked (lower (trim filter))) rows (visible_rows lower filter rows)
  unfolding visible_rows
  visible_rows-IsSelection filter rows = elim (Bool-cases (is_empty (lower (trim filter)))) [
    | inl e ↦ rw e (all-IsSelection (lower (trim filter)) rows (empty (lower (trim filter)) e))
    | inr e ↦ rw e (keep-IsSelection (lower (trim filter)) rows e)
  ]
