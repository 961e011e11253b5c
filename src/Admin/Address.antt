-- ===== src/Admin/Address.antt =====
-- The tab in the address of `AdminPage` in frontend/src/pages/AdminPage.tsx. `URLSearchParams` parses and prints the
-- query, which are parameters; its `get`, `set` and `delete` are the platform's.
use agentleh_app.Base.{
  Bool, true, false, List, [], ◌∷◌, ◌++◌, Option, none, some, Text, codes, text_eq, text_eq_sound,
  text_eq_refl, is_empty, ◌≡◌, refl, arith, inl, inr, Bool-cases, if◌then◌else◌, ◌∙◌, sym, ap,
}
use agentleh_app.Admin.State.{Tab, agents, users, plans, coupons, tenants, stats}

abbrev pub Params : Type 0
Params = List (Text × Text)

unfoldable pub get_param : Text → Params → Option Text
get_param k [] = none
get_param k ((j, v) ∷ ps) = if text_eq j k then some v else get_param k ps

unfoldable pub delete_param : Text → Params → Params
delete_param k [] = []
delete_param k ((j, v) ∷ ps) = if text_eq j k then delete_param k ps else (j, v) ∷ delete_param k ps

unfoldable pub set_param : Text → Text → Params → Params
set_param k v [] = (k, v) ∷ []
set_param k v ((j, w) ∷ ps) =
    if text_eq j k then (k, v) ∷ delete_param k ps else (j, w) ∷ set_param k v ps

unfoldable pub tab_name : Tab → Text
tab_name agents = codes "agents"
tab_name users = codes "users"
tab_name plans = codes "plans"
tab_name coupons = codes "coupons"
tab_name tenants = codes "tenants"
tab_name stats = codes "stats"

unfoldable pub valid_tabs : List Tab
valid_tabs = agents ∷ users ∷ plans ∷ coupons ∷ tenants ∷ stats ∷ []

unfoldable pub tab_of : List Tab → Text → Tab
tab_of [] p = agents
tab_of (t ∷ ts) p = if text_eq (tab_name t) p then t else tab_of ts p

abbrev pub or_empty : Option Text → Text
or_empty none = []
or_empty (some p) = p

-- `window.location`, of which `search` holds its question mark.
pub record Location : Type 0 where
  pub pathname : Text
  pub search : Text
  pub hash : Text

abbrev pub is_agents : Tab → Bool
is_agents agents = true
is_agents _ = false

-- The query that the effect on the tab writes.
unfoldable pub with_tab : Tab → Params → Params
with_tab tab ps =
    if is_agents tab
    then delete_param (codes "tab") ps
    else set_param (codes "tab") (tab_name tab) ps

abbrev pub query : Text → Text
query qs = if is_empty qs then [] else codes "?" ++ qs

module _ (parse : Text → Params) (print : Params → Text) where
  unfoldable pub read_tab_from_url : Location → Tab
  read_tab_from_url l = tab_of valid_tabs (or_empty (get_param (codes "tab") (parse l.search)))

  -- The effect on the tab, which replaces the address.
  unfoldable pub write_tab : Tab → Location → Location
  write_tab tab l = record l { search = query (print (with_tab tab (parse l.search))) }

pub get-delete_param : (k : Text) (ps : Params) → get_param k (delete_param k ps) ≡ none
unfolding get_param delete_param
get-delete_param k [] = refl
get-delete_param k ((j, v) ∷ ps) = elim (Bool-cases (text_eq j k)) [
  | inl e ↦ rw e (get-delete_param k ps)
  | inr e ↦ rw (e, e) (get-delete_param k ps)
]

get-set_param : (k v : Text) (ps : Params) → get_param k (set_param k v ps) ≡ some v
unfolding get_param set_param
get-set_param k v [] = rw (text_eq_refl k) refl
get-set_param k v ((j, w) ∷ ps) = elim (Bool-cases (text_eq j k)) [
  | inl e ↦ rw (e, text_eq_refl k) refl
  | inr e ↦ rw (e, e) (get-set_param k v ps)
]

differ : (j k i : Text) → text_eq j k ≡ true → text_eq k i ≡ false → text_eq j i ≡ false
differ j k i e d = rw (text_eq_sound j k e) d

pub other-delete_param :
    (k i : Text) (ps : Params)
    → text_eq k i ≡ false
    → get_param i (delete_param k ps) ≡ get_param i ps
unfolding get_param delete_param
other-delete_param k i [] d = refl
other-delete_param k i ((j, v) ∷ ps) d = elim (Bool-cases (text_eq j k)) [
  | inl e ↦ rw (e, differ j k i e d) (other-delete_param k i ps d)
  | inr e ↦
      rw e
        (ap (λ (o : Option Text). if text_eq j i then some v else o) (other-delete_param k i ps d))
]

other-set_param :
    (k v i : Text) (ps : Params)
    → text_eq k i ≡ false
    → get_param i (set_param k v ps) ≡ get_param i ps
unfolding get_param set_param
other-set_param k v i [] d = rw d refl
other-set_param k v i ((j, w) ∷ ps) d = elim (Bool-cases (text_eq j k)) [
  | inl e ↦ rw (e, d, differ j k i e d) (other-delete_param k i ps d)
  | inr e ↦
      rw e
        (ap (λ (o : Option Text). if text_eq j i then some w else o) (other-set_param k v i ps d))
]

tab_of-tab_name : (tab : Tab) → tab_of valid_tabs (tab_name tab) ≡ tab
unfolding tab_of valid_tabs tab_name codes text_eq
tab_of-tab_name agents = refl
tab_of-tab_name users = refl
tab_of-tab_name plans = refl
tab_of-tab_name coupons = refl
tab_of-tab_name tenants = refl
tab_of-tab_name stats = refl

is_agents_lem : (tab : Tab) → is_agents tab ≡ true → tab ≡ agents
is_agents_lem agents e = refl
is_agents_lem users e = absurd (ground arith)
is_agents_lem plans e = absurd (ground arith)
is_agents_lem coupons e = absurd (ground arith)
is_agents_lem tenants e = absurd (ground arith)
is_agents_lem stats e = absurd (ground arith)

tab_of-none : tab_of valid_tabs [] ≡ agents
unfolding tab_of valid_tabs tab_name codes text_eq
tab_of-none = refl

-- The parameters that are written have the tab, and all else as before.
tab_of-with_tab :
    (tab : Tab) (ps : Params)
    → tab_of valid_tabs (or_empty (get_param (codes "tab") (with_tab tab ps))) ≡ tab
unfolding with_tab
tab_of-with_tab tab ps = elim (Bool-cases (is_agents tab)) [
  | inl e ↦
      rw (with_tab, e, get-delete_param (codes "tab") ps) (tab_of-none ∙ sym (is_agents_lem tab e))
  | inr e ↦ rw (with_tab, e, get-set_param (codes "tab") (tab_name tab) ps) (tab_of-tab_name tab)
]

other-with_tab :
    (tab : Tab) (i : Text) (ps : Params)
    → text_eq (codes "tab") i ≡ false
    → get_param i (with_tab tab ps) ≡ get_param i ps
unfolding with_tab
other-with_tab tab i ps d = elim (Bool-cases (is_agents tab)) [
  | inl e ↦ rw (with_tab, e) (other-delete_param (codes "tab") i ps d)
  | inr e ↦ rw (with_tab, e) (other-set_param (codes "tab") (tab_name tab) i ps d)
]

-- Where the query that is written parses to the parameters that were printed, a reload of the page opens the tab that
-- was picked, and every other parameter of the address is as it was.
pub read_tab_from_url-write_tab :
    (parse : Text → Params) (print : Params → Text) (tab : Tab) (l : Location)
    → parse (query (print (with_tab tab (parse l.search)))) ≡ with_tab tab (parse l.search)
    → (read_tab_from_url parse print (write_tab parse print tab l) ≡ tab)
      × ((i : Text)
          → text_eq (codes "tab") i ≡ false
          → get_param i (parse (write_tab parse print tab l).search) ≡ get_param i (parse l.search))
unfolding read_tab_from_url write_tab
read_tab_from_url-write_tab parse print tab l e = (
  rw e (tab_of-with_tab tab (parse l.search)),
  λ i d. rw e (other-with_tab tab i (parse l.search) d),
)
