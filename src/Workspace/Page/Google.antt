-- ===== src/Workspace/Page/Google.antt =====
-- The return from Google's consent to the page of a workspace, frontend/src/pages/TenantPage.tsx: an effect on the first
-- rendering tells the outcome and takes it out of the address.
use agentleh_app.Base.{
  Bool, true, false, arith, ◌⊎◌, ◌≢◌, inl, inr, Bool-cases, text_eq_iff, [], Option, none, some,
  Text, codes, is_empty, text_eq, if◌then◌else◌, ◌≡◌, refl,
}
use agentleh_app.Admin.Address.{
  Params, Location, get_param, delete_param, query, get-delete_param, other-delete_param,
}

-- The alerts of the effect.
pub data Notice : Type 0 where
  google_connected google_denied google_failed : Notice

pub record Returned : Type 0 where
  pub location : Location
  pub notice : Option Notice
  pub reloads : Bool

unfoldable pub notice_of : Text → Option Notice
notice_of p =
    if text_eq p (codes "connected")
    then some google_connected
    else if text_eq p (codes "denied")
    then some google_denied
    else if text_eq p (codes "error")
    then some google_failed
    else none

-- The address loses its hash.
unfoldable pub google_effect : (Text → Params) → (Params → Text) → Location → Returned
unfolding notice_of
google_effect parse print l =
    let unchanged : Returned = record { location = l; notice = none; reloads = false } in
    elim (get_param (codes "google") (parse l.search)) [
      | none ↦ unchanged
      | some p ↦ if is_empty p then unchanged else record {
        location = record {
          pathname = l.pathname;
          search = query (print (delete_param (codes "google") (parse l.search)));
          hash = [];
        };
        notice = notice_of p;
        reloads = text_eq p (codes "connected");
      }
    ]

settled :
    (parse : Text → Params) (print : Params → Text) (l : Location) (p : Text)
    → get_param (codes "google") (parse l.search) ≡ some p
    → is_empty p ≡ false
    → (google_effect parse print l).location.search
      ≡ query (print (delete_param (codes "google") (parse l.search)))
unfolding google_effect
settled parse print l p e n = rw (google_effect, e, n) refl

-- What a run tells and does for the outcome `p` of the consent.
abbrev pub IsTold : Text → Returned → Type 0
IsTold p r =
    ((p ≡ codes "connected") × (r.notice ≡ some google_connected) × (r.reloads ≡ true))
    ⊎ ((p ≡ codes "denied") × (r.notice ≡ some google_denied) × (r.reloads ≡ false))
    ⊎ ((p ≡ codes "error") × (r.notice ≡ some google_failed) × (r.reloads ≡ false))
    ⊎ ((p ≢ codes "connected")
        × (p ≢ codes "denied")
        × (p ≢ codes "error")
        × (r.notice ≡ none)
        × (r.reloads ≡ false))

other : (p q : Text) → text_eq p q ≡ false → p ≢ q
other p q e h = absurd (ground (arith, (text_eq_iff p q).1 h))

told :
    (parse : Text → Params) (print : Params → Text) (l : Location) (p : Text)
    → get_param (codes "google") (parse l.search) ≡ some p
    → is_empty p ≡ false
    → IsTold p (google_effect parse print l)
unfolding google_effect notice_of
told parse print l p e n = elim (Bool-cases (text_eq p (codes "connected"))) [
  | inl a ↦ inl (
    (text_eq_iff p _).0 a,
    rw (google_effect, e, n, notice_of, a) refl,
    rw (google_effect, e, n, a) refl,
  )
  | inr a ↦ elim (Bool-cases (text_eq p (codes "denied"))) [
    | inl b ↦ inr (
        inl (
          (text_eq_iff p _).0 b,
          rw (google_effect, e, n, notice_of, a, b) refl,
          rw (google_effect, e, n, a) refl,
        ))
    | inr b ↦ elim (Bool-cases (text_eq p (codes "error"))) [
      | inl c ↦ inr (
          inr (
            inl (
              (text_eq_iff p _).0 c,
              rw (google_effect, e, n, notice_of, a, b, c) refl,
              rw (google_effect, e, n, a) refl,
            )))
      | inr c ↦ inr (
          inr (
            inr (
              other p _ a,
              other p _ b,
              other p _ c,
              rw (google_effect, e, n, notice_of, a, b, c) refl,
              rw (google_effect, e, n, a) refl,
            )))
    ]
  ]
]

silent :
    (parse : Text → Params) (print : Params → Text) (l : Location)
    → get_param (codes "google") (parse l.search) ≡ none
    → google_effect parse print l ≡ record { location = l; notice = none; reloads = false }
unfolding google_effect
silent parse print l e = rw (google_effect, e) refl

-- For an address with a google parameter that is not empty, and where the query that is written parses to the parameters
-- that were printed, the outcome is told once: the first run tells that the account is connected, and reloads, that the
-- consent was denied, or that it failed, as the parameter says, and any other value tells nothing; a refresh of the page
-- then changes nothing and tells nothing, and the other parameters of the address are kept.
pub google_effect-google_effect :
    (parse : Text → Params) (print : Params → Text) (l : Location) (p : Text)
    → get_param (codes "google") (parse l.search) ≡ some p
    → is_empty p ≡ false
    → parse (query (print (delete_param (codes "google") (parse l.search))))
      ≡ delete_param (codes "google") (parse l.search)
    → let there = (google_effect parse print l).location in
      IsTold p (google_effect parse print l)
      × (google_effect parse print there
          ≡ record { location = there; notice = none; reloads = false })
      × ((i : Text)
          → text_eq (codes "google") i ≡ false
          → get_param i (parse there.search) ≡ get_param i (parse l.search))
google_effect-google_effect parse print l p e n q =
    let w = settled parse print l p e n in
    (
      told parse print l p e n,
      silent parse print (google_effect parse print l).location
          (rw (w, q) (get-delete_param (codes "google") (parse l.search))),
      λ i d. rw (w, q) (other-delete_param (codes "google") i (parse l.search) d),
    )
