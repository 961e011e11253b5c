-- ===== src/Voices/Found.antt =====
-- The voices that are found in a manifest.
use agentleh_app.Base.{
  find, find-All, ℕ, zero, suc, true, ◌&&◌, List, [], ◌∷◌, none, some, Text, ◌≡◌, arith, All, inl,
  inr, ◌⊎◌, Bool-cases, Option-cases,
}
use agentleh_app.Voices.{
  Gender, Voice, Picker, same_gender, has_name, preferred_default, pick_voice, is_of, snap_to, nth,
}

-- Every voice is the one that is found by its name.
abbrev pub HasNames : List Voice → Type 0
HasNames vs = All (λ v. find (has_name v.name) vs ≡ some v) vs

-- Where there is a voice of the gender, the selected one is of it.
abbrev pub Fits : Gender → List Voice → Text → Type 0
Fits g vs value =
    (find (λ v. same_gender v.gender g) vs ≡ none) ⊎ (is_of g (find (has_name value) vs) ≡ true)

pub nth-All :
    (P : Voice → Type 0) (i : ℕ) (vs : List Voice) (v : Voice) → All P vs → nth i vs ≡ some v → P v
unfolding nth
nth-All P i [] v h e = absurd (ground arith)
nth-All P zero (w ∷ vs) v (h, hs) e = let same : w ≡ v = ground arith in rw (← same) h
nth-All P (suc i) (w ∷ vs) v (h, hs) e = nth-All P i vs v hs e

pub named-is_of :
    (g : Gender) (vs : List Voice) (v : Voice)
    → find (has_name v.name) vs ≡ some v
    → same_gender v.gender g ≡ true
    → is_of g (find (has_name v.name) vs) ≡ true
unfolding is_of
named-is_of g vs v e q = rw e q

pub pick_voice-is_of :
    (g : Gender) (vs : List Voice) (v : Voice)
    → HasNames vs
    → pick_voice g vs ≡ some v
    → is_of g (find (has_name v.name) vs) ≡ true
unfolding pick_voice
pick_voice-is_of g vs v h e =
    elim (Option-cases
      (find (λ v. same_gender v.gender g && has_name (preferred_default g) v) vs)) [
        | inl none_preferred ↦
            let (named, of) =
              find-All (λ v. find (has_name v.name) vs ≡ some v) (λ v. same_gender v.gender g) vs v
                h (ground arith) in
            named-is_of g vs v named of
        | inr (w, q) ↦
            let same : w ≡ v = ground arith in
            let (named, both) =
              find-All (λ v. find (has_name v.name) vs ≡ some v)
                (λ v. same_gender v.gender g && has_name (preferred_default g) v) vs w h q in
            rw (← same) (named-is_of g vs w named (ground arith))
      ]

pub pick_voice-none :
    (g : Gender) (vs : List Voice)
    → pick_voice g vs ≡ none
    → find (λ v. same_gender v.gender g) vs ≡ none
unfolding pick_voice
pick_voice-none g vs e = ground arith

pub snap_to-Fits :
    (g : Gender) (vs : List Voice) (s : Picker) → HasNames vs → Fits g vs (snap_to g vs s).value
unfolding snap_to
snap_to-Fits g vs s h = elim (Bool-cases (is_of g (find (has_name s.value) vs))) [
  | inl e ↦ rw (snap_to, e) (inr e)
  | inr e ↦ elim (Option-cases (pick_voice g vs)) [
    | inl q ↦ rw (snap_to, e, q) (inl (pick_voice-none g vs q))
    | inr (v, q) ↦ rw (snap_to, e, q) (inr (pick_voice-is_of g vs v h q))
  ]
]
