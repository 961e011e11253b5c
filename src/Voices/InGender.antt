-- ===== src/Voices/InGender.antt =====
-- The selected voice is of the gender that the parent asks for.
use agentleh_app.Base.{
  find, All-keep_both, ℕ, true, false, List, [], ◌∷◌, Option, none, some, Text, ◌≡◌, ◌∙◌, refl,
  arith, All, inl, inr, Bool-cases, Option-cases, if_elim,
}
use agentleh_app.Js.{ok, throw}
use agentleh_app.Voices.{
  Gender, Voice, Manifest, Picker, same_gender, has_name, snap_to, snap, bootstrap,
  manifest_arrived, same_lock, lock_gender, play_sample, pause_sample, is_playing, select_voice,
  filtered, nth, click_in, click_card, Event, arrived, locked, filtering, clicked, played, silent,
  step, run, mounted,
}
use agentleh_app.Voices.Found.{HasNames, Fits, nth-All, named-is_of, snap_to-Fits}

abbrev pub InGender : Option Manifest → Option Gender → Text → Type 0
InGender none g value = Unit
InGender (some m) none value = Unit
InGender (some m) (some g) value = Fits g m.voices value

-- The manifest of a picker, if there is one, has names; and the selection is of the gender.
abbrev ManifestHasNames : Option Manifest → Type 0
ManifestHasNames none = Unit
ManifestHasNames (some m) = HasNames m.voices

record IsSettled (manifest : Option Manifest) (locked_gender : Option Gender) (value : Text)
    : Type 0 where
  names : ManifestHasNames manifest
  in_gender : InGender manifest locked_gender value

abbrev Invariant : Picker → Type 0
Invariant s = IsSettled s.manifest s.locked_gender s.value

names_of :
    (x : Option Manifest) (m : Manifest) → x ≡ some m → ManifestHasNames x → HasNames m.voices
names_of none m e h = absurd (ground arith)
names_of (some k) m e h = let same : k ≡ m = ground arith in rw (← same) h

snap_to-fields :
    (g : Gender) (vs : List Voice) (s : Picker)
    → ((snap_to g vs s).manifest ≡ s.manifest) × ((snap_to g vs s).locked_gender ≡ s.locked_gender)
unfolding snap_to
snap_to-fields g vs s = ground arith

place_none : (x : Option Manifest) (y : Option Gender) (v : Text) → x ≡ none → IsSettled x y v
place_none x y v e = rw e (record { names = tt; in_gender = tt })

place_free :
    (x : Option Manifest) (y : Option Gender) (v : Text) (m : Manifest)
    → x ≡ some m
    → y ≡ none
    → HasNames m.voices
    → IsSettled x y v
place_free x y v m e q h = rw (e, q) (record { names = h; in_gender = tt })

place :
    (x : Option Manifest) (y : Option Gender) (v : Text) (m : Manifest) (g : Gender)
    → x ≡ some m
    → y ≡ some g
    → HasNames m.voices
    → Fits g m.voices v
    → IsSettled x y v
place x y v m g e q h f = rw (e, q) (record { names = h; in_gender = f })

snap_to-Invariant :
    (g : Gender) (m : Manifest) (s : Picker)
    → s.manifest ≡ some m
    → s.locked_gender ≡ some g
    → HasNames m.voices
    → Invariant (snap_to g m.voices s)
snap_to-Invariant g m s e q h =
    let (a, b) = snap_to-fields g m.voices s in
    place (snap_to g m.voices s).manifest (snap_to g m.voices s).locked_gender
      (snap_to g m.voices s).value m g (a ∙ e) (b ∙ q) h (snap_to-Fits g m.voices s h)

snap-Invariant : (s : Picker) → ManifestHasNames s.manifest → Invariant (snap s)
unfolding snap
snap-Invariant s h = elim (Option-cases s.manifest) [
  | inl e ↦ rw (snap, e) (place_none s.manifest s.locked_gender s.value e)
  | inr (m, e) ↦
      let named = names_of s.manifest m e h in
      elim (Option-cases s.locked_gender) [
        | inl q ↦ rw (snap, e, q) (place_free s.manifest s.locked_gender s.value m e q named)
        | inr (g, q) ↦ rw (snap, e, q) (snap_to-Invariant g m s e q named)
      ]
]

same_lock_sound : (a b : Option Gender) → same_lock a b ≡ true → a ≡ b
same_lock_sound none none h = refl
same_lock_sound (some a) (some b) h = ground arith
same_lock_sound none (some b) h = absurd (ground arith)
same_lock_sound (some a) none h = absurd (ground arith)

lock_gender-Invariant : (g : Option Gender) (s : Picker) → Invariant s → Invariant (lock_gender g s)
unfolding lock_gender
lock_gender-Invariant g s h = elim (Bool-cases (same_lock g s.locked_gender)) [
  | inl e ↦
      let same : g ≡ s.locked_gender = same_lock_sound g s.locked_gender e in
      rw (lock_gender, e, same) h
  | inr e ↦ rw (lock_gender, e) (snap-Invariant (record s { locked_gender = g }) h.names)
]

filtered-All :
    (g : Gender) (s : Picker) (vs : List Voice)
    → s.locked_gender ≡ some g
    → HasNames vs
    → All
        (λ v. (find (has_name v.name) vs ≡ some v) × (same_gender v.gender g ≡ true))
        (filtered s vs)
unfolding filtered
filtered-All g s vs e h =
    rw e
      (All-keep_both (λ v. find (has_name v.name) vs ≡ some v) (λ v. same_gender v.gender g) vs h)

-- What a click on a voice selects.
select_voice-Invariant :
    (i : ℕ) (v : Voice) (m : Manifest) (s : Picker)
    → s.manifest ≡ some m
    → HasNames m.voices
    → nth i (filtered s m.voices) ≡ some v
    → Invariant (select_voice v s)
unfolding select_voice play_sample pause_sample
select_voice-Invariant i v m s e named found =
    if_elim Invariant (is_playing v.name s) _ _ settled settled
  where
    settled : IsSettled s.manifest s.locked_gender v.name
    settled = elim (Option-cases s.locked_gender) [
      | inl q ↦ place_free s.manifest s.locked_gender v.name m e q named
      | inr (g, q) ↦
          let (own, of) =
            nth-All
              (λ v. (find (has_name v.name) m.voices ≡ some v) × (same_gender v.gender g ≡ true)) i
              (filtered s m.voices) v (filtered-All g s m.voices q named) found in
          place s.manifest s.locked_gender v.name m g e q named
            (inr (named-is_of g m.voices v own of))
    ]

click_in-Invariant :
    (i : ℕ) (m : Manifest) (s : Picker)
    → s.manifest ≡ some m
    → Invariant s
    → Invariant (click_in i m s)
unfolding click_in
click_in-Invariant i m s e h = elim (Option-cases (nth i (filtered s m.voices))) [
  | inl q ↦ rw (click_in, q) h
  | inr (v, q) ↦
      rw (click_in, q) (select_voice-Invariant i v m s e (names_of s.manifest m e h.names) q)
]

click_card-Invariant : (i : ℕ) (s : Picker) → Invariant s → Invariant (click_card i s)
unfolding click_card
click_card-Invariant i s h = elim (Option-cases s.manifest) [
  | inl e ↦ rw (click_card, e) (place_none s.manifest s.locked_gender s.value e)
  | inr (m, e) ↦ rw (click_card, e) (click_in-Invariant i m s e h)
]

-- The manifests that arrive have names.
abbrev pub Arrives : Event → Type 0
Arrives (arrived (ok m)) = HasNames m.voices
Arrives _ = Unit

step-Invariant : (e : Event) (s : Picker) → Arrives e → Invariant s → Invariant (step e s)
unfolding step manifest_arrived
step-Invariant (arrived (ok m)) s a h =
    if_elim Invariant s.in_flight _ s
      (snap-Invariant (record s { manifest = some m; value = bootstrap m s; in_flight = false }) a)
      h
step-Invariant (arrived (throw e)) s a h = if_elim Invariant s.in_flight _ s h h
step-Invariant (locked g) s a h = lock_gender-Invariant g s h
step-Invariant (filtering g) s a h = h
step-Invariant (clicked i) s a h = if_elim Invariant s.failed s _ h (click_card-Invariant i s h)
step-Invariant (played name) s a h = h
step-Invariant silent s a h = h

run-Invariant : (es : List Event) (s : Picker) → All Arrives es → Invariant s → Invariant (run es s)
unfolding run
run-Invariant [] s a h = h
run-Invariant (e ∷ es) s (a, later) h = run-Invariant es (step e s) later (step-Invariant e s a h)

-- Where every voice of a manifest that arrives is found by its name, the picker of a parent that asks for a gender has a
-- selected voice of that gender, in whatever order genders are asked for, cards clicked and samples played, once the
-- manifest is there and has a voice of the gender.
pub run-InGender :
    (es : List Event) (value : Text) (fallback : Option Text) (g : Option Gender)
    → All Arrives es
    → let s = run es (mounted value fallback g) in InGender s.manifest s.locked_gender s.value
unfolding mounted
run-InGender es value fallback g a =
    (run-Invariant es (mounted value fallback g) a
      (record { names = tt; in_gender = tt })).in_gender
