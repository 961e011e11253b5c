-- ===== src/Voices.antt =====
-- The picker of an agent's voice, frontend/src/components/VoicePicker.tsx, with the value that its parent keeps: the
-- parents give a setter of their state for `onChange`. State updates of one callback are applied together, before the
-- effect that follows them.
pub mod Found
pub mod InGender
use agentleh_app.Base.{
  find, ℕ, zero, suc, Bool, true, false, not, ◌&&◌, List, [], ◌∷◌, Option, none, some, Text, codes,
  is_empty, text_eq, keep, if◌then◌else◌,
}
use agentleh_app.Js.{Outcome, ok, throw}

pub data Gender : Type 0 where
  female male : Gender

-- `VoiceManifestEntry`; its address is the one of the build.
pub record Voice : Type 0 where
  pub name : Text
  pub gender : Gender
  pub url : Text

pub record Manifest : Type 0 where
  pub default_voice : Text
  pub voices : List Voice

pub record Picker : Type 0 where
  pub manifest : Option Manifest
  pub failed : Bool  -- `error`
  pub filter : Option Gender  -- none for all
  pub playing : Option Text
  pub audio : Option Text  -- the address that the audio element has
  pub value : Text
  pub locked_gender : Option Gender
  pub mount_value : Text  -- `value` and `fallbackDefault` as the first effect sees them
  pub fallback_default : Option Text
  pub in_flight : Bool

abbrev pub same_gender : Gender → Gender → Bool
same_gender female female = true
same_gender male male = true
same_gender _ _ = false

abbrev pub has_name : Text → Voice → Bool
has_name name v = text_eq v.name name

abbrev pub or_else {ℓ} : {A : Type ℓ} → Option A → Option A → Option A
or_else none b = b
or_else (some a) b = some a

unfoldable pub preferred_default : Gender → Text
preferred_default male = codes "Puck"
preferred_default female = codes "Kore"

-- The voice that the selection snaps to.
unfoldable pub pick_voice : Gender → List Voice → Option Voice
unfolding find preferred_default
pick_voice g vs =
    or_else (find (λ v. same_gender v.gender g && has_name (preferred_default g) v) vs)
      (find (λ v. same_gender v.gender g) vs)

-- Whether the selected voice is of a gender.
unfoldable pub is_of : Gender → Option Voice → Bool
is_of g none = false
is_of g (some v) = same_gender v.gender g

unfoldable pub snap_to : Gender → List Voice → Picker → Picker
unfolding is_of pick_voice
snap_to g vs s =
    if is_of g (find (has_name s.value) vs)
    then s
    else elim (pick_voice g vs) [ none ↦ s | some v ↦ record s { value = v.name } ]

-- The effect on the gender and on the manifest.
unfoldable pub snap : Picker → Picker
unfolding snap_to
snap s = elim s.manifest [
  | none ↦ s
  | some m ↦ elim s.locked_gender [ none ↦ s | some g ↦ snap_to g m.voices s ]
]

-- `x || y` of the first effect, on the texts that it was mounted with.
unfoldable pub bootstrap : Manifest → Picker → Text
bootstrap m s =
    let default : Text = elim s.fallback_default [
      | none ↦ m.default_voice
      | some f ↦ if is_empty f then m.default_voice else f
    ] in
    if is_empty s.mount_value then default else s.value

-- The manifest arrives; the effect above runs then.
unfoldable pub manifest_arrived : Outcome Manifest → Picker → Picker
unfolding bootstrap snap
manifest_arrived (ok m) s =
    snap (record s { manifest = some m; value = bootstrap m s; in_flight = false })
manifest_arrived (throw e) s = record s { failed = true; in_flight = false }

abbrev pub same_lock : Option Gender → Option Gender → Bool
same_lock none none = true
same_lock (some a) (some b) = same_gender a b
same_lock _ _ = false

-- The parent gives another gender.
unfoldable pub lock_gender : Option Gender → Picker → Picker
unfolding snap
lock_gender g s =
    let t = record s { locked_gender = g } in if same_lock g s.locked_gender then t else snap t

-- `playSample`, up to the end of `play()`, and `pauseSample`.
unfoldable pub play_sample : Voice → Picker → Picker
play_sample v s = record s { audio = some v.url }

unfoldable pub pause_sample : Picker → Picker
pause_sample s = record s { playing = none }

unfoldable pub is_playing : Text → Picker → Bool
is_playing name s = elim s.playing [ none ↦ false | some p ↦ text_eq p name ]

unfoldable pub select_voice : Voice → Picker → Picker
unfolding pause_sample play_sample is_playing
select_voice v s =
    let t = record s { value = v.name } in
    if is_playing v.name s then pause_sample t else play_sample v t

-- `filtered`
unfoldable pub filtered : Picker → List Voice → List Voice
filtered s vs = elim (or_else s.locked_gender s.filter) [
  | none ↦ vs
  | some g ↦ keep (λ v. same_gender v.gender g) vs
]

unfoldable pub nth : ℕ → List Voice → Option Voice
nth i [] = none
nth zero (v ∷ vs) = some v
nth (suc i) (v ∷ vs) = nth i vs

-- A click on a card; there are none without a manifest.
unfoldable pub click_in : ℕ → Manifest → Picker → Picker
unfolding nth filtered select_voice
click_in i m s = elim (nth i (filtered s m.voices)) [ none ↦ s | some v ↦ select_voice v s ]

unfoldable pub click_card : ℕ → Picker → Picker
unfolding click_in
click_card i s = elim s.manifest [ none ↦ s | some m ↦ click_in i m s ]

pub data Event : Type 0 where
  arrived : Outcome Manifest → Event
  locked : Option Gender → Event
  filtering : Option Gender → Event
  clicked : ℕ → Event
  played : Text → Event
  silent : Event

-- `played` is the end of a `play()`, and `silent` its failure, the end of the sample or an error of the element.
unfoldable pub step : Event → Picker → Picker
step (arrived r) s = if s.in_flight then manifest_arrived r s else s
step (locked g) s = lock_gender g s
step (filtering g) s = record s { filter = g }
step (clicked i) s = if s.failed then s else click_card i s
step (played name) s = record s { playing = some name }
step silent s = record s { playing = none }

unfoldable pub run : List Event → Picker → Picker
run [] s = s
run (e ∷ es) s = run es (step e s)

unfoldable pub mounted : Text → Option Text → Option Gender → Picker
mounted value fallback locked_gender = record {
  manifest = none;
  failed = false;
  filter = none;
  playing = none;
  audio = none;
  value = value;
  locked_gender = locked_gender;
  mount_value = value;
  fallback_default = fallback;
  in_flight = true;
}
