-- ===== src/Admin/Wanted.antt =====
-- What the state of the administration holds of wanted calls and typed texts, and the handlers that keep it.
use agentleh_app.Base.{
  ℕ, Bool, true, false, not, List, [], ◌∷◌, Option, none, some, Text, text_eq, text_eq_sound, ◌≡◌,
  refl, arith, All, inl, inr, Bool-cases, Option-cases, if_elim, is_empty, if◌then◌else◌,
}
use agentleh_app.Admin.State.{
  Target, Switching, Call, get_overview, get_detail, rotate_key, delete_agent, set_model, set_role,
  Waiter, Admin, calling,
}
use agentleh_app.Admin.Page.{
  reload, select, handle_delete_agent, handle_confirm_delete_agent, handle_switch_model,
  handle_confirm_switch_model, model_or_default, modal_text, new_role,
}
use agentleh_app.Admin.Runs.{
  Action, Event, does, rotated, delete_asked, typed, model_chosen, promoted, arrived,
}

-- `Wanted` is a set of calls, and `Typed` one of texts.
module _ (Wanted : Call → Type 0) (Typed : Text → Type 0) where
  abbrev pub Allowed : Action → Type 0
  Allowed (delete_asked agent (some tenant) name) = Wanted (delete_agent tenant agent)
  Allowed (typed text) = Typed text
  Allowed (model_chosen agent current new) =
      text_eq (model_or_default current) new ≡ false → Wanted (set_model agent new)
  Allowed (rotated agent agreed) = agreed ≡ true → Wanted (rotate_key agent)
  Allowed (promoted user role agreed) = agreed ≡ true → Wanted (set_role user (new_role role))
  Allowed _ = Unit

  abbrev pub Permitted : Event → Type 0
  Permitted (does a) = Allowed a
  Permitted (arrived n a) = Unit

  abbrev pub Granted : Call → Type 0
  Granted get_overview = Unit
  Granted (get_detail agent) = Unit
  Granted (rotate_key agent) = Wanted (rotate_key agent)
  Granted (delete_agent tenant agent) =
      Wanted (delete_agent tenant agent) × (is_empty agent ≡ false → Typed agent)
  Granted (set_model agent model) = Wanted (set_model agent model)
  Granted (set_role user role) = Wanted (set_role user role)

  pub record IsPermitted (deleting : Option Target) (confirm_text : Text)
      (switching : Option Switching) (calls : List Call) : Type 0 where
    pub target : (d : Target) → deleting ≡ some d → Wanted (delete_agent d.tenant_id d.agent_id)
    pub text : is_empty confirm_text ≡ false → Typed confirm_text
    pub model : (w : Switching) → switching ≡ some w → Wanted (set_model w.agent_id w.to)
    pub granted : All Granted calls

  abbrev pub Invariant : Admin → Type 0
  Invariant s = IsPermitted s.deleting s.confirm_text s.switching s.calls

  -- A call is made, and no more is to be deleted or switched than before.
  pub called :
      {d : Option Target} {t : Text} {w : Option Switching} {cs : List Call} (c : Call)
      → Granted c
      → IsPermitted d t w cs
      → IsPermitted d t w (c ∷ cs)
  called c g h = record {
    target = h.target;
    text = h.text;
    model = h.model;
    granted = (g, h.granted);
  }

  pub no_target :
      {d : Option Target} {t : Text} {w : Option Switching} {cs : List Call}
      → IsPermitted d t w cs
      → IsPermitted none [] w cs
  no_target h = record {
    target = λ d e. absurd (ground arith);
    text = λ q. absurd (ground arith);
    model = h.model;
    granted = h.granted;
  }

  pub no_text :
      {d : Option Target} {t : Text} {w : Option Switching} {cs : List Call}
      → IsPermitted d t w cs
      → IsPermitted d [] w cs
  no_text h = record {
    target = h.target;
    text = λ q. absurd (ground arith);
    model = h.model;
    granted = h.granted;
  }

  pub no_switch :
      {d : Option Target} {t : Text} {w : Option Switching} {cs : List Call}
      → IsPermitted d t w cs
      → IsPermitted d t none cs
  no_switch h = record {
    target = h.target;
    text = h.text;
    model = λ w e. absurd (ground arith);
    granted = h.granted;
  }

  pub reload-Invariant : (w : Waiter) (s : Admin) → Invariant s → Invariant (reload w s)
  unfolding reload
  reload-Invariant w s h = called get_overview tt (no_text h)

  pub select-Invariant : (a : Option Text) (s : Admin) → Invariant s → Invariant (select a s)
  unfolding select
  select-Invariant none s h = h
  select-Invariant (some a) s h = elim (Option-cases s.selected) [
    | inl e ↦ rw e (if_elim Invariant (is_empty a) _ _ h (called (get_detail a) tt h))
    | inr (b, e) ↦ rw e (
        if_elim Invariant (is_empty a) _ _ h
          (if_elim Invariant (text_eq b a) _ _ h (called (get_detail a) tt h)))
  ]

  pub asked-Invariant :
      (agent : Text) (tenant : Option ℕ) (name : Option Text) (s : Admin)
      → Allowed (delete_asked agent tenant name)
      → Invariant s
      → Invariant (handle_delete_agent agent tenant name s)
  unfolding handle_delete_agent
  asked-Invariant agent none name s p h = h
  asked-Invariant agent (some tenant) name s p h = record {
    target = λ d e.
        let same : agent ≡ d.agent_id = ground arith in
        let here : tenant ≡ d.tenant_id = ground arith in rw (← same, ← here) p;
    text = kept s.deleting s.confirm_text h.text;
    model = h.model;
    granted = h.granted;
  }
    where
      kept :
          (d : Option Target) (t : Text)
          → (is_empty t ≡ false → Typed t)
          → is_empty (modal_text d t) ≡ false
          → Typed (modal_text d t)
      kept none t f q = absurd (ground arith)
      kept (some d) t f q = f q

  typed_id :
      (t a : Text)
      → text_eq t a ≡ true
      → (is_empty t ≡ false → Typed t)
      → is_empty a ≡ false
      → Typed a
  typed_id t a e f q = let same : t ≡ a = text_eq_sound t a e in rw (← same) (f (rw same q))

  pub deleted-Invariant : (s : Admin) → Invariant s → Invariant (handle_confirm_delete_agent s)
  unfolding handle_confirm_delete_agent
  deleted-Invariant s h = elim (Option-cases s.deleting) [
    | inl e ↦ rw (handle_confirm_delete_agent, e) h
    | inr (d, e) ↦ elim (Bool-cases (text_eq s.confirm_text d.agent_id)) [
      | inl q ↦
          rw (handle_confirm_delete_agent, e, q)
            (if_elim Invariant (not s.delete_in_progress) _ s
              (called (delete_agent d.tenant_id d.agent_id)
                (h.target d e, typed_id s.confirm_text d.agent_id q h.text) h)
              h)
      | inr q ↦ rw (handle_confirm_delete_agent, e, q) h
    ]
  ]

  pub switched-Invariant : (s : Admin) → Invariant s → Invariant (handle_confirm_switch_model s)
  unfolding handle_confirm_switch_model
  switched-Invariant s h = elim (Option-cases s.switching) [
    | inl e ↦ rw (handle_confirm_switch_model, e) h
    | inr (w, e) ↦
        rw (handle_confirm_switch_model, e)
          (if_elim Invariant s.switch_in_progress _ _ h
            (called (set_model w.agent_id w.to) (h.model w e) h))
  ]

  pub chosen-Invariant :
      (agent : Text) (current : Option Text) (new : Text) (s : Admin)
      → Allowed (model_chosen agent current new)
      → Invariant s
      → Invariant (handle_switch_model agent current new s)
  unfolding handle_switch_model
  chosen-Invariant agent current new s p h =
      elim (Bool-cases (text_eq (model_or_default current) new)) [
        | inl e ↦ rw (handle_switch_model, e) h
        | inr e ↦
            rw (handle_switch_model, e)
              (record {
                target = h.target;
                text = h.text;
                model = λ w q.
                    let same : agent ≡ w.agent_id = ground arith in
                    let to : new ≡ w.to = ground arith in rw (← same, ← to) (p e);
                granted = h.granted;
              })
      ]

  pub agreed-Invariant :
      (b : Bool) (c : Call) (s : Admin)
      → (b ≡ true → Granted c)
      → Invariant s
      → Invariant (if b then calling c s else s)
  agreed-Invariant true c s p h = called c (p refl) h
  agreed-Invariant false c s p h = h
