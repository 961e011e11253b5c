-- ===== src/Admin/Requests.antt =====
-- The calls of the handlers of `AdminPage` as requests of frontend/src/lib/api.ts. The components under the page make
-- others: `adminGrantPlan` (Admin/Grant), `adminSetCouponDisabled` and `adminCreateCoupon` (Admin/Coupons), and those that
-- only read.
use agentleh_app.Base.{List, [], ◌∷◌, Text, All, ◌≡◌, ◌⊎◌, ◌∙◌, inl, inr, refl}
use agentleh_app.Js.{str}
use agentleh_app.Net.{
  get, Service, Effect, got_session, refreshed, signed_out, fetched, start, auth_fetch,
}
use agentleh_app.Net.Retry.{SameCall, auth_fetch-SameCall}
use agentleh_app.Api.{Encoder, Endpoint}
use agentleh_app.Api.Admin.{
  get_admin_overview, get_admin_agent_detail, rotate_meter_key, set_user_role, set_agent_model,
}
use agentleh_app.Api.Agents as Agents
use agentleh_app.Admin.State.{
  Tab, Call, get_overview, get_detail, rotate_key, delete_agent, set_model, set_role,
}
use agentleh_app.Admin.Runs.{Event, run, mounted}
use agentleh_app.Admin.Wanted.{Permitted, Granted}
use agentleh_app.Admin.Permits.{run-mounted-Granted}

unfoldable pub endpoint : Encoder → Call → Endpoint
endpoint enc get_overview = get_admin_overview enc
endpoint enc (get_detail agent) = get_admin_agent_detail enc agent
endpoint enc (rotate_key agent) = rotate_meter_key enc agent
endpoint enc (delete_agent tenant agent) = Agents.delete_agent enc tenant agent
endpoint enc (set_model agent model) = set_agent_model enc agent (str model)
endpoint enc (set_role user role) = set_user_role enc user role

-- The effects of a call, the latest first.
unfoldable pub effects_of : {E : Type 0} → Service E → Encoder → E → Call → List Effect
effects_of svc enc env c =
    (auth_fetch svc (endpoint enc c).url (endpoint enc c).init (start env)).1.log

module _ {E : Type 0} (svc : Service E) (enc : Encoder) (Wanted : Call → Type 0)
    (Typed : Text → Type 0) where
  -- A request only reads, or is one of a wanted call, by its url, its method and its body.
  abbrev pub IsBacked : Effect → Type 0
  IsBacked (fetched r) =
      (r.method ≡ get)
      ⊎ ((c : Call) × Wanted c × SameCall (endpoint enc c).url (endpoint enc c).init (fetched r))
  IsBacked got_session = Unit
  IsBacked refreshed = Unit
  IsBacked signed_out = Unit

  reading :
      (c : Call) (fx : List Effect)
      → (endpoint enc c).init.method ≡ get
      → All (SameCall (endpoint enc c).url (endpoint enc c).init) fx
      → All IsBacked fx
  reading c [] g h = tt
  reading c (fetched r ∷ fx) g ((_, m, _), h) = (inl (m ∙ g), reading c fx g h)
  reading c (got_session ∷ fx) g (_, h) = (tt, reading c fx g h)
  reading c (refreshed ∷ fx) g (_, h) = (tt, reading c fx g h)
  reading c (signed_out ∷ fx) g (_, h) = (tt, reading c fx g h)

  changing :
      (c : Call) (fx : List Effect)
      → Wanted c
      → All (SameCall (endpoint enc c).url (endpoint enc c).init) fx
      → All IsBacked fx
  changing c [] w h = tt
  changing c (fetched r ∷ fx) w (p, h) = (inr (c, w, p), changing c fx w h)
  changing c (got_session ∷ fx) w (_, h) = (tt, changing c fx w h)
  changing c (refreshed ∷ fx) w (_, h) = (tt, changing c fx w h)
  changing c (signed_out ∷ fx) w (_, h) = (tt, changing c fx w h)

  same :
      (env : E) (c : Call)
      → All (SameCall (endpoint enc c).url (endpoint enc c).init) (effects_of svc enc env c)
  unfolding effects_of
  same env c = auth_fetch-SameCall svc (endpoint enc c).url (endpoint enc c).init env

  effects_of-IsBacked :
      (env : E) (c : Call) → Granted Wanted Typed c → All IsBacked (effects_of svc enc env c)
  effects_of-IsBacked env get_overview g =
      reading get_overview _ (unfold endpoint get_admin_overview in refl) (same env get_overview)
  effects_of-IsBacked env (get_detail a) g =
      reading (get_detail a) _ (unfold endpoint get_admin_agent_detail in refl)
        (same env (get_detail a))
  effects_of-IsBacked env (rotate_key a) g = changing (rotate_key a) _ g (same env (rotate_key a))
  effects_of-IsBacked env (delete_agent t a) (g, _) =
      changing (delete_agent t a) _ g (same env (delete_agent t a))
  effects_of-IsBacked env (set_model a m) g =
      changing (set_model a m) _ g (same env (set_model a m))
  effects_of-IsBacked env (set_role u r) g = changing (set_role u r) _ g (same env (set_role u r))

  all-IsBacked :
      (env : E) (cs : List Call)
      → All (Granted Wanted Typed) cs
      → All (λ c. All IsBacked (effects_of svc enc env c)) cs
  all-IsBacked env [] h = tt
  all-IsBacked env (c ∷ cs) (g, h) = (effects_of-IsBacked env c g, all-IsBacked env cs h)

  -- What leaves the browser for the handlers of `AdminPage` itself in a run of the page, retries with a new token
  -- included; its tabs for coupons, statistics and tenants and the dialog that grants a plan, which make requests of
  -- their own, are left out. Where the calls that rows, choices of a model and agreed dialogs ask for are all in one set,
  -- and the texts that are typed in another, every request either is a GET, or has the url, the method and the body of a
  -- call of that set.
  pub run-mounted-IsBacked :
      (env : E) (es : List Event) (tab : Tab)
      → All (Permitted Wanted Typed) es
      → All (λ c. All IsBacked (effects_of svc enc env c)) (run es (mounted tab)).calls
  run-mounted-IsBacked env es tab p =
      all-IsBacked env (run es (mounted tab)).calls (run-mounted-Granted Wanted Typed es tab p)
