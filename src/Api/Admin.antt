-- ===== src/Api/Admin.antt =====
-- The superadmin calls of frontend/src/lib/api.ts.
use agentleh_app.Base.{ℕ, Bool, [], ◌∷◌, ◌++◌, Text, codes, decimal, if◌then◌else◌}
use agentleh_app.Js.{Js, str, obj, arr, null, Error, error, or_js, prop, fields, ok, throw}
use agentleh_app.Net.{get, post, patch, Response}
use agentleh_app.Api.{Encoder, Endpoint, path, plain, with_body, body_or_empty, fixed, detail_error}

-- `typeof body.detail === 'object' ? JSON.stringify(body.detail) : body.detail`
unfoldable pub detail_text : Encoder → Js → Js
detail_text enc null = str (enc.stringify null)
detail_text enc (obj fs) = str (enc.stringify (obj fs))
detail_text enc (arr xs) = str (enc.stringify (arr xs))
detail_text enc v = v

-- The error of `setAgentModel`; `body.detail` throws where the body is `null`.
unfoldable pub model_failure : Encoder → Response → Error
unfolding detail_text
model_failure enc res = elim (prop (body_or_empty res) (codes "detail")) [
  | throw e ↦ e
  | ok detail ↦
      (error (
        or_js (detail_text enc detail)
          (str (codes "Model switch failed (" ++ decimal res.status ++ codes ")"))))
]

unfoldable pub get_admin_llm_analytics : Encoder → ℕ → Endpoint
get_admin_llm_analytics enc window_days = record {
  url =
      path (codes "api" ∷ codes "admin" ∷ codes "analytics" ∷ codes "llm" ∷ [])
      ++ codes "?window_days="
      ++ decimal window_days;
  init = plain get;
  failure = fixed (codes "LLM analytics failed");
}

-- Disabling and enabling are two endpoints.
unfoldable pub admin_set_coupon_disabled : Encoder → ℕ → Bool → Endpoint
admin_set_coupon_disabled enc coupon_id disabled = record {
  url = path (
      codes "api"
      ∷ codes "admin"
      ∷ codes "coupons"
      ∷ decimal coupon_id
      ∷ (if disabled then codes "disable" else codes "enable")
      ∷ []);
  init = plain post;
  failure = fixed (codes "Toggle coupon failed");
}

unfoldable pub get_admin_overview : Encoder → Endpoint
get_admin_overview enc = record {
  url = path (codes "api" ∷ codes "admin" ∷ codes "overview" ∷ []);
  init = plain get;
  failure = fixed (codes "Admin overview failed");
}

unfoldable pub get_admin_vm_stats : Encoder → Endpoint
get_admin_vm_stats enc = record {
  url = path (codes "api" ∷ codes "admin" ∷ codes "vm-stats" ∷ []);
  init = plain get;
  failure = fixed (codes "VM stats failed");
}

unfoldable pub get_admin_agent_detail : Encoder → Text → Endpoint
get_admin_agent_detail enc agent_id = record {
  url = path (codes "api" ∷ codes "admin" ∷ codes "agents" ∷ enc.encode agent_id ∷ []);
  init = plain get;
  failure = fixed (codes "Agent detail failed");
}

unfoldable pub rotate_meter_key : Encoder → Text → Endpoint
rotate_meter_key enc agent_id = record {
  url = path (
      codes "api"
      ∷ codes "admin"
      ∷ codes "agents"
      ∷ enc.encode agent_id
      ∷ codes "keys"
      ∷ codes "rotate"
      ∷ []);
  init = plain post;
  failure = fixed (codes "Key rotation failed");
}

unfoldable pub set_user_role : Encoder → ℕ → Text → Endpoint
set_user_role enc user_id role = record {
  url = path (codes "api" ∷ codes "admin" ∷ codes "users" ∷ decimal user_id ∷ codes "role" ∷ []);
  init = with_body post (obj (fields ((codes "role", str role) ∷ [])));
  failure = fixed (codes "Role update failed");
}

unfoldable pub set_agent_model : Encoder → Text → Js → Endpoint
set_agent_model enc agent_id model = record {
  url =
      path
        (codes "api" ∷ codes "admin" ∷ codes "agents" ∷ enc.encode agent_id ∷ codes "model" ∷ []);
  init = with_body patch (obj (fields ((codes "model", model) ∷ [])));
  failure = model_failure enc;
}

unfoldable pub get_live_agent_model : Encoder → Text → Endpoint
get_live_agent_model enc agent_id = record {
  url = path (
      codes "api"
      ∷ codes "admin"
      ∷ codes "agents"
      ∷ enc.encode agent_id
      ∷ codes "model"
      ∷ codes "live"
      ∷ []);
  init = plain get;
  failure = fixed (codes "Live model fetch failed");
}

unfoldable pub resync_agent_model_from_vm : Encoder → Text → Endpoint
resync_agent_model_from_vm enc agent_id = record {
  url = path (
      codes "api"
      ∷ codes "admin"
      ∷ codes "agents"
      ∷ enc.encode agent_id
      ∷ codes "model"
      ∷ codes "resync"
      ∷ []);
  init = plain post;
  failure = fixed (codes "Resync failed");
}

unfoldable pub admin_list_tenants : Encoder → Endpoint
admin_list_tenants enc = record {
  url = path (codes "api" ∷ codes "admin" ∷ codes "tenants" ∷ []);
  init = plain get;
  failure = fixed (codes "Admin tenants failed");
}

unfoldable pub admin_tenant_detail : Encoder → ℕ → Endpoint
admin_tenant_detail enc tenant_id = record {
  url = path (codes "api" ∷ codes "admin" ∷ codes "tenants" ∷ decimal tenant_id ∷ []);
  init = plain get;
  failure = fixed (codes "Admin tenant detail failed");
}

unfoldable pub admin_list_coupons : Encoder → Endpoint
admin_list_coupons enc = record {
  url = path (codes "api" ∷ codes "admin" ∷ codes "coupons" ∷ []);
  init = plain get;
  failure = fixed (codes "List coupons failed");
}

unfoldable pub admin_create_coupon : Encoder → Js → Endpoint
admin_create_coupon enc body = record {
  url = path (codes "api" ∷ codes "admin" ∷ codes "coupons" ∷ []);
  init = with_body post body;
  failure = detail_error (codes "Create coupon failed");
}

unfoldable pub admin_update_coupon : Encoder → ℕ → Js → Endpoint
admin_update_coupon enc coupon_id body = record {
  url = path (codes "api" ∷ codes "admin" ∷ codes "coupons" ∷ decimal coupon_id ∷ []);
  init = with_body patch body;
  failure = fixed (codes "Update coupon failed");
}

unfoldable pub admin_list_coupon_redemptions : Encoder → ℕ → Endpoint
admin_list_coupon_redemptions enc coupon_id = record {
  url = path (
      codes "api" ∷ codes "admin" ∷ codes "coupons" ∷ decimal coupon_id ∷ codes "redemptions" ∷ []);
  init = plain get;
  failure = fixed (codes "List redemptions failed");
}

unfoldable pub admin_grant_plan : Encoder → ℕ → Js → Endpoint
admin_grant_plan enc tenant_id body = record {
  url =
      path (
        codes "api"
        ∷ codes "admin"
        ∷ codes "tenants"
        ∷ decimal tenant_id
        ∷ codes "grant-plan"
        ∷ []);
  init = with_body post body;
  failure = detail_error (codes "Grant plan failed");
}

unfoldable pub upsert_agent_subscription : Encoder → Text → Js → Endpoint
upsert_agent_subscription enc agent_id body = record {
  url = path (
      codes "api"
      ∷ codes "admin"
      ∷ codes "agents"
      ∷ enc.encode agent_id
      ∷ codes "subscription"
      ∷ []);
  init = with_body post body;
  failure = fixed (codes "Subscription upsert failed");
}
