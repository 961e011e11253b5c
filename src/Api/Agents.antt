-- ===== src/Api/Agents.antt =====
-- The calls on one agent of a workspace of frontend/src/lib/api.ts, and on its reminders.
use agentleh_app.Base.{ℕ, [], ◌∷◌, ◌++◌, Option, none, some, Text, codes, decimal}
use agentleh_app.Js.{Js, str, Error, error, ok, throw}
use agentleh_app.Net.{get, post, patch, delete, Response}
use agentleh_app.Api.{
  Encoder, Endpoint, path, plain, with_body, fixed, detail_error, detail_message,
}

unfoldable pub get_agent_voice : Encoder → ℕ → Text → Endpoint
get_agent_voice enc tenant_id agent_id = record {
  url = path (
      codes "api"
      ∷ codes "tenants"
      ∷ decimal tenant_id
      ∷ codes "agents"
      ∷ enc.encode agent_id
      ∷ codes "voice"
      ∷ []);
  init = plain get;
  failure = fixed (codes "Get agent voice failed");
}

unfoldable pub update_agent_voice : Encoder → ℕ → Text → Js → Endpoint
update_agent_voice enc tenant_id agent_id update = record {
  url = path (
      codes "api"
      ∷ codes "tenants"
      ∷ decimal tenant_id
      ∷ codes "agents"
      ∷ enc.encode agent_id
      ∷ codes "voice"
      ∷ []);
  init = with_body patch update;
  failure = detail_error (codes "Update voice failed");
}

unfoldable pub delete_agent : Encoder → ℕ → Text → Endpoint
delete_agent enc tenant_id agent_id = record {
  url = path (
      codes "api"
      ∷ codes "tenants"
      ∷ decimal tenant_id
      ∷ codes "agents"
      ∷ enc.encode agent_id
      ∷ []);
  init = plain delete;
  failure = detail_message (codes "Delete agent failed");
}

-- The request of `provisionTenantAgent`, whose ok response is read as a stream.
unfoldable pub provision_tenant_agent : Encoder → ℕ → Js → Endpoint
provision_tenant_agent enc tenant_id body = record {
  url = path (codes "api" ∷ codes "tenants" ∷ decimal tenant_id ∷ codes "agents" ∷ []);
  init = with_body post body;
  failure = detail_message (codes "Provision failed");
}

unfoldable pub get_agent_integrations : Encoder → ℕ → Text → Endpoint
get_agent_integrations enc tenant_id agent_id = record {
  url = path (
      codes "api"
      ∷ codes "tenants"
      ∷ decimal tenant_id
      ∷ codes "agents"
      ∷ enc.encode agent_id
      ∷ codes "integrations"
      ∷ []);
  init = plain get;
  failure = fixed (codes "Failed to load integrations");
}

unfoldable pub start_google_connect : Encoder → ℕ → Text → Js → Endpoint
start_google_connect enc tenant_id agent_id opts = record {
  url = path (
      codes "api"
      ∷ codes "tenants"
      ∷ decimal tenant_id
      ∷ codes "agents"
      ∷ enc.encode agent_id
      ∷ codes "integrations"
      ∷ codes "google"
      ∷ codes "connect"
      ∷ []);
  init = with_body post opts;
  failure = detail_message (codes "Failed to start Google connect flow");
}

unfoldable pub disconnect_google : Encoder → ℕ → Text → Endpoint
disconnect_google enc tenant_id agent_id = record {
  url = path (
      codes "api"
      ∷ codes "tenants"
      ∷ decimal tenant_id
      ∷ codes "agents"
      ∷ enc.encode agent_id
      ∷ codes "integrations"
      ∷ codes "google"
      ∷ []);
  init = plain delete;
  failure = fixed (codes "Failed to disconnect Google");
}

-- `${message} (${res.status}): ${detail}`, with the response's text, or its status text where that cannot be read.
unfoldable pub reminder_failure : Text → Response → Error
reminder_failure message res =
    let detail : Text = elim res.text [ ok t ↦ t | throw e ↦ res.status_text ] in
    error (str (message ++ codes " (" ++ decimal res.status ++ codes "): " ++ detail))

unfoldable pub list_tenant_reminders : Encoder → ℕ → Option Text → Endpoint
list_tenant_reminders enc tenant_id agent_id = record {
  url =
      path (codes "api" ∷ codes "tenants" ∷ decimal tenant_id ∷ codes "reminders" ∷ [])
      ++ agent_query agent_id;
  init = plain get;
  failure = reminder_failure (codes "Failed to list reminders");
}
  where
    agent_query : Option Text → Text
    agent_query none = []
    agent_query (some []) = []
    agent_query (some (c ∷ a)) = codes "?agent_id=" ++ enc.encode (c ∷ a)

unfoldable pub cancel_tenant_reminder : Encoder → ℕ → Text → Text → Endpoint
cancel_tenant_reminder enc tenant_id agent_id job_id = record {
  url = path (
      codes "api"
      ∷ codes "tenants"
      ∷ decimal tenant_id
      ∷ codes "reminders"
      ∷ enc.encode agent_id
      ∷ enc.encode job_id
      ∷ codes "cancel"
      ∷ []);
  init = plain post;
  failure = reminder_failure (codes "Failed to cancel reminder");
}

unfoldable pub check_phone_available : Encoder → Text → Endpoint
check_phone_available enc phone = record {
  url =
      path (codes "api" ∷ codes "agents" ∷ codes "check-phone" ∷ [])
      ++ codes "?phone="
      ++ enc.encode phone;
  init = plain get;
  failure = detail_message (codes "Invalid phone");
}
