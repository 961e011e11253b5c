-- ===== src/Api/Bridges.antt =====
-- The calls of the bridges panel of frontend/src/lib/api.ts.
use agentleh_app.Base.{ℕ, [], ◌∷◌, Text, codes, decimal}
use agentleh_app.Js.{Js, str, obj, end, Error, error, or_js, opt, fields}
use agentleh_app.Net.{get, post, patch, delete, Response}
use agentleh_app.Api.{
  Encoder, Endpoint, path, plain, with_body, detail_of, detail_error, detail_message, detail_detail,
}

-- `body?.detail || body?.detail?.message || 'Failed to load bridges'`
unfoldable pub bridges_failure : Response → Error
bridges_failure res =
    let detail = detail_of res in
    error
      (or_js (or_js detail (opt detail (codes "message"))) (str (codes "Failed to load bridges")))

-- Telegram's own words where they are a text, and else their JSON.
unfoldable pub telegram_failure : Encoder → Response → Error
telegram_failure enc res =
    let detail = detail_of res in
    elim (or_js (or_js (opt detail (codes "detail")) (opt detail (codes "error"))) detail) [
      | str s ↦ error (str s)
      | v ↦ error (str (enc.stringify (or_js v (obj end))))
    ]

unfoldable pub patch_whatsapp_bridge : Encoder → ℕ → Text → Js → Endpoint
patch_whatsapp_bridge enc tenant_id agent_id phone = record {
  url = path (
      codes "api"
      ∷ codes "tenants"
      ∷ decimal tenant_id
      ∷ codes "agents"
      ∷ agent_id
      ∷ codes "bridges"
      ∷ codes "whatsapp"
      ∷ []);
  init = with_body patch (obj (fields ((codes "phone", phone) ∷ [])));
  failure = detail_message (codes "Failed to update WhatsApp bridge");
}

unfoldable pub start_telegram_managed_connect : Encoder → ℕ → Text → Endpoint
start_telegram_managed_connect enc tenant_id agent_id = record {
  url = path (
      codes "api"
      ∷ codes "tenants"
      ∷ decimal tenant_id
      ∷ codes "agents"
      ∷ agent_id
      ∷ codes "bridges"
      ∷ codes "telegram"
      ∷ codes "start-managed"
      ∷ []);
  init = plain post;
  failure = detail_detail (codes "Failed to start Telegram quick-connect");
}

unfoldable pub get_telegram_managed_status : Encoder → ℕ → Text → Endpoint
get_telegram_managed_status enc tenant_id agent_id = record {
  url = path (
      codes "api"
      ∷ codes "tenants"
      ∷ decimal tenant_id
      ∷ codes "agents"
      ∷ agent_id
      ∷ codes "bridges"
      ∷ codes "telegram"
      ∷ codes "managed-status"
      ∷ []);
  init = plain get;
  failure = detail_error (codes "Failed to poll Telegram connect status");
}

unfoldable pub connect_telegram_bridge : Encoder → ℕ → Text → Text → Endpoint
connect_telegram_bridge enc tenant_id agent_id bot_token = record {
  url = path (
      codes "api"
      ∷ codes "tenants"
      ∷ decimal tenant_id
      ∷ codes "agents"
      ∷ agent_id
      ∷ codes "bridges"
      ∷ codes "telegram"
      ∷ codes "connect"
      ∷ []);
  init = with_body post (obj (fields ((codes "bot_token", str bot_token) ∷ [])));
  failure = telegram_failure enc;
}

unfoldable pub test_telegram_bridge : Encoder → ℕ → Text → Endpoint
test_telegram_bridge enc tenant_id agent_id = record {
  url = path (
      codes "api"
      ∷ codes "tenants"
      ∷ decimal tenant_id
      ∷ codes "agents"
      ∷ agent_id
      ∷ codes "bridges"
      ∷ codes "telegram"
      ∷ codes "test"
      ∷ []);
  init = plain post;
  failure = detail_detail (codes "Failed to test Telegram bridge");
}

unfoldable pub disconnect_telegram_bridge : Encoder → ℕ → Text → Endpoint
disconnect_telegram_bridge enc tenant_id agent_id = record {
  url = path (
      codes "api"
      ∷ codes "tenants"
      ∷ decimal tenant_id
      ∷ codes "agents"
      ∷ agent_id
      ∷ codes "bridges"
      ∷ codes "telegram"
      ∷ []);
  init = plain delete;
  failure = detail_message (codes "Failed to disconnect Telegram bridge");
}

unfoldable pub get_agent_bridges : Encoder → ℕ → Text → Endpoint
get_agent_bridges enc tenant_id agent_id = record {
  url = path (
      codes "api"
      ∷ codes "tenants"
      ∷ decimal tenant_id
      ∷ codes "agents"
      ∷ agent_id
      ∷ codes "bridges"
      ∷ []);
  init = plain get;
  failure = bridges_failure;
}
