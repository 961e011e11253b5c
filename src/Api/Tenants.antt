-- ===== src/Api/Tenants.antt =====
-- The calls on the session, on workspaces, members and invites of frontend/src/lib/api.ts.
use agentleh_app.Base.{ℕ, List, [], ◌∷◌, ◌++◌, Option, none, some, Text, codes, decimal}
use agentleh_app.Js.{Js, str, obj, fields}
use agentleh_app.Net.{get, post, patch, delete}
use agentleh_app.Api.{Encoder, Endpoint, path, plain, with_body, fixed, detail_error}

unfoldable pub get_me : Endpoint
get_me = record {
  url = path (codes "api" ∷ codes "auth" ∷ codes "me" ∷ []);
  init = plain get;
  failure = fixed (codes "Not authenticated");
}

unfoldable pub sync_user : Endpoint
sync_user = record {
  url = path (codes "api" ∷ codes "auth" ∷ codes "sync" ∷ []);
  init = plain post;
  failure = fixed (codes "Sync failed");
}

-- An option that is set, as a pair of the query.
abbrev set_option : Text → Option Text → List (Text × Text)
set_option name none = []
set_option name (some []) = []
set_option name (some (c ∷ v)) = (name, c ∷ v) ∷ []

-- `qs.toString() ? `?${qs.toString()}` : ''`
abbrev suffix : Text → Text
suffix [] = []
suffix (c ∷ q) = b'?' ∷ c ∷ q

unfoldable pub get_tenant_usage : Encoder → ℕ → Option Text → Option Text → Endpoint
get_tenant_usage enc tenant_id from to = record {
  url =
      path
        (codes "api" ∷ codes "dashboard" ∷ codes "tenants" ∷ decimal tenant_id ∷ codes "usage" ∷ [])
      ++ suffix (enc.query (set_option (codes "from") from ++ set_option (codes "to") to));
  init = plain get;
  failure = fixed (codes "Tenant usage failed");
}

-- A number that is given, zero included.
abbrev set_number : Text → Option ℕ → List (Text × Text)
set_number name none = []
set_number name (some n) = (name, decimal n) ∷ []

unfoldable pub list_tenant_audit : Encoder → ℕ → Option ℕ → Option ℕ → Endpoint
list_tenant_audit enc tenant_id limit offset = record {
  url =
      path (codes "api" ∷ codes "tenants" ∷ decimal tenant_id ∷ codes "audit" ∷ [])
      ++ suffix
          (enc.query (set_number (codes "limit") limit ++ set_number (codes "offset") offset));
  init = plain get;
  failure = fixed (codes "Audit log failed");
}

unfoldable pub get_my_tenants : Encoder → Endpoint
get_my_tenants enc = record {
  url = path (codes "api" ∷ codes "tenants" ∷ []);
  init = plain get;
  failure = fixed (codes "List tenants failed");
}

-- An absent billing e-mail is sent as the empty text.
unfoldable pub create_tenant : Encoder → Text → Text → Endpoint
create_tenant enc name billing_email = record {
  url = path (codes "api" ∷ codes "tenants" ∷ []);
  init =
      with_body post
        (obj (fields ((codes "name", str name) ∷ (codes "billing_email", str billing_email) ∷ [])));
  failure = fixed (codes "Create tenant failed");
}

unfoldable pub get_tenant_detail : Encoder → ℕ → Endpoint
get_tenant_detail enc tenant_id = record {
  url = path (codes "api" ∷ codes "tenants" ∷ decimal tenant_id ∷ []);
  init = plain get;
  failure = fixed (codes "Tenant detail failed");
}

unfoldable pub update_tenant : Encoder → ℕ → Js → Endpoint
update_tenant enc tenant_id body = record {
  url = path (codes "api" ∷ codes "tenants" ∷ decimal tenant_id ∷ []);
  init = with_body patch body;
  failure = fixed (codes "Update tenant failed");
}

unfoldable pub delete_tenant : Encoder → ℕ → Endpoint
delete_tenant enc tenant_id = record {
  url = path (codes "api" ∷ codes "tenants" ∷ decimal tenant_id ∷ []);
  init = plain delete;
  failure = detail_error (codes "Delete tenant failed");
}

unfoldable pub transfer_tenant_owner : Encoder → ℕ → Js → Endpoint
transfer_tenant_owner enc tenant_id new_owner = record {
  url = path (codes "api" ∷ codes "tenants" ∷ decimal tenant_id ∷ codes "transfer-owner" ∷ []);
  init = with_body post (obj (fields ((codes "new_owner_user_id", new_owner) ∷ [])));
  failure = fixed (codes "Transfer ownership failed");
}

unfoldable pub change_member_role : Encoder → ℕ → ℕ → Text → Endpoint
change_member_role enc tenant_id user_id role = record {
  url =
      path (
        codes "api" ∷ codes "tenants" ∷ decimal tenant_id ∷ codes "members" ∷ decimal user_id ∷ []);
  init = with_body patch (obj (fields ((codes "role", str role) ∷ [])));
  failure = fixed (codes "Change role failed");
}

unfoldable pub remove_member : Encoder → ℕ → ℕ → Endpoint
remove_member enc tenant_id user_id = record {
  url =
      path (
        codes "api" ∷ codes "tenants" ∷ decimal tenant_id ∷ codes "members" ∷ decimal user_id ∷ []);
  init = plain delete;
  failure = fixed (codes "Remove member failed");
}

unfoldable pub create_invite : Encoder → ℕ → Text → Text → Endpoint
create_invite enc tenant_id email role = record {
  url = path (codes "api" ∷ codes "tenants" ∷ decimal tenant_id ∷ codes "invites" ∷ []);
  init = with_body post (obj (fields ((codes "email", str email) ∷ (codes "role", str role) ∷ [])));
  failure = fixed (codes "Create invite failed");
}

unfoldable pub revoke_invite : Encoder → ℕ → ℕ → Endpoint
revoke_invite enc tenant_id invite_id = record {
  url = path (
      codes "api" ∷ codes "tenants" ∷ decimal tenant_id ∷ codes "invites" ∷ decimal invite_id ∷ []);
  init = plain delete;
  failure = fixed (codes "Revoke invite failed");
}

unfoldable pub accept_invite : Encoder → Text → Endpoint
accept_invite enc token = record {
  url = path (codes "api" ∷ codes "invites" ∷ codes "accept" ∷ []);
  init = with_body post (obj (fields ((codes "token", str token) ∷ [])));
  failure = detail_error (codes "Accept invite failed");
}

unfoldable pub get_tenant_dashboard : Encoder → ℕ → Endpoint
get_tenant_dashboard enc tenant_id = record {
  url = path (codes "api" ∷ codes "dashboard" ∷ codes "tenants" ∷ decimal tenant_id ∷ []);
  init = plain get;
  failure = fixed (codes "Tenant dashboard failed");
}
