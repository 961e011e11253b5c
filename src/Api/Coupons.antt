-- ===== src/Api/Coupons.antt =====
-- The coupon calls of frontend/src/lib/api.ts: `_couponCall`, `previewCoupon` and `redeemCoupon`.
use agentleh_app.Base.{ℕ, [], ◌∷◌, Option, none, some, Text, codes, leb, if◌then◌else◌}
use agentleh_app.Js.{Js, str, obj, null, end, Error, coupon_api_error, or_js, opt, fields}
use agentleh_app.Net.{post, Response}
use agentleh_app.Api.{Endpoint, path, with_body, detail_of}

-- The code of a failure without one: a 5xx is never the coupon's fault.
unfoldable pub fallback_code : ℕ → Text
fallback_code status = if leb 500 status then codes "internal_error" else codes "coupon_error"

-- The `CouponApiError` of a response that is not ok.
unfoldable pub coupon_failure : Response → Error
unfolding fallback_code
coupon_failure res =
    let detail = or_js (detail_of res) (obj end) in
    coupon_api_error res.status
      (or_js (opt detail (codes "error")) (str (fallback_code res.status))) detail

-- `tenantId ?? null`
abbrev pub or_null : Option Js → Js
or_null none = null
or_null (some v) = v

unfoldable pub coupon_call : Text → Js → Endpoint
coupon_call url body = record { url = url; init = with_body post body; failure = coupon_failure }

unfoldable pub preview_coupon : Text → Option Js → Endpoint
preview_coupon code tenant_id =
    coupon_call (path (codes "api" ∷ codes "coupons" ∷ codes "preview" ∷ []))
      (obj (fields ((codes "code", str code) ∷ (codes "tenant_id", or_null tenant_id) ∷ [])))

unfoldable pub redeem_coupon : Text → Option Js → Endpoint
redeem_coupon code tenant_id =
    coupon_call (path (codes "api" ∷ codes "coupons" ∷ codes "redeem" ∷ []))
      (obj (fields ((codes "code", str code) ∷ (codes "tenant_id", or_null tenant_id) ∷ [])))
