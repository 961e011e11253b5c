-- ===== src/Coupon/Message.antt =====
-- The messages of the coupon page, frontend/src/pages/RedeemCouponPage.tsx: ERROR_MSG and `errorFor`.
use agentleh_app.Base.{List, [], ◌∷◌, ◌++◌, Option, none, some, Text, codes, text_eq, if◌then◌else◌}
use agentleh_app.Js.{Js, str, or_js, opt}
use agentleh_app.Prefs.Lang.{Lang, Bilingual, translate}

-- `hebrew` gives the Hebrew words of a code.
unfoldable pub error_messages : (Text → Text) → List (Text × Bilingual)
error_messages hebrew =
    (
      codes "coupon_not_found",
      record { he = hebrew (codes "coupon_not_found"); en = codes "That code doesn't exist" },
    )
    ∷ (
      codes "coupon_disabled",
      record { he = hebrew (codes "coupon_disabled"); en = codes "This coupon was disabled" },
    )
    ∷ (
      codes "coupon_expired",
      record { he = hebrew (codes "coupon_expired"); en = codes "This coupon has expired" },
    )
    ∷ (
      codes "coupon_not_yet_valid",
      record {
        he = hebrew (codes "coupon_not_yet_valid");
        en = codes "This coupon is not yet active";
      },
    )
    ∷ (
      codes "coupon_exhausted",
      record { he = hebrew (codes "coupon_exhausted"); en = codes "This coupon is fully redeemed" },
    )
    ∷ (
      codes "coupon_already_redeemed",
      record {
        he = hebrew (codes "coupon_already_redeemed");
        en = codes "You've already used this coupon";
      },
    )
    ∷ (
      codes "invalid_plan",
      record { he = hebrew (codes "invalid_plan"); en = codes "Coupon's plan is invalid" },
    )
    ∷ (
      codes "invalid_duration",
      record { he = hebrew (codes "invalid_duration"); en = codes "Coupon's duration is invalid" },
    )
    ∷ (
      codes "rate_limited",
      record {
        he = hebrew (codes "rate_limited");
        en = codes "Too many attempts — try again in a minute";
      },
    )
    ∷ (
      codes "tenant_not_found",
      record { he = hebrew (codes "tenant_not_found"); en = codes "Workspace not found" },
    )
    ∷ (
      codes "account_revoked",
      record {
        he = hebrew (codes "account_revoked");
        en = codes "Your account has been deleted. Contact support to restore access.";
      },
    )
    ∷ (
      codes "email_already_registered",
      record {
        he = hebrew (codes "email_already_registered");
        en =
            codes
              "This email is already registered under a different sign-in method. Sign in with your original method.";
      },
    )
    ∷ (
      codes "invalid_token",
      record {
        he = hebrew (codes "invalid_token");
        en = codes "Your session has expired. Please sign in again.";
      },
    )
    ∷ (
      codes "internal_error",
      record {
        he = hebrew (codes "internal_error");
        en = codes "Something went wrong. Please try again in a moment.";
      },
    )
    ∷ []

unfoldable pub lookup_message : Text → List (Text × Bilingual) → Option Bilingual
lookup_message code [] = none
lookup_message code ((k, m) ∷ table) = if text_eq k code then some m else lookup_message code table

-- `errorFor`, with the error's detail; `show` is `String(v)`. The word for "error" in Hebrew has the key `error`.
unfoldable pub error_for : (Text → Text) → (Js → Text) → Lang → Text → Js → Text
error_for hebrew show lang code detail = elim (lookup_message code (error_messages hebrew)) [
  | some m ↦ translate lang m
  | none ↦
      (let english = opt detail (codes "message") in
        let message = translate lang (record {
          he = show (or_js (or_js (opt detail (codes "message_he")) english) (str code));
          en = show (or_js english (str code));
        }) in
        translate lang
          (record { he = hebrew (codes "error") ++ message; en = codes "Error: " ++ message }))
]
