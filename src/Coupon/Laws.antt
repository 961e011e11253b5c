-- ===== src/Coupon/Laws.antt =====
-- The coupon page shows a preview or an error, redeems only what is long enough, and the race of two
-- previews; and the error codes of a failing coupon call.
use agentleh_app.Base.{
  ◌≤◌, ◌<◌, true, false, List, [], ◌∷◌, none, some, Text, codes, text_eq, trim, length, All, ◌≡◌,
  refl, arith, ◌⊎◌, inl,
}
use agentleh_app.Js.{Js, str, ok, throw, coupon_api_error, truthy, opt, or_js, obj, end}
use agentleh_app.Net.{Response}
use agentleh_app.Api.{detail_of}
use agentleh_app.Api.Coupons.{coupon_failure}
use agentleh_app.Coupon.Page.{
  Preview, Page, min_length, preview_effect, type_code, fire_timer, preview_arrived, click_redeem,
  redeem_arrived, Event, typed, reset, waited, previewed, clicked, answered, step, run, opened,
}

-- A preview and its error are never shown together, and what was sent for redemption is long enough.
pub record IsSound (s : Page) : Type 0 where
  pub exclusive : (s.preview ≡ none) ⊎ (s.preview_error ≡ none)
  pub long_enough : All (λ c. min_length ≤ length c) s.redeemed

step-IsSound : (e : Event) (s : Page) → IsSound s → IsSound (step e s)
unfolding step type_code preview_effect fire_timer preview_arrived click_redeem redeem_arrived
step-IsSound (typed code) s h = ground arith
step-IsSound reset s h = ground arith
step-IsSound waited s h = ground arith
step-IsSound (previewed t (ok p)) s h = ground arith
step-IsSound (previewed t (throw e)) s h = ground arith
step-IsSound clicked s h = ground arith
step-IsSound (answered (ok u)) s h = ground arith
step-IsSound (answered (throw e)) s h = ground arith

run_from-IsSound : (es : List Event) (s : Page) → IsSound s → IsSound (run es s)
unfolding run
run_from-IsSound [] s h = h
run_from-IsSound (e ∷ es) s h = run_from-IsSound es (step e s) (step-IsSound e s h)

-- Whatever happens on the page, a preview and an error of a preview never stand together, and each code that is sent for
-- redemption has at least six characters.
pub run-IsSound : (es : List Event) → IsSound (run es opened)
run-IsSound es =
    run_from-IsSound es opened
      (record { exclusive = inl (unfold opened in refl); long_enough = unfold opened in tt })

-- A preview that was asked for before the code was changed still arrives: it is shown for the new code, which has had no
-- preview, and the new code can then be redeemed.
preview_arrived-stale :
    (old new : Text) (p : Preview) (s : Page)
    → text_eq new s.code ≡ false
    → min_length ≤ length (trim new)
    → s.redeeming ≡ false
    → p.already_redeemed_by_user ≡ false
    → let after = preview_arrived old (ok p) (type_code new s) in
      (after.preview ≡ some p)
      × (after.timer ≡ some (trim new))
      × ((click_redeem after).redeemed ≡ trim new ∷ s.redeemed)
unfolding preview_arrived type_code click_redeem
preview_arrived-stale old new p s a b c d = ground arith

-- The code of a failing coupon call: the server's own where it has one; else an internal error for a status of 500 or
-- more, and a coupon error for the others.
coupon_failure-code :
    (res : Response)
    → let own = opt (or_js (detail_of res) (obj end)) (codes "error") in
      (d : Js) × ((truthy own ≡ true) × (coupon_failure res ≡ coupon_api_error res.status own d)
        ⊎ (truthy own ≡ false)
          × (500 ≤ res.status)
          × (coupon_failure res ≡ coupon_api_error res.status (str (codes "internal_error")) d)
        ⊎ (truthy own ≡ false)
          × (res.status < 500)
          × (coupon_failure res ≡ coupon_api_error res.status (str (codes "coupon_error")) d))
unfolding coupon_failure or_js
coupon_failure-code res = (or_js (detail_of res) (obj end), ground arith)
