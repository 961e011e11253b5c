-- ===== src/Coupon/Modal/Short.antt =====
-- The dialog for a coupon redeems another code than the previewed one.
use agentleh_app.Base.{
  ◌<◌, false, List, [], ◌∷◌, none, Text, text_eq, text_eq_refl, trim, length, ◌≡◌, arith,
}
use agentleh_app.Js.{ok}
use agentleh_app.Coupon.Page.{Preview}
use agentleh_app.Coupon.Modal.{
  Modal, preview_effect, type_code, take_asked, preview_answered, preview_arrived, can_redeem,
  handle_submit, typed, previewed, clicked, step, run,
}

-- While the preview of a code is in flight, a code of less than six characters is typed, of which no preview is asked
-- for. Once the old one is answered, the button redeems the short code.
run-redeemed :
    (old new : Text) (asked : List Text) (p : Preview) (s : Modal)
    → s.asked ≡ old ∷ asked
    → text_eq new s.code ≡ false
    → length (trim new) < 6
    → s.redeeming ≡ false
    → p.already_redeemed_by_user ≡ false
    → let after = run (typed new ∷ previewed old (ok p) ∷ clicked ∷ []) s in
      (after.timer ≡ none) × (after.redeemed ≡ trim new ∷ s.redeemed)
unfolding run step type_code preview_effect preview_arrived preview_answered take_asked
    handle_submit can_redeem
run-redeemed old new asked p s a b c d e = ground (arith, text_eq_refl old)
