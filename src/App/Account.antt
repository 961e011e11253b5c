-- ===== src/App/Account.antt =====
-- The cookie that tells the landing site of an account, `markHasAccountCookie` of frontend/src/App.tsx.
use agentleh_app.Base.{
  List, [], ◌∷◌, ◌++◌, Text, codes, split, length, drop, ltb, ◌-◌, if◌then◌else◌, Option, none,
  some,
}

-- `parts.join('.')`
unfoldable pub join_dots : List Text → Text
join_dots [] = []
join_dots (p ∷ []) = p
join_dots (p ∷ q ∷ ps) = p ++ (codes "." ++ join_dots (q ∷ ps))

-- The text that is assigned to `document.cookie`, for a host with a dot.
unfoldable pub mark_has_account_cookie : Text → Option Text
mark_has_account_cookie host =
    let parts = split b'.' host in
    if ltb (length parts) 2
    then none
    else some (
        codes "agentleh_has_account=1; Domain="
        ++ ((codes "." ++ join_dots (drop (length parts - 2) parts))
            ++ codes "; Path=/; Max-Age=31536000; SameSite=Lax; Secure"))
