-- ===== src/Js.antt =====
-- The dynamic values of JavaScript that the client reads from JSON, and the outcomes of code that
-- throws. Property access, truthiness and `||` are the language's.
use agentleh_app.Base.{
  ◌⊎◌, inl, inr, refl, ◌≡◌, ℕ, Bool, true, false, not, List, [], ◌∷◌, Text, text_eq, is_empty,
  if◌then◌else◌, ◌==◌, ◌&&◌, ◌||◌,
}

-- A double: NaN, an infinity, or a sign with an integer mantissa and a biased exponent.
pub data Number : Type 0 where
  nan : Number
  infinite : Bool → Number
  finite : Bool → ℕ → ℕ → Number

mutual
  pub data Js : Type 0 where
    undefined null : Js
    bool : Bool → Js
    num : Number → Js
    str : Text → Js
    arr : Items → Js
    obj : Fields → Js

  pub data Items : Type 0 where
    nil : Items
    cons : Js → Items → Items

  pub data Fields : Type 0 where
    end : Fields
    field : Text → Js → Fields → Fields

-- What a failing operation throws: `new Error(x)`, a `CouponApiError` with its status, code and
-- detail, the `TypeError` of a property read on null or undefined, or a value that a platform
-- operation rejects with.
pub data Error : Type 0 where
  error : Js → Error
  coupon_api_error : ℕ → Js → Js → Error
  type_error : Error
  rejected : Js → Error

pub data Outcome {ℓ} (A : Type ℓ) : Type ℓ where
  ok : A → Outcome A
  throw : Error → Outcome A

truthy_number : Number → Bool
truthy_number nan = false
truthy_number (infinite s) = true
truthy_number (finite s m e) = not (m == 0)

-- `!!v`
unfoldable pub truthy : Js → Bool
unfolding truthy_number
truthy undefined = false
truthy null = false
truthy (bool b) = b
truthy (num n) = truthy_number n
truthy (str s) = not (is_empty s)
truthy (arr xs) = true
truthy (obj fs) = true

-- `a || b`
unfoldable pub or_js : Js → Js → Js
unfolding truthy
or_js a b = if truthy a then a else b

-- `a ?? b`
unfoldable pub nullish : Js → Js → Js
nullish undefined b = b
nullish null b = b
nullish a b = a

unfoldable pub get_field : Text → Fields → Js
get_field k end = undefined
get_field k (field j v fs) = if text_eq j k then v else get_field k fs

-- `v?.key`
unfoldable pub opt : Js → Text → Js
unfolding get_field
opt (obj fs) k = get_field k fs
opt v k = undefined

-- `v.key`, which throws on null and undefined.
unfoldable pub prop : Js → Text → Outcome Js
unfolding opt
prop undefined k = throw type_error
prop null k = throw type_error
prop v k = ok (opt v k)

-- `v === "literal"`
unfoldable pub is_text : Text → Js → Bool
is_text t (str s) = text_eq s t
is_text t v = false

unfoldable pub items : Items → List Js
items nil = []
items (cons x xs) = x ∷ items xs

unfoldable pub from_list : List Js → Items
from_list [] = nil
from_list (x ∷ xs) = cons x (from_list xs)

-- An object literal.
abbrev pub fields : List (Text × Js) → Fields
fields [] = end
fields ((k, v) ∷ kvs) = field k v (fields kvs)

-- `===` on values of which at least one was parsed just now: objects and arrays are equal to
-- themselves alone, and such a pair never is one object.
unfoldable pub strict_eq_number : Number → Number → Bool
strict_eq_number (finite s m e) (finite t n f) =
    (m == 0 && n == 0) || ((if s then t else not t) && m == n && e == f)
strict_eq_number (infinite s) (infinite t) = if s then t else not t
strict_eq_number _ _ = false

unfoldable pub strict_eq : Js → Js → Bool
unfolding strict_eq_number
strict_eq undefined undefined = true
strict_eq null null = true
strict_eq (bool a) (bool b) = if a then b else not b
strict_eq (num a) (num b) = strict_eq_number a b
strict_eq (str a) (str b) = text_eq a b
strict_eq _ _ = false

pub Outcome-cases {ℓ} :
    {A : Type ℓ} (o : Outcome A) → ((a : A) × (o ≡ ok a)) ⊎ ((e : Error) × (o ≡ throw e))
Outcome-cases (ok a) = inl (a, refl)
Outcome-cases (throw e) = inr (e, refl)
