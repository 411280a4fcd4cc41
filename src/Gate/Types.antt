-- ===== src/Gate/Types.antt =====
-- Requests, responses and errors as the gate sees them (the Fetch API's, types.ts, config.ts and
-- errors.ts).
use verivyx_monorepo.Prelude.{ℕ, ◌≡◌, refl, Option, List, Text}

-- `pathname` is `new URL(req.url).pathname`, `none` if that throws; `header` is `headers.get`, for
-- a name in lower case.
pub record Request : Type 0 where
  pub url : Text
  pub pathname : Option Text
  pub header : Text → Option Text

-- The body of a 402; a payment requirement is kept as its JSON.
pub record PaymentRequiredBody : Type 0 where
  pub error : Text
  pub url : Text
  pub mime_type : Text
  pub accepts : List Text

pub data Body : Type 0 where
  no_body service_unavailable : Body
  html : Text → Body
  payment_required : PaymentRequiredBody → Body
  other_body : Text → Body

pub record Response : Type 0 where
  pub status : ℕ
  pub headers : List (Text × Text)
  pub body : Body

pub data FailMode : Type 0 where
  teaser open_mode closed : FailMode

pub record ResolvedConfig : Type 0 where
  pub fail_mode : FailMode
  pub match_patterns : List Text

-- A step returns, throws BackendUnreachableError, or throws another error.
pub data Result (A : Type 0) : Type 0 where
  returned : A → Result A
  backend_unreachable : Result A
  failed : Result A

infixl 5 ◌>>=◌
abbrev pub ◌>>=◌ : {A B : Type 0} → Result A → (A → Result B) → Result B
returned a >>= f = f a
backend_unreachable >>= f = backend_unreachable
failed >>= f = failed

pub returned-bind :
    {A B : Type 0} (m : Result A) (f : A → Result B) (b : B)
    → (m >>= f) ≡ returned b
    → (a : A) × (m ≡ returned a) × (f a ≡ returned b)
returned-bind (returned a) f b h = (a, refl, h)
returned-bind backend_unreachable f b h = cc
returned-bind failed f b h = cc
