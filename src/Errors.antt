-- ===== src/Errors.antt =====
-- Go's `error`, for all components: `nil` is `none`, `errors.New` and `fmt.Errorf` without `%w`
-- are `message`, and `fmt.Errorf` with `%w` is `wrap` of its text and its cause. Also
-- platform/core/model/errors/conflict.go.
use runfabric.Prelude.{String, ◌≡◌, refl, ◌⊎◌, inl, inr}
use runfabric.Prelude.Int.{ℤ}

pub record ConflictError : Type 0 where
  pub backend : String
  pub service : String
  pub stage : String
  pub resource : String
  pub current_version : ℤ
  pub incoming_version : ℤ
  pub action : String

pub data Error : Type 0 where
  -- os.ErrNotExist and os.ErrExist
  not_exist exist : Error
  -- any other failure of a system call, and a text that does not parse
  io parse : Error
  conflict : ConflictError → Error
  message : String → Error
  wrap : String → Error → Error

-- `(T, error)`, where one of the two is there.
pub data Result {ℓ} (A : Type ℓ) : Type ℓ where
  ok : A → Result A
  err : Error → Result A

infixl 5 ◌>>=◌
abbrev pub ◌>>=◌ {ℓ κ} : {A : Type ℓ} {B : Type κ} → Result A → (A → Result B) → Result B
ok a >>= f = f a
err e >>= f = err e

pub Result-cases {ℓ} :
    {A : Type ℓ} (r : Result A) → ((x : Error) × (r ≡ err x)) ⊎ ((a : A) × (r ≡ ok a))
Result-cases (ok a) = inr (a, refl)
Result-cases (err e) = inl (e, refl)
