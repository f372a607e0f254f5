-- ===== src/GoError.antt =====
-- Go's error values, as far as the SDK looks into them: the values of `errors.New`, `errors.Join`
-- and `fmt.Errorf`, and `errors.Is` for a package-level error variable. A Go result `error` is
-- `Option Error`, and `(T, error)` is `Result T`. Where a message prints values, the model
-- keeps its constant text.
pub mod Laws
pub mod Action
use docker_go_sdk.Common.{
  String, Bool, true, false, ◌||◌, Option, none, some, List, [], ◌∷◌, ◌++◌, str_eq,
}

mutual
  pub data Error : Type 0 where
    -- A package-level error variable, told from others by its name.
    sentinel : String → Error
    -- `errors.New`, `fmt.Errorf` with no `%w`, or an error that a dependency returns.
    new : String → Error
    -- `fmt.Errorf("…%w", err)`: the text before the wrapped error.
    wrap : String → Error → Error
    -- The value of `errors.Join`.
    joined : Errors → Error

  pub data Errors : Type 0 where
    nil : Errors
    cons : Error → Errors → Errors

-- A pair `(T, error)`, of which Go code uses the value only where the error is nil.
pub data Result {ℓ} (T : Type ℓ) : Type ℓ where
  err : Error → Result T
  ok : T → Result T

-- `if err != nil { return …, fmt.Errorf("…%w", err) }`
abbrev pub context {ℓ} : {A : Type ℓ} → String → Result A → Result A
context text (ok a) = ok a
context text (err e) = err (wrap text e)

-- The same for a function that returns an `error` alone.
abbrev pub wrapped : String → Option Error → Option Error
wrapped text none = none
wrapped text (some e) = some (wrap text e)

-- Two lists, one behind the other, or the first error.
abbrev pub both : {A : Type 0} → Result (List A) → Result (List A) → Result (List A)
both (err e) second = err e
both (ok xs) (err e) = err e
both (ok xs) (ok ys) = ok (xs ++ ys)

-- The `error` of a call whose value is dropped.
abbrev pub error_of {ℓ} : {A : Type ℓ} → Result A → Option Error
error_of (ok a) = none
error_of (err e) = some e

-- `errors.Is(err, target)` for the error variable `target`.
unfoldable mutual
  pub error_is : Error → String → Bool
  error_is (sentinel name) target = str_eq name target
  error_is (new text) target = false
  error_is (wrap text e) target = error_is e target
  error_is (joined es) target = any_is es target

  pub any_is : Errors → String → Bool
  any_is nil target = false
  any_is (cons e es) target = error_is e target || any_is es target

-- The errors of the list that are not nil, in order.
unfoldable pub present : List (Option Error) → Errors
present [] = nil
present (none ∷ es) = present es
present (some e ∷ es) = cons e (present es)

abbrev join_present : Errors → Option Error
join_present nil = none
join_present es = some (joined es)

-- `errors.Join(errs...)`: nil where every error is nil.
unfoldable pub join : List (Option Error) → Option Error
unfolding present
join errs = join_present (present errs)
