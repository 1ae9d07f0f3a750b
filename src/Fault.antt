-- ===== src/Fault.antt =====
-- errors.go, and how Go code fails: a function returns a value, returns an error, or panics.
use godynamo.Prelude.{String, Bool, true, false, Option, none, some, List, ◌≡◌, ◌⊎◌, inl, inr, refl}

-- `ErrNotFound`, `ErrOptimisticLock`, `ErrNonDefaultKey`
pub data Sentinel : Type 0 where
  err_not_found err_optimistic_lock err_non_default_key : Sentinel

-- The typed exceptions of the SDK that the package tells apart. A cancellation carries the
-- `Code` of each of its reasons, which may be nil.
pub data SdkException : Type 0 where
  conditional_check_failed_exception : SdkException
  transaction_canceled_exception : List (Option String) → SdkException

-- A chain of errors: `wrapped` is `fmt.Errorf("message: %w", e)`, `errorf` has no `%w`, and
-- `foreign` is any other error of the SDK or the standard library.
pub data Error : Type 0 where
  sentinel : Sentinel → Error
  sdk : SdkException → Error
  foreign : String → Error
  errorf : String → Error
  wrapped : String → Error → Error

abbrev pub same_sentinel : Sentinel → Sentinel → Bool
same_sentinel err_not_found err_not_found = true
same_sentinel err_optimistic_lock err_optimistic_lock = true
same_sentinel err_non_default_key err_non_default_key = true
same_sentinel _ _ = false

-- `errors.Is(err, target)` for the package's sentinels
unfoldable pub errors_is : Error → Sentinel → Bool
errors_is (sentinel s) t = same_sentinel s t
errors_is (sdk x) t = false
errors_is (foreign m) t = false
errors_is (errorf m) t = false
errors_is (wrapped m e) t = errors_is e t

-- `errors.AsType[*types.ConditionalCheckFailedException](err)`
unfoldable pub as_conditional_check_failed : Error → Bool
as_conditional_check_failed (sdk conditional_check_failed_exception) = true
as_conditional_check_failed (wrapped m e) = as_conditional_check_failed e
as_conditional_check_failed _ = false

-- `errors.AsType[*types.TransactionCanceledException](err)`, with its reasons' codes
unfoldable pub as_transaction_canceled : Error → Option (List (Option String))
as_transaction_canceled (sdk (transaction_canceled_exception reasons)) = some reasons
as_transaction_canceled (wrapped m e) = as_transaction_canceled e
as_transaction_canceled _ = none

-- `(v, nil)`, `(_, err)` or a panic
pub data Outcome {ℓ} (A : Type ℓ) : Type ℓ where
  ok : A → Outcome A
  err : Error → Outcome A
  panic : String → Outcome A

module _ {ℓ κ} {A : Type ℓ} {B : Type κ} where
  infixl 10 ◌>>=◌ ◌>>◌
  abbrev pub ◌>>=◌ : Outcome A → (A → Outcome B) → Outcome B
  panic message >>= next = panic message
  err failure >>= next = err failure
  ok value >>= next = next value

  abbrev pub ◌>>◌ : Outcome A → Outcome B → Outcome B
  first >> second = first >>= λ _. second

-- `if err != nil { return ..., fmt.Errorf("message: %w", err) }`
abbrev pub wrap_err {ℓ} : {A : Type ℓ} → String → Outcome A → Outcome A
wrap_err m (ok a) = ok a
wrap_err m (err e) = err (wrapped m e)
wrap_err m (panic p) = panic p

-- `if err != nil { return ..., f(err) }`
abbrev pub map_err {ℓ} : {A : Type ℓ} → (Error → Error) → Outcome A → Outcome A
map_err f (ok a) = ok a
map_err f (err e) = err (f e)
map_err f (panic p) = panic p

-- If both steps together return a value, the first did, and the second on that value.
module _ {ℓ κ} {A : Type ℓ} {B : Type κ} where
  pub >>=-eq-ok :
      (first : Outcome A) (next : A → Outcome B) {result : B}
      → (first >>= next) ≡ ok result
      → (value : A) × (first ≡ ok value) × (next value ≡ ok result)
  >>=-eq-ok (panic message) next h = cc
  >>=-eq-ok (err failure) next h = cc
  >>=-eq-ok (ok value) next h = (value, refl, h)

-- To split on a computed outcome and keep the equation.
pub Outcome-cases {ℓ} :
    {A : Type ℓ} (o : Outcome A)
    → ((a : A) × (o ≡ ok a)) ⊎ ((e : Error) × (o ≡ err e)) ⊎ ((m : String) × (o ≡ panic m))
Outcome-cases (ok a) = inl (a, refl)
Outcome-cases (err e) = inr (inl (e, refl))
Outcome-cases (panic m) = inr (inr (m, refl))

-- A wrapped call that returns a value is the call that returned it.
pub wrap_err-eq-ok {ℓ} :
    {A : Type ℓ} (m : String) (o : Outcome A) {a : A} → wrap_err m o ≡ ok a → o ≡ ok a
wrap_err-eq-ok m (ok a) h = h
wrap_err-eq-ok m (err e) h = cc
wrap_err-eq-ok m (panic p) h = cc

pub map_err-eq-ok {ℓ} :
    {A : Type ℓ} (f : Error → Error) (o : Outcome A) {a : A} → map_err f o ≡ ok a → o ≡ ok a
map_err-eq-ok f (ok a) h = h
map_err-eq-ok f (err e) h = cc
map_err-eq-ok f (panic p) h = cc
