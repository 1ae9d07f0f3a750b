-- ===== src/Transact/Cancellation.antt =====
-- The errors of a transactional write: which of them wrap `ErrOptimisticLock`.
use godynamo.Prelude.{
  String, ◌≡◌, refl, ap, ◌↔◌, ◌⊎◌, inl, inr, str_eq, eq_iff, eq_refl, true, Option, none, some,
  List, [], ◌∷◌, Bool-cases,
}
use godynamo.Fault.{Error, errors_is, err_optimistic_lock, as_transaction_canceled}
use godynamo.Transact.{
  conditional_check_failed_code, any_check_failed, translated, translate_transact_write_err,
}

-- A reason has the code of a failed condition check.
abbrev pub HasFailedCheck : List (Option String) → Type 0
HasFailedCheck [] = ⊥
HasFailedCheck (reason ∷ reasons) =
    (reason ≡ some conditional_check_failed_code) ⊎ HasFailedCheck reasons

any_check_failed_iff :
    (reasons : List (Option String)) → (any_check_failed reasons ≡ true) ↔ HasFailedCheck reasons
unfolding any_check_failed
any_check_failed_iff [] = (λ h. absurd (cc), λ h. absurd h)
any_check_failed_iff (none ∷ reasons) =
    let (to, from) = any_check_failed_iff reasons in
    (λ h. inr (to h), λ h. elim h [ inl e ↦ absurd (cc) | inr h ↦ from h ])
any_check_failed_iff (some code ∷ reasons) =
    let (to, from) = any_check_failed_iff reasons in
    elim (Bool-cases (str_eq code conditional_check_failed_code)) [
      | inl same ↦ (
        λ h. inl (ap some ((eq_iff code conditional_check_failed_code).0 same)),
        λ h. rw same refl,
      )
      | inr other ↦ (
        λ h. inr (to (rw other at h)),
        λ h. elim h [
          | inl e ↦ absurd (cc (eq_refl conditional_check_failed_code))
          | inr h ↦ rw other (from h)
        ],
      )
    ]

-- The reasons of the cancellation that an error is or wraps; none if it is no cancellation.
abbrev pub reasons_or_none : Option (List (Option String)) → List (Option String)
reasons_or_none (some reasons) = reasons
reasons_or_none none = []

reported :
    (e : Error) (o : Option (List (Option String)))
    → (errors_is (translated e o) err_optimistic_lock ≡ true)
      ↔ (HasFailedCheck (reasons_or_none o) ⊎ (errors_is e err_optimistic_lock ≡ true))
unfolding errors_is
reported e none = (λ h. inr h, λ h. elim h [ inl f ↦ absurd f | inr h ↦ h ])
reported e (some reasons) =
    let (to, from) = any_check_failed_iff reasons in
    elim (Bool-cases (any_check_failed reasons)) [
      | inl some_failed ↦ rw some_failed (λ h. inl (to some_failed), λ h. refl)
      | inr none_failed ↦
          rw none_failed (λ h. inr h, λ h. elim h [ inl f ↦ absurd (cc (from f)) | inr h ↦ h ])
    ]

-- The error of a transactional write wraps `ErrOptimisticLock` exactly if the client's error is or
-- wraps a cancellation with some reason that is a failed condition check, or wraps that sentinel
-- already.
pub translate_transact_write_err-is :
    (e : Error)
    → (errors_is (translate_transact_write_err e) err_optimistic_lock ≡ true) ↔ (
        HasFailedCheck (reasons_or_none (as_transaction_canceled e))
        ⊎ (errors_is e err_optimistic_lock ≡ true))
unfolding translate_transact_write_err
translate_transact_write_err-is e = reported e (as_transaction_canceled e)
