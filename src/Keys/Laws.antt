-- ===== src/Keys/Laws.antt =====
-- What the keys are made of, and when they determine the fields.
use godynamo.Prelude.{
  String, str_eq, eq_iff, ◌≡◌, ◌≢◌, ◌⊎◌, refl, true, List, [], ◌∷◌, ◌++◌, Bool-cases, inl, inr,
  is_empty,
}
use godynamo.Tags.{ModelTags}
use godynamo.Keys.{last_or, sk_fields_of}

nil_of_is_empty : (xs : List String) → is_empty xs ≡ true → xs ≡ []
nil_of_is_empty [] h = refl
nil_of_is_empty (x ∷ xs) h = cc

last_or-append : (d e : String) (xs : List String) → last_or d (xs ++ (e ∷ [])) ≡ e
last_or-append d e [] = refl
last_or-append d e (x ∷ xs) = last_or-append x e xs

module _ (mt : ModelTags) where
  last_or-sk_fields_of : last_or "" (sk_fields_of mt) ≡ "ID"
  unfolding sk_fields_of
  last_or-sk_fields_of = elim (Bool-cases (is_empty mt.sk_fields)) [
    | inl e ↦ rw e
    | inr e ↦ rw e (elim (Bool-cases (str_eq (last_or "" mt.sk_fields) "ID")) [
      | inl i ↦ rw i ((eq_iff (last_or "" mt.sk_fields) "ID").0 i)
      | inr i ↦ rw i (last_or-append "" "ID" mt.sk_fields)
    ])
  ]

  -- The sort key ends with the ID, whatever the `sk` clause lists: without a clause the ID stands
  -- alone; an ID that is listed last is not repeated; and otherwise the clause's fields stand in
  -- front of the ID, in their order.
  pub sk_fields_of_ends_with_id :
      (last_or "" (sk_fields_of mt) ≡ "ID")
      × (((mt.sk_fields ≡ []) × (sk_fields_of mt ≡ ("ID" ∷ [])))
          ⊎ ((last_or "" mt.sk_fields ≡ "ID") × (sk_fields_of mt ≡ mt.sk_fields))
          ⊎ ((last_or "" mt.sk_fields ≢ "ID") × (sk_fields_of mt ≡ mt.sk_fields ++ ("ID" ∷ []))))
  unfolding sk_fields_of
  sk_fields_of_ends_with_id = (
    last_or-sk_fields_of,
    elim (Bool-cases (is_empty mt.sk_fields)) [
      | inl e ↦ inl (nil_of_is_empty mt.sk_fields e, rw e refl)
      | inr e ↦ inr (elim (Bool-cases (str_eq (last_or "" mt.sk_fields) "ID")) [
        | inl i ↦ inl ((eq_iff (last_or "" mt.sk_fields) "ID").0 i, rw (e, i) refl)
        | inr i ↦ inr (λ same. cc ((eq_iff (last_or "" mt.sk_fields) "ID").1 same), rw (e, i) refl)
      ])
    ],
  )
