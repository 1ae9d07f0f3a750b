-- ===== src/Tags/Parsing.antt =====
-- `parseModelClauses` and `splitFields` of tags.go, on the tags that spell out lists of fields.
use text.Mathlib.TextLemmas.{nil-append, cons-append}
use godynamo.Prelude.{
  String, str_eq, str_ne, ◌<>◌, ◌≡◌, ◌≢◌, refl, sym, ap, ◌∙◌, Bool, true, false, some, List, [],
  ◌∷◌, foldl, arith, All, Bool-cases, inl, inr, eq_iff,
}
use godynamo.Text.{trim_space, split, cut, join, is_space}
use godynamo.Text.Laws.{
  Lacks, HasNoSpace, split-join, cut_at_sep, trim_space_of_HasNoSpace, trim_space_idem,
  Lacks-append, Lacks-join, HasNoSpace-append, HasNoSpace-join,
}
use godynamo.Tags.{
  ModelTags, field_sep, clause_sep, kv_sep, keep_fields, split_fields, parse_clause,
  parse_model_clauses,
}

-- A field name that a tag can spell: not blank, with no space and neither `,` nor `;`.
pub record IsFieldName (name : String) : Type 0 where
  pub not_blank : name ≢ ""
  pub no_space : HasNoSpace name
  pub no_comma : Lacks b',' name
  pub no_semicolon : Lacks b';' name

keep_fields_of_names : (ps : List String) → All IsFieldName ps → keep_fields ps ≡ ps
unfolding keep_fields
keep_fields_of_names [] _ = refl
keep_fields_of_names (p ∷ ps) (hp, hps) =
    rw (trim_space_of_HasNoSpace p hp.no_space, str_ne p "" hp.not_blank)
      (ap (λ (t : List String). p ∷ t) (keep_fields_of_names ps hps))

module _ (P Q : String → Type 0) (f : (s : String) → P s → Q s) where
  All-map : (ps : List String) → All P ps → All Q ps
  All-map [] _ = tt
  All-map (p ∷ ps) (hp, hps) = (f p hp, All-map ps hps)

-- `splitFields` reads back a list of field names joined by commas.
pub split_fields-join :
    (ps : List String) → ps ≢ [] → All IsFieldName ps → split_fields (join ps ",") ≡ ps
unfolding split_fields
split_fields-join ps h hps =
    rw (split-join ps "," h (All-map IsFieldName (Lacks b',') (λ s n. n.no_comma) ps hps))
      (keep_fields_of_names ps hps)

-- What `splitFields` returns: trimmed names, none of them blank.
abbrev pub IsTrimmed : String → Type 0
IsTrimmed s = (trim_space s ≡ s) × (s ≢ "")

keep_fields-IsTrimmed : (ps : List String) → All IsTrimmed (keep_fields ps)
unfolding keep_fields
keep_fields-IsTrimmed [] = tt
keep_fields-IsTrimmed (p ∷ ps) = elim (Bool-cases (str_eq (trim_space p) "")) [
  | inl e ↦ rw e (keep_fields-IsTrimmed ps)
  | inr e ↦
      rw e ((trim_space_idem p, λ h. cc ((eq_iff (trim_space p) "").1 h)), keep_fields-IsTrimmed ps)
]

abbrev pub clause : String → List String → String
clause key fields = key <> (":" <> join fields ",")

-- `splitFields` returns trimmed names, none of them blank, whatever the clause.
pub split_fields-IsTrimmed : (val : String) → All IsTrimmed (split_fields val)
unfolding split_fields
split_fields-IsTrimmed val = keep_fields-IsTrimmed (split val field_sep)

module _ (key : String) (fields : List String) (names : All IsFieldName fields) where
  clause-HasNoSpace : HasNoSpace key → HasNoSpace (clause key fields)
  unfolding is_space
  clause-HasNoSpace hk = HasNoSpace-append key _ hk (
      HasNoSpace-append ":" _ (refl, tt)
        (HasNoSpace-join fields ","
          (All-map IsFieldName HasNoSpace (λ s n. n.no_space) fields names) (refl, tt)))

  clause-Lacks : Lacks b';' key → Lacks b';' (clause key fields)
  clause-Lacks hk = Lacks-append b';' key _ hk (
      Lacks-append b';' ":" _ (omega arith) (
        Lacks-join b';' fields ","
          (All-map IsFieldName (Lacks b';') (λ s n. n.no_semicolon) fields names) (omega arith)))

  cut-clause : Lacks b':' key → cut (clause key fields) kv_sep ≡ (key, join fields ",", true)
  cut-clause hk = rw (cons-append, nil-append) (cut_at_sep key (join fields ",") ":" hk)

  clause_not_blank : Lacks b':' key → str_eq (clause key fields) "" ≡ false
  unfolding cut
  clause_not_blank hk = str_ne (clause key fields) "" λ e. cc (
      ap (λ (r : String × String × Bool). r.2)
        (sym (cut-clause hk) ∙ ap (λ (t : String). cut t kv_sep) e))

module _ (fields : List String) (some_field : fields ≢ []) (names : All IsFieldName fields) where
  parse_clause-pk :
      (mt : ModelTags) → parse_clause mt (clause "pk" fields) ≡ record mt { pk_fields = fields }
  unfolding parse_clause trim_space is_space
  parse_clause-pk mt = rw (
    trim_space_of_HasNoSpace (clause "pk" fields)
        (clause-HasNoSpace "pk" fields names (refl, (refl, tt))),
    clause_not_blank "pk" fields names (omega arith),
    cut-clause "pk" fields names (omega arith),
    split_fields-join fields some_field names,
  )

  parse_clause-sk :
      (mt : ModelTags) → parse_clause mt (clause "sk" fields) ≡ record mt { sk_fields = fields }
  unfolding parse_clause trim_space is_space
  parse_clause-sk mt = rw (
    trim_space_of_HasNoSpace (clause "sk" fields)
        (clause-HasNoSpace "sk" fields names (refl, (refl, tt))),
    clause_not_blank "sk" fields names (omega arith),
    cut-clause "sk" fields names (omega arith),
    split_fields-join fields some_field names,
  )

-- A clause that a tag can hold beside others.
record IsClause (c : String) : Type 0 where
  present : c ≢ ""
  no_space : HasNoSpace c
  no_semicolon : Lacks b';' c

clause-IsClause :
    (key : String) (fields : List String)
    → All IsFieldName fields
    → HasNoSpace key
    → Lacks b':' key
    → Lacks b';' key
    → IsClause (clause key fields)
clause-IsClause key fields names sp co se = record {
  present = λ e. cc (clause_not_blank key fields names co, (eq_iff (clause key fields) "").1 e);
  no_space = clause-HasNoSpace key fields names sp;
  no_semicolon = clause-Lacks key fields names se;
}

split-clauses :
    (c : String) (cs : List String)
    → All IsClause (c ∷ cs)
    → split (join (c ∷ cs) ";") clause_sep ≡ c ∷ cs
split-clauses c cs h =
    split-join (c ∷ cs) ";" (cc) (All-map IsClause (Lacks b';') (λ s n. n.no_semicolon) (c ∷ cs) h)

tag_not_blank : (c : String) (cs : List String) → All IsClause (c ∷ cs) → join (c ∷ cs) ";" ≢ ""
unfolding split
tag_not_blank c cs h e =
    h.0.present (cc (sym (split-clauses c cs h) ∙ ap (λ (t : String). split t clause_sep) e))

-- The loop runs over the clauses of the tag, in order.
parse_model_clauses-join :
    (mt : ModelTags) (c : String) (cs : List String)
    → All IsClause (c ∷ cs)
    → parse_model_clauses mt (some (join (c ∷ cs) ";")) ≡ foldl parse_clause mt (c ∷ cs)
unfolding parse_model_clauses is_space
parse_model_clauses-join mt c cs h = rw (
  trim_space_of_HasNoSpace (join (c ∷ cs) ";") (
      HasNoSpace-join (c ∷ cs) ";" (All-map IsClause HasNoSpace (λ s n. n.no_space) (c ∷ cs) h)
        (refl, tt)),
  str_ne (join (c ∷ cs) ";") "" (tag_not_blank c cs h),
  split-clauses c cs h,
)

abbrev pub pk_sk_tag : List String → List String → String
pk_sk_tag pk sk = join (clause "pk" pk ∷ clause "sk" sk ∷ []) ";"

abbrev pub sk_pk_tag : List String → List String → String
sk_pk_tag pk sk = join (clause "sk" sk ∷ clause "pk" pk ∷ []) ";"

-- Parsing the tag `pk:A,B;sk:C,D`, or the same clauses in the other order, gives the two lists of
-- field names, for any non-empty lists of names without spaces, commas and semicolons.
pub parse_model_clauses-tag :
    (mt : ModelTags) (pk sk : List String)
    → pk ≢ []
    → sk ≢ []
    → All IsFieldName pk
    → All IsFieldName sk
    → (parse_model_clauses mt (some (pk_sk_tag pk sk))
        ≡ record mt { pk_fields = pk; sk_fields = sk })
      × (parse_model_clauses mt (some (sk_pk_tag pk sk))
          ≡ record mt { pk_fields = pk; sk_fields = sk })
unfolding is_space
parse_model_clauses-tag mt pk sk some_pk some_sk pks sks =
    let pc = clause-IsClause "pk" pk pks (refl, (refl, tt)) (omega arith) (omega arith) in
    let sc = clause-IsClause "sk" sk sks (refl, (refl, tt)) (omega arith) (omega arith) in
    (
      parse_model_clauses-join mt (clause "pk" pk) (clause "sk" sk ∷ []) (pc, (sc, tt))
          ∙ rw (parse_clause-pk pk some_pk pks, parse_clause-sk sk some_sk sks),
      parse_model_clauses-join mt (clause "sk" sk) (clause "pk" pk ∷ []) (sc, (pc, tt))
          ∙ rw (parse_clause-sk sk some_sk sks, parse_clause-pk pk some_pk pks),
    )
