-- ===== src/Records/Checks.antt =====
-- What the validation and the creation of records in learndb/record_utils.py establish.
use learndb_py.Prelude.{
  ◌≡◌, refl, ◌↔◌, true, false, Option, none, some, List, [], ◌∷◌, length, ◌==◌, arith,
  if◌then◌else◌, Result, Error, ok, err, ◌∙◌, All, Bool-cases, inl, inr, ◌⊎◌,
}
use learndb_py.Bytes.Utf8.{Text}
use learndb_py.Names.{text_eq, lower}
use learndb_py.Dict
use learndb_py.Dict.{Dict}
use learndb_py.Datatypes.{FloatFormat, Value, null, is_valid_term}
use learndb_py.Responses.{Message, Response, success, failure}
use learndb_py.Schema.{Column, SimpleSchema}
use learndb_py.Records.{
  SimpleRecord, value_of, fill_values, validate_column, validate_columns, validate_record,
  create_record,
}

module _ (f : FloatFormat) where
  open f use {Real}

  -- A column takes null where it is nullable and no primary key, and any other value where the
  -- value is of its datatype.
  abbrev pub Fits : Column → Value Real → Type 0
  Fits c null = (c.is_nullable ≡ true) × (c.is_primary_key ≡ false)
  Fits c v = is_valid_term f c.datatype v ≡ ok true

  validate_column_iff :
      (c : Column) (v : Value Real) → (validate_column f c v ≡ ok (success tt)) ↔ Fits c v
  unfolding validate_column
  validate_column_iff c null = (λ h. ground arith, λ h. ground arith)
  validate_column_iff c v = (λ h. ground arith, λ h. rw h)

  Result-Response-cases :
      (m : Result (Response (Unit {0})))
      → (m ≡ ok (success tt))
        ⊎ (((x : Message) × (m ≡ ok (failure x))) ⊎ ((e : Error) × (m ≡ err e)))
  Result-Response-cases (ok (success tt)) = inl refl
  Result-Response-cases (ok (failure x)) = inr (inl (x, refl))
  Result-Response-cases (err e) = inr (inr (e, refl))

  abbrev AllFit : List Column → Dict (Value Real) → Type 0
  AllFit cs d = All (λ (c : Column). Fits c (value_of d c.name)) cs

  validate_columns→AllFit :
      (cs : List Column) (d : Dict (Value Real))
      → validate_columns f cs d ≡ ok (success tt)
      → AllFit cs d
  unfolding validate_columns
  validate_columns→AllFit [] d h = tt
  validate_columns→AllFit (c ∷ cs) d h =
      elim (Result-Response-cases (validate_column f c (value_of d c.name))) [
        | inl e ↦ (
          (validate_column_iff c (value_of d c.name)).0 e,
          validate_columns→AllFit cs d (rw (e, validate_columns) at h),
        )
        | inr (inl (x, e)) ↦ absurd (cc (rw (e, validate_columns) at h))
        | inr (inr (x, e)) ↦ absurd (cc (rw (e, validate_columns) at h))
      ]

  AllFit→validate_columns :
      (cs : List Column) (d : Dict (Value Real))
      → AllFit cs d
      → validate_columns f cs d ≡ ok (success tt)
  unfolding validate_columns
  AllFit→validate_columns [] d h = refl
  AllFit→validate_columns (c ∷ cs) d h =
      rw ((validate_column_iff c (value_of d c.name)).1 h.0) (AllFit→validate_columns cs d h.1)

  pub validate_record_iff :
      (r : SimpleRecord Real)
      → (validate_record f r ≡ ok (success tt))
        ↔ All (λ (c : Column). Fits c (value_of r.values c.name)) r.schema.cols
  unfolding validate_record
  validate_record_iff r = (
    validate_columns→AllFit r.schema.cols r.values,
    AllFit→validate_columns r.schema.cols r.values,
  )

  -- The value that stands last beside a name that lowers to `j`.
  abbrev pub last_value :
      Text → List Text → List (Value Real) → Option (Value Real) → Option (Value Real)
  last_value j [] vs old = old
  last_value j (n ∷ ns) [] old = old
  last_value j (n ∷ ns) (v ∷ vs) old =
      last_value j ns vs (if text_eq (lower n) j then some v else old)

  get-fill_values :
      (j : Text) (ns : List Text) (vs : List (Value Real)) (d : Dict (Value Real))
      → Dict.get j (fill_values ns vs d) ≡ last_value j ns vs (Dict.get j d)
  unfolding fill_values
  get-fill_values j [] vs d = refl
  get-fill_values j (n ∷ ns) [] d = refl
  get-fill_values j (n ∷ ns) (v ∷ vs) d =
      get-fill_values j ns vs (Dict.set (lower n) v d) ∙ rw Dict.get-set

  abbrev Created :
      List Text → List (Value Real) → SimpleSchema → Result (Response (SimpleRecord Real)) → Type 0
  Created ns vs s (ok (success r)) =
      (length ns ≡ length vs)
      × (r.schema ≡ s)
      × ((j : Text) → Dict.get j r.values ≡ last_value j ns vs none)
      × All (λ (c : Column). Fits c (value_of r.values c.name)) s.cols
  Created ns vs s _ = Unit

  Created-create_record :
      (ns : List Text) (vs : List (Value Real)) (s : SimpleSchema)
      → Created ns vs s (create_record f ns vs s)
  unfolding create_record Dict.get
  Created-create_record ns vs s = elim (Bool-cases (length ns == length vs)) [
    | inr e ↦ rw e tt
    | inl e ↦
        let r : SimpleRecord Real = record { values = fill_values ns vs []; schema = s } in
        elim (Result-Response-cases (validate_record f r)) [
          | inl v ↦
              rw (e, v)
                (ground arith, refl, λ j. get-fill_values j ns vs [], (validate_record_iff r).0 v)
          | inr (inl (x, v)) ↦ rw (e, v) tt
          | inr (inr (x, v)) ↦ rw (e, v) tt
        ]
  ]

  -- A created record has as many names as values and the given schema, holds under each name the last
  -- value that was given for it in any case of letters, and fits every column of the schema.
  pub create_record_success :
      (ns : List Text) (vs : List (Value Real)) (s : SimpleSchema) (r : SimpleRecord Real)
      → create_record f ns vs s ≡ ok (success r)
      → (length ns ≡ length vs)
        × (r.schema ≡ s)
        × ((j : Text) → Dict.get j r.values ≡ last_value j ns vs none)
        × All (λ (c : Column). Fits c (value_of r.values c.name)) s.cols
  create_record_success ns vs s r h = rw h at (Created-create_record ns vs s)
