-- ===== src/Serde/Encoded.antt =====
-- What `serialize_record` of learndb/serde.py writes: the header and the body of a cell, column by
-- column.
use learndb_py.Prelude.{
  ◌≡◌, refl, ap, ◌∙◌, sym, true, false, List, [], ◌∷◌, ◌++◌, append_assoc, append-nil, length,
  arith, Result, ok, err, Result-cases, Bool-cases, inl, inr, ◌⊎◌, subst,
}
use learndb_py.Bytes.Slices.{Bytes}
use learndb_py.Bytes.Numbers.{to_bytes}
use learndb_py.Dict.{Dict}
use learndb_py.Datatypes.{
  FloatFormat, Value, null, is_null, integer_type, is_serializable, is_fixed_length, serialize,
}
use learndb_py.Constants.{word}
use learndb_py.Responses.{Response, success, failure}
use learndb_py.Schema.{Column, is_integer, primary_keys}
use learndb_py.Schema.Valid.{is_integer→eq}
use learndb_py.Records.{value_of}
use learndb_py.Serde.{
  serial_value, datatype_to_serialtype, Chunks, serialize_key, serialize_value, serialize_null,
  serialize_column, then_columns, serialize_columns,
}

module _ (f : FloatFormat) where
  open f use {Real}

  -- The entry of a header, and the bytes of the body, for one column that is no primary key.
  pub data Entry (c : Column) (v : Value Real) : Bytes → Bytes → Type 0 where
    of_null : (st : Bytes) → v ≡ null → to_bytes word 0 ≡ ok st → Entry c v st []
    of_fixed :
        (st b : Bytes)
        → is_null v ≡ false
        → is_serializable c.datatype ≡ true
        → is_fixed_length c.datatype ≡ true
        → to_bytes word (serial_value (datatype_to_serialtype c.datatype)) ≡ ok st
        → serialize f c.datatype v ≡ ok b
        → Entry c v (st ++ []) b
    of_varying :
        (st len b : Bytes)
        → is_null v ≡ false
        → is_fixed_length c.datatype ≡ false
        → to_bytes word (serial_value (datatype_to_serialtype c.datatype)) ≡ ok st
        → to_bytes word (length b) ≡ ok len
        → serialize f c.datatype v ≡ ok b
        → Entry c v (st ++ len) b

  -- The header and the body for a list of columns.
  pub data Encoded (d : Dict (Value Real)) : List Column → Bytes → Bytes → Type 0 where
    done : Encoded d [] [] []
    skip :
        {c : Column} {cs : List Column} {h b : Bytes}
        → c.is_primary_key ≡ true
        → Encoded d cs h b
        → Encoded d (c ∷ cs) h b
    entry :
        {c : Column} {cs : List Column} {e x h b : Bytes}
        → c.is_primary_key ≡ false
        → Entry c (value_of d c.name) e x
        → Encoded d cs h b
        → Encoded d (c ∷ cs) (e ++ h) (x ++ b)

  -- A column that is no primary key adds its entry to the chunks, and leaves the key.
  abbrev Adds : Column → Value Real → Chunks → Result (Response Chunks) → Type 0
  Adds col v c (ok (success c')) =
      (e : Bytes) × (x : Bytes) × Entry col v e x
      × (c'.key ≡ c.key)
      × (c'.data_header ≡ c.data_header ++ e)
      × (c'.body ≡ c.body ++ x)
  Adds col v c (ok (failure m)) = Unit
  Adds col v c (err e) = Unit

  Adds-serialize_value :
      (col : Column) (v : Value Real) (c : Chunks)
      → is_null v ≡ false
      → Adds col v c (serialize_value f col v c)
  unfolding serialize_value
  Adds-serialize_value col v c nn = elim (Bool-cases (is_serializable col.datatype)) [
    | inr s ↦ rw s tt
    | inl s ↦
        elim (Result-cases (to_bytes word (serial_value (datatype_to_serialtype col.datatype)))) [
          | inr (x, p) ↦ rw (s, p) tt
          | inl (st, p) ↦ elim (Result-cases (serialize f col.datatype v)) [
            | inr (x, q) ↦ rw (s, p, q) tt
            | inl (b, q) ↦ elim (Bool-cases (is_fixed_length col.datatype)) [
              | inl fx ↦ rw (s, p, q, fx) (st ++ [], b, of_fixed st b nn s fx p q, refl, refl, refl)
              | inr fx ↦ elim (Result-cases (to_bytes word (length b))) [
                | inr (x, r) ↦ rw (s, p, q, fx, r) tt
                | inl (len, r) ↦
                    rw (s, p, q, fx, r)
                      (st ++ len, b, of_varying st len b nn fx p r q, refl, refl, refl)
              ]
            ]
          ]
        ]
  ]

  Adds-serialize_null : (col : Column) (c : Chunks) → Adds col null c (serialize_null f col c)
  unfolding serialize_null
  Adds-serialize_null col c = elim (Bool-cases col.is_nullable) [
    | inr n ↦ rw n tt
    | inl n ↦ elim (Result-cases (to_bytes word 0)) [
      | inr (x, p) ↦ rw (n, p) tt
      | inl (st, p) ↦ rw (n, p) (st, [], of_null st refl p, refl, refl, sym (append-nil c.body))
    ]
  ]

  is_null→eq : (v : Value Real) → is_null v ≡ true → v ≡ null
  is_null→eq null h = refl
  is_null→eq _ h = cc

  -- What a round that succeeds has done.
  abbrev Round : Column → Value Real → Chunks → Result (Response Chunks) → Type 0
  Round col v c (ok (success c')) =
      ((col.is_primary_key ≡ true)
        × (col.datatype ≡ integer_type)
        × (serialize f col.datatype v ≡ ok c'.key)
        × (c'.data_header ≡ c.data_header)
        × (c'.body ≡ c.body))
      ⊎ ((col.is_primary_key ≡ false) × Adds col v c (ok (success c')))
  Round col v c _ = Unit

  Round-serialize_key :
      (col : Column) (v : Value Real) (c : Chunks)
      → col.is_primary_key ≡ true
      → Round col v c (serialize_key f col v c)
  unfolding serialize_key
  Round-serialize_key col v c pk = elim (Bool-cases (is_integer col.datatype)) [
    | inr i ↦ rw i tt
    | inl i ↦ elim (Bool-cases (is_null v)) [
      | inl n ↦ rw (i, n) tt
      | inr n ↦ elim (Result-cases (serialize f col.datatype v)) [
        | inr (x, q) ↦ rw (i, n, q) tt
        | inl (k, q) ↦ rw (i, n, q) (inl (pk, is_integer→eq col.datatype i, q, refl, refl))
      ]
    ]
  ]

  Round-of_Adds :
      (col : Column) (v : Value Real) (c : Chunks) (m : Result (Response Chunks))
      → col.is_primary_key ≡ false
      → Adds col v c m
      → Round col v c m
  Round-of_Adds col v c (ok (success c')) pk a = inr (pk, a)
  Round-of_Adds col v c (ok (failure x)) pk a = tt
  Round-of_Adds col v c (err x) pk a = tt

  Round-serialize_column :
      (col : Column) (v : Value Real) (c : Chunks) → Round col v c (serialize_column f col v c)
  unfolding serialize_column
  Round-serialize_column col v c = elim (Bool-cases col.is_primary_key) [
    | inl pk ↦ simp pk (Round-serialize_key col v c pk)
    | inr pk ↦ elim (Bool-cases (is_null v)) [
      | inl n ↦
          simp (pk, n)
            (Round-of_Adds col v c _ pk (
              subst (λ (w : Value Real). Adds col w c (serialize_null f col c))
                (sym (is_null→eq v n)) (Adds-serialize_null col c)))
      | inr n ↦ simp (pk, n) (Round-of_Adds col v c _ pk (Adds-serialize_value col v c n))
    ]
  ]

  then_columns-eq :
      (m : Result (Response Chunks)) (k : Chunks → Result (Response Chunks)) (c : Chunks)
      → then_columns m k ≡ ok (success c)
      → (c' : Chunks) × (m ≡ ok (success c')) × (k c' ≡ ok (success c))
  then_columns-eq (ok (success c')) k c h = (c', refl, h)
  then_columns-eq (ok (failure x)) k c h = cc
  then_columns-eq (err x) k c h = cc

  -- The key is the one before where no column is a primary key, and the one column's where one is.
  abbrev KeyOf : Dict (Value Real) → List Column → Bytes → Bytes → Type 0
  KeyOf d cs old new =
      (primary_keys cs ≡ [] → new ≡ old)
      × ((p : Column)
          → primary_keys cs ≡ p ∷ []
          → (p.datatype ≡ integer_type) × (serialize f p.datatype (value_of d p.name) ≡ ok new))

  KeyOf-key :
      (c : Column) (cs : List Column) (d : Dict (Value Real)) (old k new : Bytes)
      → c.is_primary_key ≡ true
      → c.datatype ≡ integer_type
      → serialize f c.datatype (value_of d c.name) ≡ ok k
      → KeyOf d cs k new
      → KeyOf d (c ∷ cs) old new
  unfolding primary_keys
  KeyOf-key c cs d old k new pk t q keys =
      (λ e. absurd (ground arith), λ p e. (ground arith, ground (arith, keys.0 (ground arith))))

  KeyOf-other :
      (c : Column) (cs : List Column) (d : Dict (Value Real)) (old k new : Bytes)
      → c.is_primary_key ≡ false
      → k ≡ old
      → KeyOf d cs k new
      → KeyOf d (c ∷ cs) old new
  unfolding primary_keys
  KeyOf-other c cs d old k new pk q keys =
      (λ e. keys.0 (ground arith) ∙ q, λ p e. keys.1 p (ground arith))

  -- The chunks after the loop: header and body are those before it with the columns' encoding behind.
  pub serialize_columns-Encoded :
      (cs : List Column) (d : Dict (Value Real)) (c c' : Chunks)
      → serialize_columns f cs d c ≡ ok (success c')
      → (h : Bytes) × (b : Bytes) × Encoded d cs h b
        × (c'.data_header ≡ c.data_header ++ h)
        × (c'.body ≡ c.body ++ b)
        × KeyOf d cs c.key c'.key
  unfolding serialize_columns primary_keys
  serialize_columns-Encoded [] d c c' h = (
    [],
    [],
    done,
    ground (arith, append-nil c.data_header),
    ground (arith, append-nil c.body),
    (λ e. ground arith, λ p e. absurd (cc)),
  )
  serialize_columns-Encoded (col ∷ cs) d c c' h =
      let (c₁, first, later) =
        then_columns-eq (serialize_column f col (value_of d col.name) c) _ c' h in
      let (hs, bs, enc, eh, eb, keys) = serialize_columns-Encoded cs d c₁ c' later in
      elim (rw first at (Round-serialize_column col (value_of d col.name) c)) [
        | inl (pk, t, q, sh, sb) ↦ (
          hs,
          bs,
          skip pk enc,
          eh ∙ ap (λ (x : Bytes). x ++ hs) sh,
          eb ∙ ap (λ (x : Bytes). x ++ bs) sb,
          KeyOf-key col cs d c.key c₁.key c'.key pk t q keys,
        )
        | inr (pk, (e, x, en, sk, sh, sb)) ↦ (
          e ++ hs,
          x ++ bs,
          entry pk en enc,
          eh ∙ ap (λ (y : Bytes). y ++ hs) sh ∙ append_assoc c.data_header e hs,
          eb ∙ ap (λ (y : Bytes). y ++ bs) sb ∙ append_assoc c.body x bs,
          KeyOf-other col cs d c.key c₁.key c'.key pk sk keys,
        )
      ]
