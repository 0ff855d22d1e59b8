-- ===== src/Schema/Valid.antt =====
-- What `validate_schema` and `generate_schema` of learndb/schema.py establish.
use learndb_py.Prelude.{
  ◌<◌, ◌≡◌, refl, ◌↔◌, true, false, some, List, [], ◌∷◌, length, ◌==◌, arith, All, subst,
  Bool-cases, inl, inr,
}
use learndb_py.Bytes.Utf8.{Text}
use learndb_py.Names.{text_eq, text_eq_iff, lower, lower-lower}
use learndb_py.Datatypes.{DataType, integer_type}
use learndb_py.Responses.{Response, success, failure, Response-cases}
use learndb_py.Schema.{
  Column, column, SimpleSchema, first_primary_key, primary_keys, is_integer, text_member,
  check_unique, validate_schema, ColumnDef, CreateStmnt, generate_columns, generate_schema,
  token_to_datatype,
}

-- No column is called `j`.
abbrev pub Fresh : Text → List Column → Type 0
Fresh j cs = All (λ (c : Column). text_eq c.name j ≡ false) cs

-- The names of the columns are distinct.
abbrev pub Distinct : List Column → Type 0
Distinct [] = Unit
Distinct (c ∷ cs) = Fresh c.name cs × Distinct cs

-- Every primary key is an integer.
abbrev pub IntegerKeys : List Column → Type 0
IntegerKeys cs = All (λ (c : Column). c.is_primary_key ≡ true → c.datatype ≡ integer_type) cs

pub record IsValid (cols : List Column) : Type 0 where
  pub one_key : length (primary_keys cols) ≡ 1
  pub integer_keys : IntegerKeys cols
  pub distinct : Distinct cols

pub is_integer→eq : (d : DataType) → is_integer d ≡ true → d ≡ integer_type
is_integer→eq d h = ground arith

pub text_eq_comm : (a b : Text) → text_eq a b ≡ text_eq b a
text_eq_comm a b = ground (arith, text_eq_iff a b, text_eq_iff b a)

-- No name of the columns is among `names`.
abbrev Unseen : List Text → List Column → Type 0
Unseen names cs = All (λ (c : Column). text_member c.name names ≡ false) cs

Unseen-cons :
    (n : Text) (names : List Text) (cs : List Column)
    → Unseen names cs
    → Fresh n cs
    → Unseen (n ∷ names) cs
unfolding text_member
Unseen-cons n names [] h k = tt
Unseen-cons n names (c ∷ cs) h k = (ground arith, Unseen-cons n names cs h.1 k.1)

Unseen-tail :
    (n : Text) (names : List Text) (cs : List Column)
    → Unseen (n ∷ names) cs
    → Unseen names cs × Fresh n cs
unfolding text_member
Unseen-tail n names [] h = (tt, tt)
Unseen-tail n names (c ∷ cs) h =
    let (u, f) = Unseen-tail n names cs h.1 in ((ground arith, u), (ground arith, f))

check_unique→Distinct :
    (names : List Text) (cs : List Column)
    → check_unique names cs ≡ success tt
    → Unseen names cs × Distinct cs
unfolding check_unique
check_unique→Distinct names [] h = (tt, tt)
check_unique→Distinct names (c ∷ cs) h = elim (Bool-cases (text_member c.name names)) [
  | inl e ↦ cc
  | inr e ↦
      let (u, d) = check_unique→Distinct (c.name ∷ names) cs (rw e at h) in
      let (u', f) = Unseen-tail c.name names cs u in ((e, u'), (f, d))
]

Distinct→check_unique :
    (names : List Text) (cs : List Column)
    → Unseen names cs
    → Distinct cs
    → check_unique names cs ≡ success tt
unfolding check_unique
Distinct→check_unique names [] u d = refl
Distinct→check_unique names (c ∷ cs) u d =
    rw (u.0) (Distinct→check_unique (c.name ∷ names) cs (Unseen-cons c.name names cs u.1 d.0) d.1)

Unseen-nil : (cs : List Column) → Unseen [] cs
unfolding text_member
Unseen-nil [] = tt
Unseen-nil (c ∷ cs) = (refl, Unseen-nil cs)

keys_none : (cs : List Column) → length (primary_keys cs) ≡ 0 → IntegerKeys cs
unfolding primary_keys
keys_none [] h = tt
keys_none (c ∷ cs) h = (λ e. ground arith, keys_none cs (ground arith))

keys_one :
    (cs : List Column) (k : Column)
    → length (primary_keys cs) ≡ 1
    → first_primary_key cs ≡ some k
    → k.datatype ≡ integer_type
    → IntegerKeys cs
unfolding primary_keys first_primary_key
keys_one [] k h e d = tt
keys_one (c ∷ cs) k h e d = elim (Bool-cases c.is_primary_key) [
  | inl p ↦ (λ _. ground arith, keys_none cs (ground arith))
  | inr p ↦ (λ q. cc, keys_one cs k (ground arith) (ground arith) d)
]

keys_first :
    (cs : List Column)
    → 0 < length (primary_keys cs)
    → (k : Column) × (first_primary_key cs ≡ some k) × (IntegerKeys cs → k.datatype ≡ integer_type)
unfolding primary_keys first_primary_key
keys_first [] h = absurd (omega arith)
keys_first (c ∷ cs) h = elim (Bool-cases c.is_primary_key) [
  | inl p ↦ (c, rw p, λ ks. ks.0 p)
  | inr p ↦ let (k, e, d) = keys_first cs (ground arith) in (k, rw p e, λ ks. d ks.1)
]

eq→is_integer : (d : DataType) → d ≡ integer_type → is_integer d ≡ true
eq→is_integer d h = rw h

validate_schema→IsValid : (s : SimpleSchema) → validate_schema s ≡ success tt → IsValid s.cols
unfolding validate_schema
validate_schema→IsValid s h = elim (Bool-cases (length (primary_keys s.cols) == 1)) [
  | inr e ↦ cc (rw e at h)
  | inl e ↦
      let one : length (primary_keys s.cols) ≡ 1 = ground arith in
      let (k, f, d) = keys_first s.cols (omega arith) in
      elim (Bool-cases (is_integer k.datatype)) [
        | inr i ↦ cc (rw (e, f, i) at h)
        | inl i ↦ record {
          one_key = one;
          integer_keys = keys_one s.cols k one f (is_integer→eq k.datatype i);
          distinct = (check_unique→Distinct [] s.cols (rw (e, f, i) at h)).1;
        }
      ]
]

IsValid→validate_schema : (s : SimpleSchema) → IsValid s.cols → validate_schema s ≡ success tt
unfolding validate_schema
IsValid→validate_schema s v =
    let (k, f, d) = keys_first s.cols (omega (arith, v.one_key)) in
    rw (v.one_key, f, eq→is_integer k.datatype (d v.integer_keys))
      (Distinct→check_unique [] s.cols (Unseen-nil s.cols) v.distinct)

-- `validate_schema` succeeds exactly on the schemas that have one primary key, an integer, and
-- columns of distinct names.
pub validate_schema_iff : (s : SimpleSchema) → (validate_schema s ≡ success tt) ↔ IsValid s.cols
validate_schema_iff s = (validate_schema→IsValid s, IsValid→validate_schema s)

-- The columns are those of the definitions, in order, under lower-case names.
abbrev pub Generated : List ColumnDef → List Column → Type 0
Generated [] [] = Unit
Generated [] (c ∷ cs) = ⊥
Generated (d ∷ ds) [] = ⊥
Generated (d ∷ ds) (c ∷ cs) =
    ((c.name ≡ lower d.column_name)
      × (token_to_datatype d.datatype ≡ success c.datatype)
      × (c.is_primary_key ≡ d.is_primary_key)
      × (c.is_nullable ≡ d.is_nullable))
    × Generated ds cs

abbrev Made : List ColumnDef → Response (List Column) → Type 0
Made ds (success cs) = Generated ds cs
Made ds (failure m) = ⊥

generate_columns-Generated :
    (ds : List ColumnDef) (cs : List Column) → generate_columns ds ≡ success cs → Generated ds cs
unfolding generate_columns column
generate_columns-Generated [] [] h = tt
generate_columns-Generated [] (c ∷ cs) h = absurd (cc)
generate_columns-Generated (d ∷ ds) cs h = elim (Response-cases (token_to_datatype d.datatype)) [
  | inr (m, e) ↦ absurd (cc (rw (e, generate_columns) at h))
  | inl (t, e) ↦ elim (Response-cases (generate_columns ds)) [
    | inr (m, f) ↦ absurd (cc (rw (e, f, generate_columns) at h))
    | inl (r, f) ↦
        let q : success (column (lower d.column_name) t d.is_primary_key d.is_nullable ∷ r)
            ≡ success cs =
          rw (e, f, generate_columns) at h in
        subst (λ (x : Response (List Column)). Made (d ∷ ds) x) q
          ((lower-lower d.column_name, e, refl, refl), generate_columns-Generated ds r f)
  ]
]

abbrev Sound : CreateStmnt → Response SimpleSchema → Type 0
Sound stmnt (success s) =
    IsValid s.cols × (s.name ≡ stmnt.table_name) × Generated stmnt.columns s.cols
Sound stmnt (failure m) = ⊥

-- A generated schema is valid, bears the statement's table name, and has the statement's columns in
-- order, with lower-case names and the datatypes that their tokens stand for.
pub generate_schema_success :
    (stmnt : CreateStmnt) (s : SimpleSchema)
    → generate_schema stmnt ≡ success s
    → IsValid s.cols × (s.name ≡ stmnt.table_name) × Generated stmnt.columns s.cols
unfolding generate_schema
generate_schema_success stmnt s h = elim (Response-cases (generate_columns stmnt.columns)) [
  | inr (m, e) ↦ absurd (cc (rw (e, generate_schema) at h))
  | inl (cols, e) ↦
      let made : SimpleSchema = record { name = stmnt.table_name; cols = cols } in
      elim (Response-cases (validate_schema made)) [
        | inr (m, f) ↦ absurd (cc (rw (e, f, generate_schema) at h))
        | inl (u, f) ↦
            let q : success made ≡ success s = rw (e, f, generate_schema) at h in
            subst (λ (x : Response SimpleSchema). Sound stmnt x) q
              (
                validate_schema→IsValid made f,
                refl,
                generate_columns-Generated stmnt.columns cols e,
              )
      ]
]
