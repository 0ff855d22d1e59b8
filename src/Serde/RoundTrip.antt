-- ===== src/Serde/RoundTrip.antt =====
-- `deserialize_cell` of learndb/serde.py on what `serialize_record` wrote.
use learndb_py.Prelude.{
  ℕ, ◌+◌, ◌≡◌, refl, sym, ap, ◌∙◌, true, false, some, List, [], ◌∷◌, ◌++◌, append_assoc, append-nil,
  length, length-append, arith, ok, >>=-eq-ok, inl, inr, All, drop, get_elem?, Bool-cases, pos,
  subst,
}
use learndb_py.Bytes.Slices.{Bytes, slice, slice-append}
use learndb_py.Bytes.Numbers.{to_bytes, from_bytes, to_bytes_ok}
use learndb_py.Bytes.Utf8.{Text}
use learndb_py.Names.{text_eq, text_eq_refl}
use learndb_py.Dict
use learndb_py.Dict.{Dict}
use learndb_py.Datatypes.{FloatFormat, Value, int, integer_type, serialize, deserialize}
use learndb_py.Constants.{word}
use learndb_py.Datatypes.RoundTrip.{NonEmpty, stored, stored_ok, serialize_not_null}
use learndb_py.Responses.{Response, success, failure}
use learndb_py.Schema.{Column, primary_keys}
use learndb_py.Schema.Valid.{Fresh, Distinct, IsValid, text_eq_comm}
use learndb_py.Records.{SimpleRecord, value_of}
use learndb_py.Serde.{
  Chunks, no_chunks, serialize_columns, assemble, assembled, serialize_record, Reader, column_at,
  read_columns, add_missing, deserialize_cell,
}
use learndb_py.Serde.Encoded.{Encoded, serialize_columns-Encoded}
use learndb_py.Serde.Sound.{Placed, read_word}
use learndb_py.Serde.Loop.{ReadBack, AllRead, read_columns-Encoded}

-- The parts of a cell.
pub record Parts (c : Chunks) (cell : Bytes) : Type 0 where
  pub key_size : Bytes
  pub data_size : Bytes
  pub header_len : Bytes
  pub key_size_eq : to_bytes word (length c.key) ≡ ok key_size
  pub data_size_eq : to_bytes word (length ((header_len ++ c.data_header) ++ c.body)) ≡ ok data_size
  pub header_len_eq : to_bytes word (word + length c.data_header) ≡ ok header_len
  pub cell_eq :
      cell ≡ key_size ++ (data_size ++ (c.key ++ ((header_len ++ c.data_header) ++ c.body)))

assemble-Parts : (c : Chunks) (cell : Bytes) → assemble c ≡ ok cell → Parts c cell
unfolding assemble
assemble-Parts c cell h =
    let (hl, e, h₁) = >>=-eq-ok (to_bytes word (word + length c.data_header)) _ h in
    let (ks, e', h₂) = >>=-eq-ok (to_bytes word (length c.key)) _ h₁ in
    let (ds, e'', h₃) = >>=-eq-ok (to_bytes word (length ((hl ++ c.data_header) ++ c.body))) _ h₂ in
    record {
      key_size = ks;
      data_size = ds;
      header_len = hl;
      key_size_eq = e';
      data_size_eq = e'';
      header_len_eq = e;
      cell_eq = ground (arith, h₃);
    }

assembled-eq :
    (r : Response Chunks) (cell : Bytes)
    → assembled r ≡ ok (success cell)
    → (c : Chunks) × (r ≡ success c) × (assemble c ≡ ok cell)
assembled-eq (success c) cell h =
    let (x, e, k) = >>=-eq-ok (assemble c) _ h in (c, refl, e ∙ ground (arith, k))
assembled-eq (failure m) cell h = absurd (cc)

-- The columns with one primary key.
no_keys :
    (Q : Column → Type 0) (cs : List Column)
    → primary_keys cs ≡ []
    → All (λ (c : Column). c.is_primary_key ≡ true → Q c) cs
unfolding primary_keys
no_keys Q [] h = tt
no_keys Q (c ∷ cs) h = (λ e. absurd (ground arith), no_keys Q cs (ground arith))

one_key :
    (Q : Column → Type 0) (p : Column) (cs : List Column)
    → primary_keys cs ≡ p ∷ []
    → Q p
    → All (λ (c : Column). c.is_primary_key ≡ true → Q c) cs
unfolding primary_keys
one_key Q p [] h q = tt
one_key Q p (c ∷ cs) h q = elim (Bool-cases c.is_primary_key) [
  | inl e ↦ let same : p ≡ c = ground arith in (λ _. subst Q same q, no_keys Q cs (ground arith))
  | inr e ↦ (λ k. absurd (cc), one_key Q p cs (ground arith) q)
]

Fresh-key :
    (p : Column) (j : Text) (cs : List Column)
    → primary_keys cs ≡ p ∷ []
    → Fresh j cs
    → text_eq p.name j ≡ false
unfolding primary_keys
Fresh-key p j [] h fr = absurd (cc)
Fresh-key p j (c ∷ cs) h fr = elim (Bool-cases c.is_primary_key) [
  | inl e ↦ let same : p ≡ c = ground arith in rw same fr.0
  | inr e ↦ Fresh-key p j cs (ground arith) fr.1
]

Fresh→All :
    (j : Text) (cs : List Column)
    → Fresh j cs
    → All (λ (c : Column). c.is_primary_key ≡ false → text_eq c.name j ≡ false) cs
Fresh→All j [] h = tt
Fresh→All j (c ∷ cs) h = (λ _. h.0, Fresh→All j cs h.1)

-- The columns that are no primary keys are not called `j`.
abbrev Others : Text → List Column → Type 0
Others j cs = All (λ (c : Column). c.is_primary_key ≡ false → text_eq c.name j ≡ false) cs

Distinct-key :
    (p : Column) (cs : List Column) → primary_keys cs ≡ p ∷ [] → Distinct cs → Others p.name cs
unfolding primary_keys
Distinct-key p [] h d = tt
Distinct-key p (c ∷ cs) h d = elim (Bool-cases c.is_primary_key) [
  | inl e ↦
      let same : p ≡ c = ground arith in
      let named : p.name ≡ c.name = ap (λ (x : Column). x.name) same in
      (λ k. absurd (cc), subst (λ (n : Text). Others n cs) (sym named) (Fresh→All c.name cs d.0))
  | inr e ↦
      let rest : primary_keys cs ≡ p ∷ [] = ground arith in
      (λ _. text_eq_comm c.name p.name ∙ Fresh-key p c.name cs rest d.0, Distinct-key p cs rest d.1)
]

All-merge :
    (Q : Column → Type 0) (cs : List Column)
    → All (λ (c : Column). c.is_primary_key ≡ false → Q c) cs
    → All (λ (c : Column). c.is_primary_key ≡ true → Q c) cs
    → All Q cs
All-merge Q [] a b = tt
All-merge Q (c ∷ cs) a b = elim (Bool-cases c.is_primary_key) [
  | inl e ↦ (b.0 e, All-merge Q cs a.1 b.1)
  | inr e ↦ (a.0 e, All-merge Q cs a.1 b.1)
]

singleton : (cs : List Column) → length cs ≡ 1 → (p : Column) × (cs ≡ p ∷ [])
singleton [] h = absurd (omega arith)
singleton (p ∷ []) h = (p, refl)
singleton (p ∷ (q ∷ cs)) h = absurd (omega arith)

module _ (f : FloatFormat) where
  open f use {Real}

  add_missing_none :
      (d d' : Dict (Value Real)) (cs : List Column)
      → All (ReadBack f d d') cs
      → add_missing f cs d' ≡ d'
  unfolding add_missing
  add_missing_none d d' [] h = refl
  add_missing_none d d' (c ∷ cs) h =
      let (w, _, e) = h.0 in rw Dict.contains-eq-has (rw e (add_missing_none d d' cs h.1))

  -- What a successful serialization consists of.
  pub record Serialized (r : SimpleRecord Real) (cell : Bytes) : Type 0 where
    pub chunks : Chunks
    pub parts : Parts chunks cell
    pub encoded : Encoded f r.values r.schema.cols chunks.data_header chunks.body
    pub key_col : Column
    pub key_eq : primary_keys r.schema.cols ≡ key_col ∷ []
    pub key_integer : key_col.datatype ≡ integer_type
    pub key_bytes : serialize f key_col.datatype (value_of r.values key_col.name) ≡ ok chunks.key

  pub serialize_record-Serialized :
      (r : SimpleRecord Real) (cell : Bytes)
      → length (primary_keys r.schema.cols) ≡ 1
      → serialize_record f r ≡ ok (success cell)
      → Serialized r cell
  unfolding serialize_record
  serialize_record-Serialized r cell one h =
      let (resp, e, k) = >>=-eq-ok (serialize_columns f r.schema.cols r.values no_chunks) _ h in
      let (c, er, a) = assembled-eq resp cell k in
      let (hs, bs, enc, eh, eb, keys) =
        serialize_columns-Encoded f r.schema.cols r.values no_chunks c (rw er at e) in
      let (p, ep) = singleton (primary_keys r.schema.cols) one in
      let (t, kb) = keys.1 p ep in
      record {
        chunks = c;
        parts = assemble-Parts c cell a;
        encoded =
            subst (λ (x : Bytes). Encoded f r.values r.schema.cols x c.body) (sym eh)
              (subst (λ (x : Bytes). Encoded f r.values r.schema.cols hs x) (sym eb) enc);
        key_col = p;
        key_eq = ep;
        key_integer = t;
        key_bytes = kb;
      }

  -- The reader that the loop of `deserialize_cell` starts from.
  abbrev start : (c : Chunks) → Column → Reader f
  start c p = record {
    header_offset = word + word + length c.key + word;
    data_offset = word + word + length c.key + (word + length c.data_header);
    col_pos = 0;
    values = Dict.set p.name (int (pos (from_bytes c.key))) [];
  }

  module _ (r : SimpleRecord Real) (cell : Bytes) (z : Serialized r cell) where
    open z use {chunks, parts, key_col}

    abbrev front : Bytes
    front = parts.key_size ++ parts.data_size

    abbrev pub rest : Bytes
    rest = (parts.header_len ++ chunks.data_header) ++ chunks.body

    length-front : length front ≡ word + word
    length-front = omega (
      arith,
      length-append parts.key_size parts.data_size,
      (to_bytes_ok word _ parts.key_size parts.key_size_eq).0,
      (to_bytes_ok word _ parts.data_size parts.data_size_eq).0,
    )

    pub read_key_size : from_bytes (slice cell 0 word) ≡ length chunks.key
    read_key_size = rw parts.cell_eq (
        read_word (length chunks.key) parts.key_size [] (parts.data_size ++ (chunks.key ++ rest)) 0
          parts.key_size_eq refl)

    at_key : cell ≡ front ++ (chunks.key ++ rest)
    at_key = parts.cell_eq ∙ simp append_assoc

    pub read_key : slice cell (word + word) (word + word + length chunks.key) ≡ chunks.key
    read_key = rw at_key (
        slice-append front chunks.key rest (word + word) (word + word + length chunks.key)
          (sym length-front) refl)

    at_header :
        cell ≡ (front ++ chunks.key) ++ (parts.header_len ++ (chunks.data_header ++ chunks.body))
    at_header = parts.cell_eq ∙ simp append_assoc

    read_header_size :
        from_bytes
          (slice cell (word + word + length chunks.key) (word + word + length chunks.key + word))
        ≡ word + length chunks.data_header
    read_header_size = rw at_header (
        read_word (word + length chunks.data_header) parts.header_len (front ++ chunks.key)
          (chunks.data_header ++ chunks.body) (word + word + length chunks.key) parts.header_len_eq
          (omega (arith, length-front, length-append front chunks.key)))

    Placed-start : Placed f cell (start chunks key_col) chunks.data_header chunks.body
    Placed-start = record {
      pre = (front ++ chunks.key) ++ parts.header_len;
      mid = [];
      post = [];
      cell_eq = at_header ∙ simp (append_assoc, append-nil);
      header_eq = omega (
        arith,
        length-front,
        length-append front chunks.key,
        length-append (front ++ chunks.key) parts.header_len,
        (to_bytes_ok word _ parts.header_len parts.header_len_eq).0,
      );
      data_eq = omega (
        arith,
        length-front,
        length-append front chunks.key,
        length-append (front ++ chunks.key) parts.header_len,
        (to_bytes_ok word _ parts.header_len parts.header_len_eq).0,
      );
    }

    -- The loop reads every column that is no primary key, and leaves the key.
    loop_reads :
        IsValid r.schema.cols
        → All (λ (c : Column). NonEmpty f (value_of r.values c.name)) r.schema.cols
        → (s' : Reader f) × (read_columns f
              (word + word + length chunks.key + (word + length chunks.data_header))
              cell
              r.schema.cols
              (word + word + length chunks.key + (word + length chunks.data_header))
              (start chunks key_col)
            ≡ ok s')
          × AllRead f r.values (start chunks key_col).values s'.values r.schema.cols
    unfolding drop
    loop_reads v ne =
        read_columns-Encoded f r.values cell r.schema.cols _ _ (start chunks key_col) z.encoded
          Placed-start (omega arith) (omega arith) (inl refl) (omega (arith, v.one_key)) v.distinct
          ne

    columns_back :
        IsValid r.schema.cols
        → (s' : Reader f) → AllRead f r.values (start chunks key_col).values s'.values r.schema.cols
        → All (ReadBack f r.values s'.values) r.schema.cols
    columns_back v s' a = All-merge (ReadBack f r.values s'.values) r.schema.cols a.reads (
        one_key (ReadBack f r.values s'.values) key_col r.schema.cols z.key_eq (
          int (pos (from_bytes chunks.key)),
          stored_ok f key_col.datatype _ _ chunks.key
              (serialize_not_null f key_col.datatype _ chunks.key z.key_bytes) z.key_bytes
              (rw z.key_integer (unfold deserialize in refl)),
          a.frame key_col.name (Distinct-key key_col r.schema.cols z.key_eq v.distinct)
              ∙ rw Dict.get-set (rw (text_eq_refl key_col.name) refl),
        ))

  module _ (r : SimpleRecord Real) (cell : Bytes) (z : Serialized r cell) (s' : Reader f) where
    open z use {chunks, key_col}

    abbrev ubound : ℕ
    ubound = word + word + length chunks.key + (word + length chunks.data_header)

    column_at_key : column_at (key_col ∷ []) 0 ≡ ok key_col
    unfolding column_at get_elem?
    column_at_key = refl

    runs :
        read_columns f ubound cell r.schema.cols ubound (start chunks key_col) ≡ ok s'
        → All (ReadBack f r.values s'.values) r.schema.cols
        → deserialize_cell f cell r.schema
          ≡ ok (success (record { values = s'.values; schema = r.schema }))
    unfolding deserialize_cell
    runs e back = rw (read_key_size r cell z) (
        rw (read_key r cell z) (
          rw (read_header_size r cell z) (
            rw z.key_eq (
              rw column_at_key
                (rw e (rw (add_missing_none r.values s'.values r.schema.cols back) refl))))))

  -- Deserializing a cell that was serialized gives a record of the same schema in which every column holds
  -- the stored form of its value, if the schema is valid and no text or blob is empty.
  pub deserialize_cell-serialize_record :
      (r : SimpleRecord Real) (cell : Bytes)
      → IsValid r.schema.cols
      → All (λ (c : Column). NonEmpty f (value_of r.values c.name)) r.schema.cols
      → serialize_record f r ≡ ok (success cell)
      → (d : Dict (Value Real)) × (deserialize_cell f cell r.schema
          ≡ ok (success (record { values = d; schema = r.schema })))
        × All
            (λ (c : Column).
              (w : Value Real) × (stored f c.datatype (value_of r.values c.name) ≡ ok w)
              × (Dict.get c.name d ≡ some w))
            r.schema.cols
  deserialize_cell-serialize_record r cell v ne h =
      let z = serialize_record-Serialized r cell v.one_key h in
      let (s', e, a) = loop_reads r cell z v ne in
      let back = columns_back r cell z v s' a in (s'.values, runs r cell z s' e back, back)
