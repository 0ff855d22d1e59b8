-- ===== src/Serde/Loop.antt =====
-- The loop of `deserialize_cell` in learndb/serde.py over a whole encoding.
use learndb_py.Prelude.{
  ℕ, zero, suc, ◌+◌, ◌≤◌, ◌<◌, ◌≡◌, refl, ◌∙◌, true, false, some, List, [], ◌∷◌, ◌++◌, append_assoc,
  length, length-append, arith, ok, inl, inr, ◌⊎◌, All, drop, get_elem?, lt→ltb,
}
use learndb_py.Bytes.Slices.{Bytes}
use learndb_py.Bytes.Numbers.{to_bytes_ok}
use learndb_py.Bytes.Utf8.{Text}
use learndb_py.Names.{text_eq, text_eq_refl}
use learndb_py.Dict
use learndb_py.Dict.{Dict}
use learndb_py.Datatypes.{FloatFormat, Value}
use learndb_py.Constants.{word}
use learndb_py.Datatypes.RoundTrip.{NonEmpty, stored}
use learndb_py.Schema.{Column, primary_keys}
use learndb_py.Schema.Valid.{Fresh, Distinct}
use learndb_py.Records.{value_of}
use learndb_py.Serde.{Reader, column_at, next_column, read_column, read_columns}
use learndb_py.Serde.Encoded.{Entry, of_null, of_fixed, of_varying, Encoded, done, skip, entry}
use learndb_py.Serde.Sound.{Placed, advance, read_column-Entry}

drop-cons :
    (cols : List Column) (k : ℕ) (c : Column) (r : List Column)
    → drop k cols ≡ c ∷ r
    → (get_elem? cols k ≡ some c) × (drop (k + 1) cols ≡ r)
unfolding drop get_elem?
drop-cons [] zero c r h = absurd (cc)
drop-cons [] (suc k) c r h = absurd (cc)
drop-cons (x ∷ cols) zero c r h = (ground arith, ground arith)
drop-cons (x ∷ cols) (suc k) c r h =
    let (e, d) = drop-cons cols k c r h in
    let p : suc k + 1 ≡ suc (k + 1) = omega arith in (e, rw p d)

-- The columns from position `k` on are `rest`, but for a primary key that may stand before it.
abbrev pub Ready : List Column → ℕ → List Column → Type 0
Ready cols k rest =
    (drop k cols ≡ rest) ⊎ ((p : Column) × (drop k cols ≡ p ∷ rest) × (p.is_primary_key ≡ true))

pub column_at-some :
    (cols : List Column) (k : ℕ) (c : Column) → get_elem? cols k ≡ some c → column_at cols k ≡ ok c
unfolding column_at
column_at-some cols k c h = ground arith

next_column-Ready :
    (cols : List Column) (k : ℕ) (c : Column) (cs : List Column)
    → Ready cols k (c ∷ cs)
    → c.is_primary_key ≡ false
    → (k' : ℕ) × (next_column cols k ≡ ok (c, k'))
      × (drop k' cols ≡ cs)
      × (length (primary_keys cs) ≤ length (primary_keys (drop k cols)))
unfolding next_column primary_keys
next_column-Ready cols k c cs (inl e) pk =
    let (g, d) = drop-cons cols k c cs e in
    let a = column_at-some cols k c g in (k + 1, ground arith, d, rw e (simp pk (omega arith)))
next_column-Ready cols k c cs (inr (p, e, pp)) pk =
    let (g, d) = drop-cons cols k p (c ∷ cs) e in
    let (g', d') = drop-cons cols (k + 1) c cs d in
    let a = column_at-some cols k p g in
    let a' = column_at-some cols (k + 1) c g' in
    (k + 1 + 1, ground arith, d', rw e (simp (pp, pk) (omega arith)))

-- Two primary keys cannot stand one behind the other where there is one at most.
Ready-skip :
    (cols : List Column) (k : ℕ) (c : Column) (cs : List Column)
    → Ready cols k (c ∷ cs)
    → c.is_primary_key ≡ true
    → length (primary_keys (drop k cols)) ≤ 1
    → Ready cols k cs
unfolding primary_keys
Ready-skip cols k c cs (inl e) pk one = inr (c, e, pk)
Ready-skip cols k c cs (inr (p, e, pp)) pk one =
    absurd (let two = rw e at one in ground (arith, pp, pk, two))

module _ (f : FloatFormat) where
  open f use {Real}

  Entry-pos : (c : Column) (v : Value Real) (e x : Bytes) → Entry f c v e x → 0 < length e
  Entry-pos c v e x (of_null st q t) = omega (arith, (to_bytes_ok word 0 st t).0)
  Entry-pos c v e x (of_fixed st b nn sz fx t q) =
      omega (arith, (to_bytes_ok word _ st t).0, length-append st [])
  Entry-pos c v e x (of_varying st len b nn fx t l q) =
      omega (arith, (to_bytes_ok word _ st t).0, length-append st len)

  read_columns_end :
      (fuel : ℕ) (cell : Bytes) (cols : List Column) (ubound : ℕ) (s : Reader f)
      → ubound ≤ s.header_offset
      → read_columns f fuel cell cols ubound s ≡ ok s
  unfolding read_columns
  read_columns_end zero cell cols ubound s e = ground arith
  read_columns_end (suc fuel) cell cols ubound s e = ground arith

  read_columns_step :
      (fuel : ℕ) (cell : Bytes) (cols : List Column) (ubound : ℕ) (s s' : Reader f)
      → s.header_offset < ubound
      → read_column f cell cols s ≡ ok s'
      → read_columns f (suc fuel) cell cols ubound s ≡ read_columns f fuel cell cols ubound s'
  unfolding read_columns
  read_columns_step fuel cell cols ubound s s' lt e = rw (lt→ltb s.header_offset ubound lt, e)

  Placed-entry :
      (cell : Bytes) (s : Reader f) (e h x b : Bytes)
      → Placed f cell s (e ++ h) (x ++ b)
      → Placed f cell s e x
  Placed-entry cell s e h x b p = record {
    pre = p.pre;
    mid = h ++ p.mid;
    post = b ++ p.post;
    cell_eq = p.cell_eq ∙ simp append_assoc;
    header_eq = p.header_eq;
    data_eq = omega (arith, p.data_eq, length-append e h, length-append h p.mid);
  }

  Placed-rest :
      (cell : Bytes) (s : Reader f) (e h x b : Bytes) (k : ℕ) (n : Text) (w : Value Real)
      → Placed f cell s (e ++ h) (x ++ b)
      → Placed f cell (advance f s (length e) (length x) k n w) h b
  Placed-rest cell s e h x b k n w p = record {
    pre = p.pre ++ e;
    mid = p.mid ++ x;
    post = p.post;
    cell_eq = p.cell_eq ∙ simp append_assoc;
    header_eq = omega (arith, p.header_eq, length-append p.pre e);
    data_eq =
        omega (arith, p.data_eq, length-append e h, length-append p.pre e, length-append p.mid x);
  }

  -- The column's stored value stands under its name.
  abbrev pub ReadBack : Dict (Value Real) → Dict (Value Real) → Column → Type 0
  ReadBack d d' c =
      (w : Value Real) × (stored f c.datatype (value_of d c.name) ≡ ok w)
      × (Dict.get c.name d' ≡ some w)

  -- Of the columns that are no primary keys, each is read back, and nothing else is written.
  pub record AllRead (d before after : Dict (Value Real)) (cs : List Column) : Type 0 where
    pub reads : All (λ (c : Column). c.is_primary_key ≡ false → ReadBack d after c) cs
    pub frame :
        (j : Text)
        → All (λ (c : Column). c.is_primary_key ≡ false → text_eq c.name j ≡ false) cs
        → Dict.get j after ≡ Dict.get j before

  Fresh-frame :
      (j : Text) (cs : List Column)
      → Fresh j cs
      → All (λ (c : Column). c.is_primary_key ≡ false → text_eq c.name j ≡ false) cs
  Fresh-frame j [] h = tt
  Fresh-frame j (c ∷ cs) h = (λ _. h.0, Fresh-frame j cs h.1)

  AllRead-cons :
      (d before after : Dict (Value Real)) (c : Column) (cs : List Column) (w : Value Real)
      → c.is_primary_key ≡ false
      → Fresh c.name cs
      → stored f c.datatype (value_of d c.name) ≡ ok w
      → AllRead d (Dict.set c.name w before) after cs
      → AllRead d before after (c ∷ cs)
  AllRead-cons d before after c cs w pk fr st r = record {
    reads = (
      λ _. (
        w,
        st,
        r.frame c.name (Fresh-frame c.name cs fr) ∙ rw Dict.get-set (rw (text_eq_refl c.name) refl),
      ),
      r.reads,
    );
    frame = λ j h. r.frame j h.1 ∙ rw Dict.get-set (rw (h.0 pk) refl);
  }

  AllRead-skip :
      (d before after : Dict (Value Real)) (c : Column) (cs : List Column)
      → c.is_primary_key ≡ true
      → AllRead d before after cs
      → AllRead d before after (c ∷ cs)
  AllRead-skip d before after c cs pk r = record {
    reads = (λ e. absurd (cc), r.reads);
    frame = λ j h. r.frame j h.1;
  }

  pub read_columns-Encoded :
      (d : Dict (Value Real)) (cell : Bytes) (cols : List Column) (ubound fuel : ℕ) (s : Reader f)
      {cs : List Column} {h b : Bytes}
      → Encoded f d cs h b
      → Placed f cell s h b
      → ubound ≡ s.header_offset + length h
      → length h ≤ fuel
      → Ready cols s.col_pos cs
      → length (primary_keys (drop s.col_pos cols)) ≤ 1
      → Distinct cs
      → All (λ (c : Column). NonEmpty f (value_of d c.name)) cs
      → (s' : Reader f) × (read_columns f fuel cell cols ubound s ≡ ok s')
        × AllRead d s.values s'.values cs
  read_columns-Encoded d cell cols ubound fuel s done p u le r one dist ne = (
    s,
    read_columns_end fuel cell cols ubound s (omega arith),
    record { reads = tt; frame = λ j h. refl },
  )
  read_columns-Encoded d cell cols ubound fuel s (skip {c = c} {cs = cs} pk enc) p u le r one dist
        ne =
      let (s', e, a) =
        read_columns-Encoded d cell cols ubound fuel s enc p u le
          (Ready-skip cols s.col_pos c cs r pk one) one dist.1 ne.1 in
      (s', e, AllRead-skip d s.values s'.values c cs pk a)
  read_columns-Encoded d cell cols ubound zero s (entry {c = c} {e = e} {x = x} {h = h} pk en enc) p
        u le r one dist ne =
      absurd (omega (arith, Entry-pos c _ e x en, length-append e h))
  read_columns-Encoded d cell cols ubound (suc fuel) s
        (entry {c = c} {cs = cs} {e = e} {x = x} {h = h} {b = b} pk en enc) p u le r one dist ne =
      let (k, nc, dr, cnt) = next_column-Ready cols s.col_pos c cs r pk in
      let (w, st, rd) =
        read_column-Entry f cell cols s c k (value_of d c.name) e x (Placed-entry cell s e h x b p)
          nc en ne.0 in
      let more = length-append e h in
      let some_e = Entry-pos c (value_of d c.name) e x en in
      let (s', q, a) =
        read_columns-Encoded d cell cols ubound fuel (advance f s (length e) (length x) k c.name w)
          enc (Placed-rest cell s e h x b k c.name w p) (omega arith) (omega arith) (inl dr)
          (rw dr (omega arith)) dist.1 ne.1 in
      (
        s',
        read_columns_step fuel cell cols ubound s _ (omega arith) rd ∙ q,
        AllRead-cons d s.values s'.values c cs w pk dist.0 st a,
      )
