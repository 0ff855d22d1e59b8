-- ===== src/Btree/Words.antt =====
-- The four-byte fields of a page in learndb/btree.py: all of its getters and setters read and write these.
use learndb_py.Prelude.{
  ℕ, ◌+◌, ◌≤◌, ◌<◌, ◌^◌, ◌≡◌, ◌⊎◌, inl, inr, refl, ap, ◌∙◌, subst, arith, length, Result, ok, ◌>>=◌,
  >>=-eq-ok,
}
use learndb_py.Bytes.Slices.{
  Bytes, slice, splice, length-splice, slice-splice_self, slice-splice_below, slice-splice_above,
}
use learndb_py.Bytes.Numbers.{to_bytes, from_bytes, to_bytes_ok, to_bytes_fits, digits}
use learndb_py.Constants.{word}

-- `int.from_bytes(node[offset : offset + 4], sys.byteorder)`
unfoldable pub get_word : Bytes → ℕ → ℕ
get_word node offset = from_bytes (slice node offset (offset + word))

-- `node[offset : offset + 4] = value.to_bytes(4, sys.byteorder)`
unfoldable pub set_word : Bytes → ℕ → ℕ → Result Bytes
set_word node offset value = do b ← to_bytes word value; ok (splice node offset (offset + word) b)

-- What `set_word` leaves: the length, its own word, and every slice that lies off it.
pub record Set (node : Bytes) (offset value : ℕ) (node' : Bytes) : Type 0 where
  pub size : length node' ≡ length node
  pub here : get_word node' offset ≡ value
  pub below : (c d : ℕ) → d ≤ offset → slice node' c d ≡ slice node c d
  pub above : (c d : ℕ) → offset + word ≤ c → slice node' c d ≡ slice node c d
  pub fits : value < 256 ^ word

pub set_word-Set :
    (node : Bytes) (offset value : ℕ) (node' : Bytes)
    → set_word node offset value ≡ ok node'
    → offset + word ≤ length node
    → Set node offset value node'
unfolding set_word get_word
set_word-Set node offset value node' h l =
    let (b, e, k) = >>=-eq-ok (to_bytes word value) _ h in
    let (lb, vb, fits) = to_bytes_ok word value b e in
    let same : splice node offset (offset + word) b ≡ node' = ground (arith, k) in
    subst (Set node offset value) same (record {
      size = length-splice node b offset (offset + word) (omega arith) l;
      here =
          ap from_bytes
            (slice-splice_self node b offset (offset + word) (omega arith) (omega arith))
          ∙ vb;
      below = λ c d p. slice-splice_below node b offset (offset + word) c d p (omega arith);
      above = λ c d p. slice-splice_above node b offset (offset + word) c d (omega arith) p l;
      fits = fits;
    })

-- A word that lies off the one that was set is as before.
pub Set-other :
    (node : Bytes) (offset value : ℕ) (node' : Bytes) (other : ℕ)
    → Set node offset value node'
    → (other + word ≤ offset) ⊎ (offset + word ≤ other)
    → get_word node' other ≡ get_word node other
unfolding get_word
Set-other node offset value node' other s (inl p) = ap from_bytes (s.below other (other + word) p)
Set-other node offset value node' other s (inr p) = ap from_bytes (s.above other (other + word) p)

-- A number that fits in the word is written.
pub set_word_ok :
    (node : Bytes) (offset value : ℕ)
    → value < 256 ^ word
    → offset + word ≤ length node
    → (node' : Bytes) × (set_word node offset value ≡ ok node') × Set node offset value node'
set_word_ok node offset value h l =
    let written = splice node offset (offset + word) (digits word value) in
    let e : set_word node offset value ≡ ok written =
      unfold set_word in rw (to_bytes_fits word value h) refl in
    (written, e, set_word-Set node offset value written e l)
