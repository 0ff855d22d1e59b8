-- ===== src/Bytes/Utf8.antt =====
-- `str.encode("utf-8")` and `bytes.decode("utf-8")`. A Python string is the list of its code points.
use learndb_py.Prelude.{
  ℕ, zero, suc, ◌+◌, ◌-◌, ◌*◌, ◌/◌, ◌%◌, ◌≤◌, ◌<◌, ◌≡◌, ◌≢◌, refl, ap, ◌∙◌, Bool, true, ◌&&◌, ◌||◌,
  List, [], ◌∷◌, ◌++◌, arith, length, length-append, Result, ok, err, unicode, stuck, ◌>>=◌,
  >>=-eq-ok, >>=-ne-stuck, Bool-cases, inl, inr, ltb, leb, if◌then◌else◌,
}
use learndb_py.Bytes.Slices.{Bytes}

abbrev pub Text : Type 0
Text = List ℕ

-- The code points that have an encoding: up to 0x10ffff, and no surrogates.
unfoldable pub is_scalar : ℕ → Bool
is_scalar c = ltb c 0xd800 || (leb 0xe000 c && ltb c 0x11_0000)

unfoldable pub encode_char : ℕ → Bytes
encode_char c =
    if ltb c 0x80
    then c ∷ []
    else if ltb c 0x800
    then (0xc0 + c / 64) ∷ (0x80 + c % 64) ∷ []
    else if ltb c 0x1_0000
    then (0xe0 + c / 4096) ∷ (0x80 + c / 64 % 64) ∷ (0x80 + c % 64) ∷ []
    else (0xf0 + c / 262144) ∷ (0x80 + c / 4096 % 64) ∷ (0x80 + c / 64 % 64) ∷ (0x80 + c % 64) ∷ []

-- `value.encode("utf-8")`; a lone surrogate raises UnicodeEncodeError.
unfoldable pub encode : Text → Result Bytes
unfolding is_scalar encode_char
encode [] = ok []
encode (c ∷ cs) = do
  rest ← encode cs
  if is_scalar c then ok (encode_char c ++ rest) else err unicode

unfoldable pub is_tail : ℕ → Bool
is_tail b = leb 0x80 b && ltb b 0xc0

-- The forms of two, three and four bytes: a form that is too long, a surrogate and a number past
-- 0x10ffff are refused.
decode_two : ℕ → Bytes → Result (ℕ × Bytes)
unfolding is_tail
decode_two a (b ∷ rest) =
    if is_tail b && leb 0xc2 a then ok ((a - 0xc0) * 64 + (b - 0x80), rest) else err unicode
decode_two a _ = err unicode

decode_three : ℕ → Bytes → Result (ℕ × Bytes)
unfolding is_tail is_scalar
decode_three a (b ∷ c ∷ rest) =
    let n = (a - 0xe0) * 4096 + (b - 0x80) * 64 + (c - 0x80) in
    if is_tail b && (is_tail c && (leb 0x800 n && is_scalar n)) then ok (n, rest) else err unicode
decode_three a _ = err unicode

decode_four : ℕ → Bytes → Result (ℕ × Bytes)
unfolding is_tail is_scalar
decode_four a (b ∷ c ∷ d ∷ rest) =
    let n = (a - 0xf0) * 262144 + (b - 0x80) * 4096 + (c - 0x80) * 64 + (d - 0x80) in
    if is_tail b && (is_tail c && (is_tail d && (leb 0x1_0000 n && is_scalar n)))
    then ok (n, rest)
    else err unicode
decode_four a _ = err unicode

decode_char : ℕ → Bytes → Result (ℕ × Bytes)
unfolding decode_two decode_three decode_four
decode_char a rest =
    if ltb a 0x80
    then ok (a, rest)
    else if ltb a 0xc0
    then err unicode
    else if ltb a 0xe0
    then decode_two a rest
    else if ltb a 0xf0
    then decode_three a rest
    else if ltb a 0xf8
    then decode_four a rest
    else err unicode

decode_loop : ℕ → Bytes → Result Text
unfolding decode_char
decode_loop fuel [] = ok []
decode_loop zero (b ∷ bs) = err stuck
decode_loop (suc fuel) (b ∷ bs) = do
  (c, rest) ← decode_char b bs
  cs ← decode_loop fuel rest
  ok (c ∷ cs)

-- `value.decode("utf-8")`: each round reads a byte at least, so the length is fuel enough.
unfoldable pub decode : Bytes → Result Text
unfolding decode_loop
decode b = decode_loop (length b) b

-- One character, with what follows it.
decode_first : Bytes → Result (ℕ × Bytes)
unfolding decode_char
decode_first [] = err unicode
decode_first (b ∷ bs) = decode_char b bs

decode_first-encode_char :
    (c : ℕ) (rest : Bytes)
    → is_scalar c ≡ true
    → decode_first (encode_char c ++ rest) ≡ ok (c, rest)
unfolding decode_first encode_char is_scalar
decode_first-encode_char c rest h = ground arith

length-encode_char : (c : ℕ) → 1 ≤ length (encode_char c)
unfolding encode_char
length-encode_char c = ground arith

decode_loop_step :
    (fuel c : ℕ) (b rest : Bytes)
    → decode_first b ≡ ok (c, rest)
    → decode_loop (suc fuel) b ≡ (decode_loop fuel rest >>= λ cs. ok (c ∷ cs))
unfolding decode_first decode_loop
decode_loop_step fuel c [] rest h = cc
decode_loop_step fuel c (b ∷ bs) rest h = rw h

decode_loop-nil : (fuel : ℕ) → decode_loop fuel [] ≡ ok []
unfolding decode_loop
decode_loop-nil zero = refl
decode_loop-nil (suc fuel) = refl

-- The encoding of a text, taken apart at its first character.
encode-cons :
    (c : ℕ) (cs : Text) (b : Bytes)
    → encode (c ∷ cs) ≡ ok b
    → (rest : Bytes) × (encode cs ≡ ok rest) × (is_scalar c ≡ true) × (b ≡ encode_char c ++ rest)
unfolding encode
encode-cons c cs b h =
    let (rest, e, k) = >>=-eq-ok (encode cs) _ h in
    elim (Bool-cases (is_scalar c)) [ inl s ↦ (rest, e, s, ground (arith, k)) | inr s ↦ cc ]

decode_loop-encode :
    (cs : Text) (b : Bytes) (fuel : ℕ)
    → encode cs ≡ ok b
    → length b ≤ fuel
    → decode_loop fuel b ≡ ok cs
decode_loop-encode [] b fuel h le = unfold encode in ground (arith, decode_loop-nil fuel)
decode_loop-encode (c ∷ cs) b zero h le =
    let (rest, e, s, q) = encode-cons c cs b h in
    absurd (omega (arith, ap length q, length-append (encode_char c) rest, length-encode_char c))
decode_loop-encode (c ∷ cs) b (suc fuel) h le =
    let (rest, e, s, q) = encode-cons c cs b h in
    let fits : length rest ≤ fuel =
      omega (arith, ap length q, length-append (encode_char c) rest, length-encode_char c) in
    let first : decode_first b ≡ ok (c, rest) = rw q (decode_first-encode_char c rest s) in
    decode_loop_step fuel c b rest first ∙ rw (decode_loop-encode cs rest fuel e fits)

pub decode-encode : (cs : Text) (b : Bytes) → encode cs ≡ ok b → decode b ≡ ok cs
unfolding decode
decode-encode cs b h = decode_loop-encode cs b (length b) h (omega arith)

-- The encoding of a text that has a character has a byte.
pub length-encode : (c : ℕ) (cs : Text) (b : Bytes) → encode (c ∷ cs) ≡ ok b → 0 < length b
length-encode c cs b h =
    let (rest, e, s, q) = encode-cons c cs b h in
    omega (arith, ap length q, length-append (encode_char c) rest, length-encode_char c)

decode_char-shorter :
    (b c : ℕ) (bs rest : Bytes) → decode_char b bs ≡ ok (c, rest) → length rest ≤ length bs
unfolding decode_char
decode_char-shorter b c [] rest h = ground arith
decode_char-shorter b c (x ∷ []) rest h = ground arith
decode_char-shorter b c (x ∷ y ∷ []) rest h = ground arith
decode_char-shorter b c (x ∷ y ∷ z ∷ bs) rest h = ground arith

decode_char-ne-stuck : (b : ℕ) (bs : Bytes) → decode_char b bs ≢ err stuck
unfolding decode_char
decode_char-ne-stuck b [] = ground arith
decode_char-ne-stuck b (x ∷ []) = ground arith
decode_char-ne-stuck b (x ∷ y ∷ []) = ground arith
decode_char-ne-stuck b (x ∷ y ∷ z ∷ bs) = ground arith

decode_loop-ne-stuck : (fuel : ℕ) (b : Bytes) → length b ≤ fuel → decode_loop fuel b ≢ err stuck
unfolding decode_loop
decode_loop-ne-stuck zero [] h = λ e. cc
decode_loop-ne-stuck (suc fuel) [] h = λ e. cc
decode_loop-ne-stuck zero (b ∷ bs) h = absurd (omega arith)
decode_loop-ne-stuck (suc fuel) (b ∷ bs) h =
    >>=-ne-stuck (decode_char b bs) _ (decode_char-ne-stuck b bs) λ p q.
      let (c, rest) = p in
      >>=-ne-stuck (decode_loop fuel rest) _
        (decode_loop-ne-stuck fuel rest (omega (arith, decode_char-shorter b c bs rest q)))
        (λ v _ e. cc)

-- Decoding ends on all bytes.
pub decode-ne-stuck : (b : Bytes) → decode b ≢ err stuck
unfolding decode
decode-ne-stuck b = decode_loop-ne-stuck (length b) b (omega arith)
