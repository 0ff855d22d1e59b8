-- ===== src/Pager/Disk.antt =====
-- The file of learndb/pager.py under writes: what stays, and what is read back.
use learndb_py.Prelude.{
  ℕ, ◌+◌, ◌-◌, ◌≤◌, ◌≡◌, refl, sym, ap, ◌∙◌, ◌++◌, arith, length, length-append, length-replicate,
  length-take, length-drop, take-append-drop, take, drop, replicate, max,
}
use learndb_py.Bytes.Slices.{
  Bytes, slice, splice, slice_front, slice-splice_self, slice-splice_below,
}
use learndb_py.Pager.{write_file}

-- The file, filled up with zeros to the offset of a write.
abbrev filled : Bytes → ℕ → Bytes
filled file offset = file ++ replicate (offset - length file) 0

length-filled : (file : Bytes) (offset : ℕ) → length (filled file offset) ≡ max (length file) offset
length-filled file offset = omega (
  arith,
  length-append file (replicate (offset - length file) 0),
  length-replicate {A = ℕ} (offset - length file) 0,
)

-- A write leaves what stands in the file before its offset.
pub write_file-below :
    (file b : Bytes) (offset c d : ℕ)
    → d ≤ offset
    → d ≤ length file
    → slice (write_file file offset b) c d ≡ slice file c d
unfolding write_file
write_file-below file b offset c d h k =
    slice-splice_below (filled file offset) b offset (offset + length b) c d h
      (omega (arith, length-filled file offset))
    ∙ slice_front file (replicate (offset - length file) 0) c d k

-- What was written is read back.
pub write_file_self :
    (file b : Bytes) (offset : ℕ) → slice (write_file file offset b) offset (offset + length b) ≡ b
unfolding write_file
write_file_self file b offset =
    slice-splice_self (filled file offset) b offset (offset + length b) refl
      (omega (arith, length-filled file offset))

-- A write reaches behind what it wrote.
pub length-write_file :
    (file b : Bytes) (offset : ℕ)
    → (offset + length b ≤ length (write_file file offset b))
      × (length file ≤ length (write_file file offset b))
unfolding write_file splice
length-write_file file b offset = omega (
  arith,
  length-filled file offset,
  length-append (take offset (filled file offset))
      (b ++ drop (max offset (offset + length b)) (filled file offset)),
  length-append b (drop (max offset (offset + length b)) (filled file offset)),
  length-take offset (filled file offset),
  length-drop (max offset (offset + length b)) (filled file offset),
)

-- A part of what was written at the start of the file.
pub write_file-start :
    (file b : Bytes) (c d : ℕ) → d ≤ length b → slice (write_file file 0 b) c d ≡ slice b c d
unfolding write_file splice take
write_file-start file b c d h = slice_front b _ c d h

-- A part of the front of the file.
pub slice-front :
    (file : Bytes) (n c d : ℕ)
    → d ≤ n
    → d ≤ length file
    → slice (slice file 0 n) c d ≡ slice file c d
slice-front file n c d h k =
    let e : n - 0 ≡ n = omega arith in
    let front : slice file 0 n ≡ take n file = unfold slice drop in rw e in
    ap (λ (x : Bytes). slice x c d) front
    ∙ sym (slice_front (take n file) (drop n file) c d (omega (arith, length-take n file)))
    ∙ ap (λ (x : Bytes). slice x c d) (take-append-drop n file)
