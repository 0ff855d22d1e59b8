-- ===== src/Bytes.antt =====
-- Python's bytes and bytearray: slices, slice assignment, `int.to_bytes` and `int.from_bytes`.
-- The repository passes `sys.byteorder`; the model reads it as "little".
pub mod Slices
pub mod Parts
pub mod Numbers
pub mod Utf8
