-- ===== src/Util/Zlib.antt =====
-- Util/KaZlibUtil.cpp. zlib is not part of the repository: it is a parameter, by the three functions
-- that the code calls, with what their documentation says. A destination is its old content, and
-- each function returns whether it succeeded beside the new one.
use ka_im.Prelude.{
  ℕ, ◌+◌, ◌*◌, Bool, true, false, not, [], ◌++◌, Option, none, some, Bytes, length, ltb, take, ◌==◌,
  ◌||◌, if◌then◌else◌, ◌^◌,
}
use ka_im.Prelude.Int.{pos, leb_ℤ, ltb_ℤ, to_int32, to_unsigned, pos_part}

-- `compress` and `uncompress` are given the source and the room at the destination; none stands for
-- a result other than Z_OK.
pub record Zlib : Type 0 where
  pub compress_bound : ℕ → ℕ
  pub compress : Bytes → ℕ → Option Bytes
  pub uncompress : Bytes → ℕ → Option Bytes

-- MAX_COMPRESS_BUF_SIZE
abbrev pub max_compress_buf_size : ℕ
max_compress_buf_size = 10 * 1024 * 1024

module _ (z : Zlib) where
  -- `compressBuf` on raw buffers, the third result being what was written to the destination. A
  -- null source is none, and `has_dest` says that the destination is not null. `dest_length` is set
  -- before the call, also where the call fails.
  unfoldable pub compress_raw : Option Bytes → Bool → ℕ → Bool × ℕ × Bytes
  compress_raw none has_dest dest_length = (false, dest_length, [])
  compress_raw (some src) has_dest dest_length =
      if ltb max_compress_buf_size (length src) || (length src == 0) || not has_dest
      then (false, dest_length, [])
      else elim (z.compress src (z.compress_bound (length src))) [
        | none ↦ (false, z.compress_bound (length src), [])
        | some out ↦ (true, length out, out)
      ]

  -- `compressBuf` on strings. Both lengths are `int`s there, and the address of the second goes to
  -- `compress` as that of an unsigned long: it reads the four bytes behind the `int` too, which are
  -- `beside` as a number, and the length that it writes back is cut to the `int`. That it overwrites
  -- these four bytes is not modelled, nor a result longer than the array, which is as long as
  -- `compressBound` says.
  unfoldable pub compress_buf : ℕ → Bytes → Bytes → Bool × Bytes
  compress_buf beside src dest =
      let src_length = to_int32 (length src) in
      let dest_length = to_int32 (z.compress_bound (to_unsigned 64 src_length)) in
      if length src == 0
      then (false, dest)
      else if ltb_ℤ (pos max_compress_buf_size) src_length
      then (false, dest)
      else if leb_ℤ dest_length (pos 0)
      then (false, dest)
      else elim (z.compress src (pos_part dest_length + 2 ^ 32 * beside)) [
        | none ↦ (false, dest)
        | some out ↦ (true, dest ++ take (to_unsigned 64 (to_int32 (length out))) out)
      ]

  unfoldable pub uncompress_buf : Bytes → Bytes → ℕ → Bool × Bytes
  uncompress_buf src dest length' = elim (z.uncompress src length') [
    | none ↦ (false, dest)
    | some out ↦ (true, dest ++ out)
  ]
