-- ===== src/Util/Stream.antt =====
-- Util/ProtocoIStream.cpp: the checksum and the 7-bit encoding. The classes that ProtocoIStream.h
-- declares, and `read7BitEncode`, have no code in the repository. Unsigned arithmetic is written out: `>> n`
-- and `& (2 ^ n - 1)` are division and remainder by 2 ^ n, and setting the free bit 0x80 adds 128.
pub mod Checksum
pub mod Encoding
use ka_im.Prelude.{
  ℕ, zero, suc, ◌+◌, ◌-◌, ◌*◌, ◌/◌, ◌%◌, ◌^◌, List, [], ◌∷◌, ◌++◌, Option, none, some, Bytes, ◌==◌,
  if◌then◌else◌,
}

-- The first loop of `checksum`, and the odd byte after it. `size` is the count of bytes, and a word
-- is read in the byte order of the host, x86.
abbrev pub sum_words : ℕ → Bytes → ℕ
sum_words cksum [] = cksum
sum_words cksum (b ∷ []) = (cksum + b) % 2 ^ 32
sum_words cksum (b ∷ c ∷ rest) = sum_words ((cksum + (b + 256 * c)) % 2 ^ 32) rest

-- The second loop, with fuel; none if it runs out.
unfoldable pub fold : ℕ → ℕ → Option ℕ
fold zero cksum = none
fold (suc fuel) cksum =
    let rest = fold fuel (cksum / 2 ^ 16 + cksum % 2 ^ 16) in
    if cksum / 2 ^ 16 == 0 then some cksum else rest

-- The folding takes at most two rounds, and a test after them. `~` and the cast to 16 bits take the
-- result from 65535.
unfoldable pub checksum : Bytes → Option ℕ
checksum buffer = elim (fold 3 (sum_words 0 buffer)) [
  | none ↦ none
  | some cksum ↦ some (65535 - cksum)
]

-- The loop of both `write7BitEncode`, with fuel; none if it runs out.
unfoldable pub encode : ℕ → ℕ → Bytes → Option Bytes
encode zero value buf = none
encode (suc fuel) value buf =
    let rest = encode fuel (value / 128) (buf ++ (value % 128 + 128) ∷ []) in
    if value / 128 == 0 then some (buf ++ (value % 128) ∷ []) else rest

-- `write7BitEncode(uint32_t)`
unfoldable pub write_7bit_encode_32 : ℕ → Bytes → Option Bytes
write_7bit_encode_32 value buf = encode 5 value buf

-- `write7BitEncode(uint64_t)`
unfoldable pub write_7bit_encode_64 : ℕ → Bytes → Option Bytes
write_7bit_encode_64 value buf = encode 10 value buf
