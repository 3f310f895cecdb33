-- ===== src/Util/Stream/Encoding.antt =====
-- Reading what `write7BitEncode` writes.
use ka_im.Prelude.{
  ℕ, zero, suc, ◌+◌, ◌-◌, ◌*◌, ◌/◌, ◌%◌, ◌^◌, ◌≤◌, ◌<◌, ◌≡◌, [], ◌∷◌, ◌++◌, append_assoc, Option,
  none, some, Bytes, length, ltb, ◌==◌, if◌then◌else◌, arith, Bool-cases, inl, inr,
}
use ka_im.Util.Stream.{encode, write_7bit_encode_32, write_7bit_encode_64}

-- The number that a text begins with, and the rest of the text: a byte below 128 is the last one of
-- its number, and the low digits come first.
abbrev pub decode : Bytes → Option (ℕ × Bytes)
decode [] = none
decode (b ∷ bs) =
    if ltb b 128
    then some (b, bs)
    else elim (decode bs) [ none ↦ none | some (value, rest) ↦ some (b - 128 + 128 * value, rest) ]

abbrev pub Encodes : Bytes → ℕ → ℕ → Option Bytes → Type 0
Encodes buf value count result =
    (out : Bytes) × (result ≡ some (buf ++ out))
    × (length out ≤ count)
    × ((rest : Bytes) → decode (out ++ rest) ≡ some (value, rest))

last-Encodes :
    (fuel value : ℕ) (buf : Bytes)
    → value / 128 ≡ 0
    → Encodes buf value (suc fuel) (encode (suc fuel) value buf)
unfolding encode
last-Encodes fuel value buf h =
    ((value % 128) ∷ [], ground (arith, h), omega arith, λ rest. ground (arith, h))

more-Encodes :
    (fuel value : ℕ) (buf : Bytes)
    → 0 < value / 128
    → Encodes
        (buf ++ (value % 128 + 128) ∷ [])
        (value / 128)
        fuel
        (encode fuel (value / 128) (buf ++ (value % 128 + 128) ∷ []))
    → Encodes buf value (suc fuel) (encode (suc fuel) value buf)
unfolding encode
more-Encodes fuel value buf h (out, e, l, d) = (
  (value % 128 + 128) ∷ out,
  ground (arith, e, append_assoc buf ((value % 128 + 128) ∷ []) out),
  omega (arith, l),
  λ rest. ground (arith, d rest),
)

encode-decode :
    (fuel value : ℕ) (buf : Bytes)
    → value < 128 ^ fuel * 128
    → Encodes buf value (suc fuel) (encode (suc fuel) value buf)
encode-decode zero value buf h = last-Encodes zero value buf (omega arith)
encode-decode (suc fuel) value buf h = elim (Bool-cases (value / 128 == 0)) [
  | inl last ↦ last-Encodes (suc fuel) value buf (ground (arith, last))
  | inr more ↦
      more-Encodes (suc fuel) value buf (ground (arith, more))
        (encode-decode fuel (value / 128) (buf ++ (value % 128 + 128) ∷ []) (omega arith))
]

-- The encoding of a 32-bit number has at most five bytes, stands after what the string held, and
-- decodes to the number, whatever follows it.
pub write_7bit_encode_32-decode :
    (value : ℕ) (buf : Bytes)
    → value < 2 ^ 32
    → Encodes buf value 5 (write_7bit_encode_32 value buf)
unfolding write_7bit_encode_32
write_7bit_encode_32-decode value buf h = encode-decode 4 value buf (omega arith)

-- The encoding of a 64-bit number has at most ten bytes, stands after what the string held, and
-- decodes to the number, whatever follows it.
pub write_7bit_encode_64-decode :
    (value : ℕ) (buf : Bytes)
    → value < 2 ^ 64
    → Encodes buf value 10 (write_7bit_encode_64 value buf)
unfolding write_7bit_encode_64
write_7bit_encode_64-decode value buf h = encode-decode 9 value buf (omega arith)
