-- ===== src/Database/Mysql/Results/Values.antt =====
-- Numbers read from a field.
use ka_im.Prelude.{ℕ, ◌-◌, ◌%◌, ◌^◌, ◌<◌, ◌≡◌, arith, min}
use ka_im.Prelude.Int.{pos, to_unsigned}
use ka_im.Prelude.Decimal.{digits, atoi, atol-digits}
use ka_im.Database.Mysql.Results.{
  Field, get_u_int_value, get_int16_value, get_int32_value, set_value,
}

-- The cast to each of the four unsigned types.
abbrev pub Casts : Field → ℕ → Type 0
Casts f n =
    (get_u_int_value 8 f ≡ n % 2 ^ 8)
    × (get_u_int_value 16 f ≡ n % 2 ^ 16)
    × (get_u_int_value 32 f ≡ n % 2 ^ 32)
    × (get_u_int_value 64 f ≡ n)

casts_pos :
    (n : ℕ)
    → n < 2 ^ 64
    → (to_unsigned 8 (pos n) ≡ n % 2 ^ 8)
      × (to_unsigned 16 (pos n) ≡ n % 2 ^ 16)
      × (to_unsigned 32 (pos n) ≡ n % 2 ^ 32)
      × (to_unsigned 64 (pos n) ≡ n)
casts_pos n h = omega arith

-- A field set to the decimal digits of `n` reads back as `n` cut to the width of the type, but what
-- does not fit a `long`, such as the upper half of BIGINT UNSIGNED, reads as the largest `long`.
pub get_u_int_value-digits :
    (n : ℕ) (f : Field) → Casts (set_value (digits n) f) (min n (2 ^ 63 - 1))
unfolding get_u_int_value set_value
get_u_int_value-digits n f = rw (atol-digits n) (casts_pos (min n (2 ^ 63 - 1)) (omega arith))

-- And as an `int32_t`, where it is below 2^31.
pub get_int32_value-digits :
    (n : ℕ) (f : Field) → n < 2 ^ 31 → get_int32_value (set_value (digits n) f) ≡ pos n
unfolding get_int32_value set_value atoi
get_int32_value-digits n f h = rw (atol-digits n) (ground arith)

-- And as an `int16_t`, where it is below 2^15.
get_int16_value-digits :
    (n : ℕ) (f : Field) → n < 2 ^ 15 → get_int16_value (set_value (digits n) f) ≡ pos n
unfolding get_int16_value set_value
get_int16_value-digits n f h = rw (atol-digits n) (ground arith)
