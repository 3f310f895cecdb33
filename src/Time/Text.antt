-- ===== src/Time/Text.antt =====
-- `Timestamp::ToString`, `GetSecondValue` and `swap` of time/TimeStamp.h and time/TimeStamp.cpp. Division
-- in the source cuts towards zero.
use ka_im.Prelude.{
  ℕ, zero, suc, ◌+◌, ◌-◌, ◌*◌, ◌/◌, ◌%◌, ◌^◌, ◌<◌, ◌≤◌, ◌≡◌, refl, ap, ◌∙◌, inl, inr, [], ◌∷◌, ◌++◌,
  append_assoc, Bytes, arith, length, length-append, length-replicate, take, take_all, replicate,
  ltb, ◌==◌, if◌then◌else◌, Bool-cases,
}
use ka_im.Prelude.Int.{ℤ, pos, negsuc}
use ka_im.Prelude.Decimal.{
  digits, digits_within, show_int, pad, show_padded, read_digits, read_digits-digits,
  read_digits-front, length-digits,
}
use ka_im.Time.Timer.{Timestamp}

-- MicroSecondsPerSecond.
abbrev pub micro_seconds_per_second : ℕ
micro_seconds_per_second = 1000000

abbrev pub signed : ℕ → ℤ
signed n = if n == 0 then pos 0 else negsuc (n - 1)

-- `/` and `%` of C by a positive number.
abbrev pub quotient : ℤ → ℕ → ℤ
quotient (pos n) k = pos (n / k)
quotient (negsuc n) k = signed ((n + 1) / k)

abbrev pub remainder : ℤ → ℕ → ℤ
remainder (pos n) k = pos (n % k)
remainder (negsuc n) k = signed ((n + 1) % k)

-- `ToString`, of which the array takes 62 bytes.
unfoldable pub to_string : Timestamp → Bytes
to_string t =
    let seconds = quotient t.micro_seconds micro_seconds_per_second in
    let rest = remainder t.micro_seconds micro_seconds_per_second in
    take 62 (show_int seconds ++ 46 ∷ show_padded 6 rest)

unfoldable pub get_second_value : Timestamp → ℤ
get_second_value t = quotient t.micro_seconds micro_seconds_per_second

abbrev pub swap : Timestamp → Timestamp → Timestamp × Timestamp
swap this that = (that, this)

-- A reader of such a text: the number in front of the point and the one behind it.
abbrev pub after_point : Bytes → Bytes
after_point [] = []
after_point (c ∷ cs) = if c == 46 then cs else after_point cs

pub read_stamp : Bytes → ℕ
read_stamp s = read_digits 0 s * micro_seconds_per_second + read_digits 0 (after_point s)

after_point-digits_within :
    (f n : ℕ) (ys : Bytes) → n < f → after_point (digits_within f n ++ ys) ≡ after_point ys
unfolding digits_within
after_point-digits_within zero n ys h = elim h [ ]
after_point-digits_within (suc f) n ys h = elim (Bool-cases (ltb n 10)) [
  | inl small ↦ rw small (ground arith)
  | inr big ↦
      rw
        (
          big,
          append_assoc (digits_within f (n / 10)) ((48 + n % 10) ∷ []) ys,
          after_point-digits_within f (n / 10) ((48 + n % 10) ∷ ys) (ground arith),
        )
        (ground arith)
]

after_point-digits : (n : ℕ) (ys : Bytes) → after_point (digits n ++ 46 ∷ ys) ≡ ys
unfolding digits
after_point-digits n ys = after_point-digits_within (suc n) n (46 ∷ ys) (omega arith)

read_digits-zeros : (k : ℕ) (ds : Bytes) → read_digits 0 (replicate k 48 ++ ds) ≡ read_digits 0 ds
read_digits-zeros zero ds = refl
read_digits-zeros (suc k) ds = read_digits-zeros k ds

read_digits-pad : (width n : ℕ) → read_digits 0 (pad width (digits n)) ≡ n
read_digits-pad width n =
    read_digits-zeros (width - length (digits n)) (digits n) ∙ read_digits-digits n

length-pad : (width : ℕ) (ds : Bytes) → length ds ≤ width → length (pad width ds) ≡ width
length-pad width ds h = omega (
  arith,
  length-append (replicate (width - length ds) 48) ds,
  length-replicate {A = ℕ} (width - length ds) 48,
)

abbrev whole : ℕ → Bytes
whole n = digits (n / 1000000) ++ 46 ∷ pad 6 (digits (n % 1000000))

length-whole : (n : ℕ) → n < 2 ^ 63 → length (whole n) ≤ 62
length-whole n h = omega (
  arith,
  length-append (digits (n / 1000000)) (46 ∷ pad 6 (digits (n % 1000000))),
  length-digits (n / 1000000) 12 (omega arith),
  length-pad 6 (digits (n % 1000000)) (length-digits (n % 1000000) 5 (omega arith)),
)

read_stamp-whole : (n : ℕ) → read_stamp (whole n) ≡ n
unfolding read_stamp
read_stamp-whole n =
    rw
      (
        read_digits-front (n / 1000000) (46 ∷ pad 6 (digits (n % 1000000))),
        after_point-digits (n / 1000000) (pad 6 (digits (n % 1000000))),
        read_digits-pad 6 (n % 1000000),
      )
      (omega arith)

length-after_point : (n : ℕ) → length (after_point (whole n)) ≡ 6
length-after_point n =
    ap length (after_point-digits (n / 1000000) (pad 6 (digits (n % 1000000))))
    ∙ length-pad 6 (digits (n % 1000000)) (length-digits (n % 1000000) 5 (omega arith))

-- A timestamp that is not negative and fits an int64_t is printed so that the microseconds can be
-- read back from the text: the number in front of the point counts the seconds, and behind it stand
-- six characters, which read as the number of the microseconds.
pub read_stamp-to_string :
    (t : Timestamp) (n : ℕ)
    → t.micro_seconds ≡ pos n
    → n < 2 ^ 63
    → (read_stamp (to_string t) ≡ n) × (length (after_point (to_string t)) ≡ 6)
unfolding to_string
read_stamp-to_string t n e h =
    let all : to_string t ≡ whole n =
      ap (λ z. take 62 (show_int (quotient z 1000000) ++ 46 ∷ show_padded 6 (remainder z 1000000)))
        e
      ∙ take_all 62 (whole n) (length-whole n h) in
    (
      ap read_stamp all ∙ read_stamp-whole n,
      ap (λ s. length (after_point s)) all ∙ length-after_point n,
    )

-- One microsecond before the epoch is printed with the sign behind the point.
before_epoch :
    to_string (record { micro_seconds = negsuc 0 }) ≡ 48 ∷ 46 ∷ 45 ∷ 48 ∷ 48 ∷ 48 ∷ 48 ∷ 49 ∷ []
unfolding to_string digits
before_epoch = refl
