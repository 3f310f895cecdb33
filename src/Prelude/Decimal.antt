-- ===== src/Prelude/Decimal.antt =====
-- Decimal numbers as `printf("%d")` writes them and `strtol` reads them, on bytes.
use ka_im.Prelude.{
  ℕ, zero, suc, ◌+◌, ◌-◌, ◌*◌, ◌/◌, ◌%◌, ◌^◌, ◌<◌, ◌≡◌, refl, ◌∙◌, ap, sym, inl, inr, Bool, true,
  false, ◌≤◌, length, length-append, replicate, lt→ltb, ◌&&◌, ◌||◌, [], ◌∷◌, ◌++◌, append_assoc,
  append-nil, arith, Bytes, min, ltb, leb, ◌==◌, if◌then◌else◌, Bool-cases,
}
use ka_im.Prelude.Int.{ℤ, pos, negsuc, to_int32, to_unsigned}

-- With fuel, which a number above `n` is enough of.
unfoldable pub digits_within : ℕ → ℕ → Bytes
digits_within zero n = []
digits_within (suc f) n =
    let front = digits_within f (n / 10) in
    if ltb n 10 then (48 + n) ∷ [] else front ++ (48 + n % 10) ∷ []

unfoldable pub digits : ℕ → Bytes
unfolding digits_within
digits n = digits_within (suc n) n

-- `%0*d`, with the sign inside the width.
abbrev pub pad : ℕ → Bytes → Bytes
pad width ds = replicate (width - length ds) 48 ++ ds

abbrev pub show_padded : ℕ → ℤ → Bytes
show_padded width (pos n) = pad width (digits n)
show_padded width (negsuc n) = 45 ∷ pad (width - 1) (digits (n + 1))

abbrev pub is_digit : ℕ → Bool
is_digit c = leb 48 c && leb c 57

abbrev pub read_digits : ℕ → Bytes → ℕ
read_digits acc [] = acc
read_digits acc (c ∷ cs) =
    let rest = read_digits (acc * 10 + (c - 48)) cs in if is_digit c then rest else acc

-- `isspace` in the C locale.
abbrev pub is_space : ℕ → Bool
is_space c = c == 32 || (leb 9 c && leb c 13)

abbrev pub skip_spaces : Bytes → Bytes
skip_spaces [] = []
skip_spaces (c ∷ cs) = if is_space c then skip_spaces cs else c ∷ cs

abbrev pub negative : ℕ → ℤ
negative n = if n == 0 then pos 0 else negsuc (min n (2 ^ 63) - 1)

-- Behind the blanks: a sign or none, and the digits.
abbrev pub read_signed : Bytes → ℤ
read_signed [] = pos 0
read_signed (c ∷ cs) =
    if c == 45
    then negative (read_digits 0 cs)
    else (if c == 43
        then pos (min (read_digits 0 cs) (2 ^ 63 - 1))
        else pos (min (read_digits 0 (c ∷ cs)) (2 ^ 63 - 1)))

-- `atol` and `atoll`, which are `strtol`: a number out of range becomes the nearest one in it.
unfoldable pub atol : Bytes → ℤ
atol s = read_signed (skip_spaces s)

-- `(int)atol`
unfoldable pub atoi : Bytes → ℤ
unfolding atol
atoi s = to_int32 (to_unsigned 32 (atol s))

read_digits-digits_within :
    (f n : ℕ) (ys : Bytes) → n < f → read_digits 0 (digits_within f n ++ ys) ≡ read_digits n ys
unfolding digits_within
read_digits-digits_within zero n ys h = elim h [ ]
read_digits-digits_within (suc f) n ys h = elim (Bool-cases (ltb n 10)) [
  | inl small ↦ rw small (ground arith)
  | inr big ↦
      rw
        (
          big,
          append_assoc (digits_within f (n / 10)) ((48 + n % 10) ∷ []) ys,
          read_digits-digits_within f (n / 10) ((48 + n % 10) ∷ ys) (ground arith),
        )
        (ground arith)
]

-- Reading a number back.
pub read_digits-digits : (n : ℕ) → read_digits 0 (digits n) ≡ n
unfolding digits
read_digits-digits n =
    ap (read_digits 0) (sym (append-nil (digits_within (suc n) n)))
    ∙ read_digits-digits_within (suc n) n [] (omega arith)

-- With something behind it, as long as that is no digit.
pub read_digits-front : (n : ℕ) (ys : Bytes) → read_digits 0 (digits n ++ ys) ≡ read_digits n ys
unfolding digits
read_digits-front n ys = read_digits-digits_within (suc n) n ys (omega arith)

pub digits_injective : (a b : ℕ) → digits a ≡ digits b → a ≡ b
digits_injective a b e = sym (read_digits-digits a) ∙ ap (read_digits 0) e ∙ read_digits-digits b

-- The first byte of a number is a digit.
abbrev pub StartsDigit : Bytes → Type 0
StartsDigit [] = ◌≡◌ {A = ℕ} 0 1
StartsDigit (c ∷ cs) = is_digit c ≡ true

StartsDigit-append : (xs ys : Bytes) → StartsDigit xs → StartsDigit (xs ++ ys)
StartsDigit-append [] ys h = absurd (omega arith)
StartsDigit-append (x ∷ xs) ys h = h

digits_within-StartsDigit : (f n : ℕ) → n < f → StartsDigit (digits_within f n)
unfolding digits_within
digits_within-StartsDigit zero n h = elim h [ ]
digits_within-StartsDigit (suc f) n h = elim (Bool-cases (ltb n 10)) [
  | inl small ↦ rw small (ground arith)
  | inr big ↦ rw big (
      StartsDigit-append (digits_within f (n / 10)) ((48 + n % 10) ∷ [])
        (digits_within-StartsDigit f (n / 10) (ground arith)))
]

atol-StartsDigit : (s : Bytes) → StartsDigit s → atol s ≡ pos (min (read_digits 0 s) (2 ^ 63 - 1))
unfolding atol
atol-StartsDigit [] h = absurd (omega arith)
atol-StartsDigit (c ∷ cs) h = ground arith

read_signed-StartsDigit :
    (s : Bytes) → StartsDigit s → read_signed s ≡ pos (min (read_digits 0 s) (2 ^ 63 - 1))
read_signed-StartsDigit [] h = absurd (omega arith)
read_signed-StartsDigit (c ∷ cs) h = ground arith

pub read_signed-digits :
    (n : ℕ) (ys : Bytes)
    → read_signed (digits n ++ ys) ≡ pos (min (read_digits 0 (digits n ++ ys)) (2 ^ 63 - 1))
unfolding digits
read_signed-digits n ys = read_signed-StartsDigit (digits_within (suc n) n ++ ys) (
    StartsDigit-append (digits_within (suc n) n) ys
      (digits_within-StartsDigit (suc n) n (omega arith)))

pub atol-digits : (n : ℕ) → atol (digits n) ≡ pos (min n (2 ^ 63 - 1))
atol-digits n =
    let first : StartsDigit (digits n) =
      unfold digits in digits_within-StartsDigit (suc n) n (omega arith) in
    atol-StartsDigit (digits n) first
    ∙ ap (λ (k : ℕ). pos (min k (2 ^ 63 - 1))) (read_digits-digits n)

-- What `%d` prints.
abbrev pub show_int : ℤ → Bytes
show_int (pos n) = digits n
show_int (negsuc n) = 45 ∷ digits (n + 1)

-- The fuel makes no difference, so that a number of two digits or more ends in its last one.
digits_within-digits : (f n : ℕ) → n < f → (g : ℕ) → n < g → digits_within f n ≡ digits_within g n
unfolding digits_within
digits_within-digits zero n h g k = elim h [ ]
digits_within-digits (suc f) n h zero k = elim k [ ]
digits_within-digits (suc f) n h (suc g) k = elim (Bool-cases (ltb n 10)) [
  | inl small ↦ rw small refl
  | inr big ↦ rw (big, digits_within-digits f (n / 10) (ground arith) g (ground arith)) refl
]

pub digits_split : (n : ℕ) → ltb n 10 ≡ false → digits n ≡ digits (n / 10) ++ (48 + n % 10) ∷ []
unfolding digits digits_within
digits_split n big =
    rw (big, digits_within-digits n (n / 10) (ground arith) (suc (n / 10)) (omega arith)) refl

abbrev pub pow10 : ℕ → ℕ
pow10 zero = 1
pow10 (suc k) = 10 * pow10 k

length-digits_within : (f n k : ℕ) → n < pow10 (suc k) → length (digits_within f n) ≤ suc k
unfolding digits_within
length-digits_within zero n k h = omega arith
length-digits_within (suc f) n zero h =
    let small : ltb n 10 ≡ true = lt→ltb n 10 (omega arith) in rw small (omega arith)
length-digits_within (suc f) n (suc k) h = elim (Bool-cases (ltb n 10)) [
  | inl small ↦ rw small (omega arith)
  | inr big ↦ rw big (
      omega (
        arith,
        length-append (digits_within f (n / 10)) ((48 + n % 10) ∷ []),
        length-digits_within f (n / 10) k (omega arith),
      ))
]

-- A number below 10^k has at most k digits.
pub length-digits : (n k : ℕ) → n < pow10 (suc k) → length (digits n) ≤ suc k
unfolding digits
length-digits n k h = length-digits_within (suc n) n k h

digits_test : digits 1203 ≡ 49 ∷ 50 ∷ 48 ∷ 51 ∷ []
unfolding digits
digits_test = refl

atol_test : atol (32 ∷ 45 ∷ 49 ∷ 50 ∷ 65 ∷ []) ≡ negsuc 11
unfolding atol
atol_test = refl
