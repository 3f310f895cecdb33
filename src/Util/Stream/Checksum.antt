-- ===== src/Util/Stream/Checksum.antt =====
-- What `checksum` adds up to.
use ka_im.Prelude.{
  ℕ, suc, ◌+◌, ◌-◌, ◌*◌, ◌/◌, ◌%◌, ◌^◌, ◌≤◌, ◌<◌, ◌≡◌, refl, [], ◌∷◌, some, Bytes, length, ◌==◌,
  if◌then◌else◌, ◌∙◌, arith, Bool-cases, inl, inr, true,
}
use ka_im.Util.Stream.{sum_words, fold, checksum}

abbrev pub AreBytes : Bytes → Type 0
AreBytes [] = Unit
AreBytes (b ∷ bs) = (b < 256) × AreBytes bs

-- The words of a buffer, without a bound on their sum.
abbrev pub total : Bytes → ℕ
total [] = 0
total (b ∷ []) = b
total (b ∷ c ∷ rest) = b + 256 * c + total rest

sum_words_lem : (bs : Bytes) (n : ℕ) → n + total bs < 2 ^ 32 → sum_words n bs ≡ n + total bs
sum_words_lem [] n h = omega arith
sum_words_lem (b ∷ []) n h = omega arith
sum_words_lem (b ∷ c ∷ rest) n h =
    let e : (n + (b + 256 * c)) % 2 ^ 32 ≡ n + (b + 256 * c) = omega arith in
    rw e (omega (arith, sum_words_lem rest (n + (b + 256 * c)) (omega arith)))

total_bound : (bs : Bytes) → AreBytes bs → total bs ≤ 65535 * length bs
total_bound [] h = omega arith
total_bound (b ∷ []) h = omega (arith, h.0)
total_bound (b ∷ c ∷ rest) h = omega (arith, h.0, h.1.0, total_bound rest h.1.1)

folded : ℕ → ℕ
folded n = n / 65536 + n % 65536

folded_mod : (n : ℕ) → folded n % 65535 ≡ n % 65535
unfolding folded
folded_mod n = omega arith

fold_step :
    (fuel n : ℕ) → fold (suc fuel) n ≡ (if n / 65536 == 0 then some n else fold fuel (folded n))
unfolding fold folded
fold_step fuel n = refl

-- Three tests are enough for a sum of 32 bits, and folding keeps the remainder by 65535.
fold_lem :
    (n : ℕ) → n < 2 ^ 32 → (c : ℕ) × (fold 3 n ≡ some c) × (c < 2 ^ 16) × (c % 65535 ≡ n % 65535)
unfolding folded
fold_lem n h = elim (Bool-cases (n / 65536 == 0)) [
  | inl a ↦ (n, rw (fold_step 2 n, a), ground (arith, a), refl)
  | inr a ↦ elim (Bool-cases (folded n / 65536 == 0)) [
    | inl b ↦ (
      folded n,
      rw (fold_step 2 n, a, fold_step 1 (folded n), b),
      ground (arith, b),
      folded_mod n,
    )
    | inr b ↦ (
      folded (folded n),
      (let d : (folded (folded n) / 65536 == 0) ≡ true = ground arith in
          rw (fold_step 2 n, a, fold_step 1 (folded n), b, fold_step 0 (folded (folded n)), d)),
      ground arith,
      folded_mod (folded n) ∙ folded_mod n,
    )
  ]
]

-- For a buffer of at most 65536 bytes, the checksum is a number of 16 bits, and what it adds to the
-- words of the buffer makes them a multiple of 65535.
pub checksum_lem :
    (buffer : Bytes)
    → AreBytes buffer
    → length buffer ≤ 65536
    → (c : ℕ) × (checksum buffer ≡ some c) × (c < 2 ^ 16) × ((total buffer + c) % 65535 ≡ 0)
unfolding checksum
checksum_lem buffer h k =
    let bound = total_bound buffer h in
    let e = sum_words_lem buffer 0 (omega arith) in
    let (c, folds, small, same) = fold_lem (sum_words 0 buffer) (omega arith) in
    (65535 - c, rw (checksum, folds), omega arith, omega arith)
