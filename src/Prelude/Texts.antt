-- ===== src/Prelude/Texts.antt =====
-- Texts as lists of bytes.
use Prim.Native.String.{String}
use Prim.Native.Char.{code}
use Prim.Native.Nat.{ℕ}
use mathlib.Core.List.{List, [], ◌∷◌}
use mathlib.Core.Bool.{Bool, true, false, ◌&&◌}
use mathlib.Core.Path.{◌≡◌, refl, sym, ap, ◌∙◌}
use mathlib.Core.Logic.{inl, inr}
use native.Mathlib.Omega.{arith}
use ka_im.Prelude.Tests.{◌==◌, ltb, if◌then◌else◌, Bool-cases}

abbrev pub Bytes : Type 0
Bytes = List ℕ

-- The bytes of a literal in ASCII.
abbrev pub bytes : String → Bytes
bytes String.[] = []
bytes (String.◌∷◌ c s) = code c ∷ bytes s

abbrev pub bytes_eq : Bytes → Bytes → Bool
bytes_eq [] [] = true
bytes_eq [] (y ∷ ys) = false
bytes_eq (x ∷ xs) [] = false
bytes_eq (x ∷ xs) (y ∷ ys) = x == y && bytes_eq xs ys

pub bytes_eq_sound : (a b : Bytes) → bytes_eq a b ≡ true → a ≡ b
bytes_eq_sound [] [] h = refl
bytes_eq_sound [] (y ∷ ys) h = cc
bytes_eq_sound (x ∷ xs) [] h = cc
bytes_eq_sound (x ∷ xs) (y ∷ ys) h = ground (arith, bytes_eq_sound xs ys)

pub bytes_eq_refl : (a : Bytes) → bytes_eq a a ≡ true
bytes_eq_refl [] = refl
bytes_eq_refl (x ∷ xs) = ground (arith, bytes_eq_refl xs)

-- `std::string`'s `<`, on unsigned bytes.
abbrev pub bytes_lt : Bytes → Bytes → Bool
bytes_lt xs [] = false
bytes_lt [] (y ∷ ys) = true
bytes_lt (x ∷ xs) (y ∷ ys) = if x == y then bytes_lt xs ys else ltb x y

pub bytes_eq_same :
    (key name n : Bytes) → bytes_eq key name ≡ true → bytes_eq name n ≡ bytes_eq key n
bytes_eq_same key name n h = ap (λ k. bytes_eq k n) (sym (bytes_eq_sound key name h))

pub bytes_eq_differs :
    (key name n : Bytes)
    → bytes_eq key n ≡ true
    → bytes_eq key name ≡ false
    → bytes_eq name n ≡ false
bytes_eq_differs key name n this other = elim (Bool-cases (bytes_eq name n)) [
  | inl same ↦
      absurd (ground (arith, sym other ∙ ap (bytes_eq key) (bytes_eq_sound name n same) ∙ this))
  | inr apart ↦ apart
]

pub bytes_lt_irrefl : (a : Bytes) → bytes_lt a a ≡ false
bytes_lt_irrefl [] = refl
bytes_lt_irrefl (x ∷ xs) = ground (arith, bytes_lt_irrefl xs)

pub bytes_lt_trans :
    (a b c : Bytes) → bytes_lt a b ≡ true → bytes_lt b c ≡ true → bytes_lt a c ≡ true
bytes_lt_trans a b [] h k = absurd (ground (arith, k))
bytes_lt_trans a [] (z ∷ zs) h k = absurd (ground (arith, h))
bytes_lt_trans [] (y ∷ ys) (z ∷ zs) h k = refl
bytes_lt_trans (x ∷ xs) (y ∷ ys) (z ∷ zs) h k = ground (arith, bytes_lt_trans xs ys zs)

pub bytes_lt_total :
    (a b : Bytes) → bytes_eq a b ≡ false → bytes_lt a b ≡ false → bytes_lt b a ≡ true
bytes_lt_total [] [] h k = absurd (ground (arith, h))
bytes_lt_total [] (y ∷ ys) h k = absurd (ground (arith, k))
bytes_lt_total (x ∷ xs) [] h k = refl
bytes_lt_total (x ∷ xs) (y ∷ ys) h k = ground (arith, bytes_lt_total xs ys)

pub bytes_lt_differs : (a b : Bytes) → bytes_lt a b ≡ true → bytes_eq b a ≡ false
bytes_lt_differs a b h = elim (Bool-cases (bytes_eq b a)) [
  | inl same ↦ absurd (
      ground (arith, sym (bytes_lt_irrefl a) ∙ ap (bytes_lt a) (sym (bytes_eq_sound b a same)) ∙ h))
  | inr apart ↦ apart
]
