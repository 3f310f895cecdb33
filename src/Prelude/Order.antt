-- ===== src/Prelude/Order.antt =====
-- Lists of pairs in the strict order of their keys, which are texts.
use mathlib.Core.Path.{◌≡◌, refl}
use mathlib.Core.Bool.{Bool, true, ◌&&◌}
use mathlib.Core.List.{List, [], ◌∷◌}
use native.Mathlib.Omega.{arith}
use ka_im.Prelude.Texts.{Bytes, bytes_lt, bytes_lt_trans}

module _ {ℓ} {A : Type ℓ} where
  -- Every key comes behind `name`.
  abbrev pub comes_before : Bytes → List (Bytes × A) → Bool
  comes_before name [] = true
  comes_before name ((key, value) ∷ rest) = bytes_lt name key && comes_before name rest

  abbrev pub ascends : List (Bytes × A) → Bool
  ascends [] = true
  ascends ((key, value) ∷ rest) = comes_before key rest && ascends rest

module _ {ℓ} {A : Type ℓ} where
  pub comes_before_trans :
      (a b : Bytes) (pairs : List (Bytes × A))
      → bytes_lt a b ≡ true
      → comes_before b pairs ≡ true
      → comes_before a pairs ≡ true
  comes_before_trans a b [] h k = refl
  comes_before_trans a b ((key, value) ∷ rest) h k =
      ground (arith, bytes_lt_trans a b key, comes_before_trans a b rest)
