-- ===== src/Prelude/Copies.antt =====
-- How often a number stands in a list.
use Prim.Native.Nat.{ℕ, suc, ◌+◌}
use mathlib.Core.Path.{◌≡◌}
use mathlib.Core.List.{List, [], ◌∷◌, ◌++◌}
use native.Mathlib.Omega.{arith}
use ka_im.Prelude.Tests.{◌==◌, if◌then◌else◌}

abbrev pub copies : ℕ → List ℕ → ℕ
copies address [] = 0
copies address (head ∷ list) =
    if head == address then suc (copies address list) else copies address list

pub copies-append :
    (address : ℕ) (front back : List ℕ)
    → copies address (front ++ back) ≡ copies address front + copies address back
copies-append address [] back = omega arith
copies-append address (head ∷ front) back = ground (arith, copies-append address front back)
