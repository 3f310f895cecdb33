-- ===== src/Prelude/Slices.antt =====
-- Slices of a byte array and the writes of `std::copy`.
use Prim.Native.Nat.{ℕ, zero, suc, ◌+◌, ◌-◌, ◌≤◌}
use mathlib.Core.Path.{◌≡◌, refl, sym, ap}
use mathlib.Core.List.{List, [], ◌∷◌, ◌++◌}
use native.Mathlib.Omega.{arith}
use ka_im.Prelude.Lists.{
  length, take, drop, replicate, length-append, length-take, length-replicate,
}

module _ {ℓ} {A : Type ℓ} where
  -- The `n` elements from index `i` on.
  abbrev pub slice : ℕ → ℕ → List A → List A
  slice i n xs = take n (drop i xs)

  -- Copies `ds` over the array from index `i` on. What falls outside the array is not written.
  abbrev pub copy_to : List A → ℕ → List A → List A
  copy_to [] i ds = []
  copy_to (x ∷ xs) zero [] = x ∷ xs
  copy_to (x ∷ xs) zero (d ∷ ds) = d ∷ copy_to xs zero ds
  copy_to (x ∷ xs) (suc i) ds = x ∷ copy_to xs i ds

  -- `vector::resize`: cut, or fill up with `a`.
  abbrev pub resize : ℕ → A → List A → List A
  resize n a xs = take n xs ++ replicate (n - length xs) a

  pub length-copy_to : (xs : List A) (i : ℕ) (ds : List A) → length (copy_to xs i ds) ≡ length xs
  length-copy_to [] i ds = refl
  length-copy_to (x ∷ xs) zero [] = refl
  length-copy_to (x ∷ xs) zero (d ∷ ds) = ap suc (length-copy_to xs zero ds)
  length-copy_to (x ∷ xs) (suc i) ds = ap suc (length-copy_to xs i ds)

  pub length-resize : (n : ℕ) (a : A) (xs : List A) → length (resize n a xs) ≡ n
  length-resize n a xs = omega (
    arith,
    length-append (take n xs) (replicate (n - length xs) a),
    length-take n xs,
    length-replicate (n - length xs) a,
  )

  pub length-slice : (i n : ℕ) (xs : List A) → i + n ≤ length xs → length (slice i n xs) ≡ n
  length-slice zero n xs h = omega (arith, length-take n xs)
  length-slice (suc i) n [] h = absurd (omega arith)
  length-slice (suc i) n (x ∷ xs) h = length-slice i n xs (omega arith)

  take-zero-copy_to :
      (xs ds : List A) → length ds ≤ length xs → take (length ds) (copy_to xs zero ds) ≡ ds
  take-zero-copy_to xs [] h = refl
  take-zero-copy_to [] (d ∷ ds) h = absurd (omega arith)
  take-zero-copy_to (x ∷ xs) (d ∷ ds) h = ap (◌∷◌ d) (take-zero-copy_to xs ds (omega arith))

  -- What was copied is there.
  pub slice-copy_to_self :
      (xs : List A) (i : ℕ) (ds : List A)
      → i + length ds ≤ length xs
      → slice i (length ds) (copy_to xs i ds) ≡ ds
  slice-copy_to_self xs zero ds h = take-zero-copy_to xs ds (omega arith)
  slice-copy_to_self [] (suc i) ds h = absurd (omega arith)
  slice-copy_to_self (x ∷ xs) (suc i) ds h = slice-copy_to_self xs i ds (omega arith)

  take-copy_to :
      (n : ℕ) (xs : List A) (i : ℕ) (ds : List A) → n ≤ i → take n (copy_to xs i ds) ≡ take n xs
  take-copy_to zero xs i ds h = refl
  take-copy_to (suc n) [] i ds h = refl
  take-copy_to (suc n) (x ∷ xs) zero ds h = absurd (omega arith)
  take-copy_to (suc n) (x ∷ xs) (suc i) ds h = ap (◌∷◌ x) (take-copy_to n xs i ds (omega arith))

  -- What stands in front of it is as before.
  pub slice-copy_to_below :
      (j n : ℕ) (xs : List A) (i : ℕ) (ds : List A)
      → j + n ≤ i
      → slice j n (copy_to xs i ds) ≡ slice j n xs
  slice-copy_to_below zero n xs i ds h = take-copy_to n xs i ds (omega arith)
  slice-copy_to_below (suc j) n [] i ds h = refl
  slice-copy_to_below (suc j) n (x ∷ xs) zero ds h = absurd (omega arith)
  slice-copy_to_below (suc j) n (x ∷ xs) (suc i) ds h =
      slice-copy_to_below j n xs i ds (omega arith)

  -- And so is what stands behind it.
  pub slice-copy_to_above :
      (j n : ℕ) (xs : List A) (i : ℕ) (ds : List A)
      → i + length ds ≤ j
      → slice j n (copy_to xs i ds) ≡ slice j n xs
  slice-copy_to_above j n [] i ds h = refl
  slice-copy_to_above j n (x ∷ xs) zero [] h = refl
  slice-copy_to_above zero n (x ∷ xs) zero (d ∷ ds) h = absurd (omega arith)
  slice-copy_to_above (suc j) n (x ∷ xs) zero (d ∷ ds) h =
      slice-copy_to_above j n xs zero ds (omega arith)
  slice-copy_to_above zero n (x ∷ xs) (suc i) ds h = absurd (omega arith)
  slice-copy_to_above (suc j) n (x ∷ xs) (suc i) ds h =
      slice-copy_to_above j n xs i ds (omega arith)

  pub take-take : (n m : ℕ) (xs : List A) → n ≤ m → take n (take m xs) ≡ take n xs
  take-take zero m xs h = refl
  take-take (suc n) zero xs h = absurd (omega arith)
  take-take (suc n) (suc m) [] h = refl
  take-take (suc n) (suc m) (x ∷ xs) h = ap (◌∷◌ x) (take-take n m xs (omega arith))

  pub take_all : (n : ℕ) (xs : List A) → length xs ≤ n → take n xs ≡ xs
  take_all zero [] h = refl
  take_all zero (x ∷ xs) h = absurd (omega arith)
  take_all (suc n) [] h = refl
  take_all (suc n) (x ∷ xs) h = ap (◌∷◌ x) (take_all n xs (omega arith))

  pub take-append_left : (n : ℕ) (xs ys : List A) → n ≤ length xs → take n (xs ++ ys) ≡ take n xs
  take-append_left zero xs ys h = refl
  take-append_left (suc n) [] ys h = absurd (omega arith)
  take-append_left (suc n) (x ∷ xs) ys h = ap (◌∷◌ x) (take-append_left n xs ys (omega arith))

  pub slice-resize :
      (j n m : ℕ) (a : A) (xs : List A)
      → j + n ≤ length xs
      → j + n ≤ m
      → slice j n (resize m a xs) ≡ slice j n xs
  slice-resize zero n m a xs h k = rw (
    take-append_left n (take m xs) (replicate (m - length xs) a) (omega (arith, length-take m xs)),
    take-take n m xs (omega arith),
  )
  slice-resize (suc j) n zero a xs h k = absurd (omega arith)
  slice-resize (suc j) n (suc m) a [] h k = absurd (omega arith)
  slice-resize (suc j) n (suc m) a (x ∷ xs) h k =
      let e : suc m - length (x ∷ xs) ≡ m - length xs = omega arith in
      rw e (slice-resize j n m a xs (omega arith) (omega arith))

  take-nil : (n : ℕ) → take {A = A} n [] ≡ []
  take-nil zero = refl
  take-nil (suc n) = refl

  drop-nil : (n : ℕ) → drop {A = A} n [] ≡ []
  drop-nil zero = refl
  drop-nil (suc n) = refl

  take_total : (n m t : ℕ) (xs : List A) → t ≡ n + m → take t xs ≡ take n xs ++ take m (drop n xs)
  take_total zero m t xs e = let e' : t ≡ m = omega arith in ap (λ k. take k xs) e'
  take_total (suc n) m zero xs e = absurd (omega arith)
  take_total (suc n) m (suc t) [] e = sym (take-nil m)
  take_total (suc n) m (suc t) (x ∷ xs) e = ap (◌∷◌ x) (take_total n m t xs (omega arith))

  -- A slice of `t` elements is one of `n` and the `m` behind it.
  pub slice_split :
      (i n m k t : ℕ) (xs : List A)
      → k ≡ i + n
      → t ≡ n + m
      → slice i t xs ≡ slice i n xs ++ slice k m xs
  slice_split zero n m k t xs p q = let p' : k ≡ n = omega arith in rw p' (take_total n m t xs q)
  slice_split (suc i) n m zero t xs p q = absurd (omega arith)
  slice_split (suc i) n m (suc k) t [] p q = rw (take-nil, take-nil, take-nil)
  slice_split (suc i) n m (suc k) t (x ∷ xs) p q = slice_split i n m k t xs (omega arith) q
