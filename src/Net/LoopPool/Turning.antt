-- ===== src/Net/LoopPool/Turning.antt =====
-- A pool that was started hands out a loop at every call.
use ka_im.Prelude.{
  ℕ, zero, suc, ◌+◌, ◌<◌, ◌≡◌, refl, ◌⊎◌, inl, inr, true, List, [], ◌∷◌, some, arith, if◌then◌else◌,
  length, leb,
}
use ka_im.Net.LoopPool.{LoopPool, get_next_loop, loop_at}
use ka_im.Net.LoopPool

-- A pool that hands out loops.
pub record Turning (p : LoopPool) : Type 0 where
  pub is_started : p.started ≡ true
  pub has_base : (base : ℕ) × (p.base_loop ≡ some base)
  pub in_range : (p.loops ≡ []) ⊎ (p.next < length p.loops)

loop_at-some : (n : ℕ) (ls : List ℕ) → n < length ls → (l : ℕ) × (loop_at n ls ≡ some l)
loop_at-some n [] h = absurd (omega arith)
loop_at-some zero (l ∷ ls) h = (l, refl)
loop_at-some (suc n) (l ∷ ls) h = loop_at-some n ls (omega arith)

abbrev pub Handed : LoopPool → Type 0
Handed p = (loop : ℕ) × (p' : LoopPool) × (get_next_loop p ≡ (some loop, p')) × Turning p'

Handed-at :
    (p : LoopPool) (ls : List ℕ)
    → p.loops ≡ ls
    → Turning p
    → (ls ≡ []) ⊎ (p.next < length ls)
    → Handed p
unfolding get_next_loop
Handed-at p [] e t (inl empty) = (t.has_base.0, p, ground (arith, t.is_started, e, t.has_base.1), t)
Handed-at p [] e t (inr h) = absurd (omega arith)
Handed-at p (l ∷ ls) e t (inl empty) = absurd (ground (arith, empty))
Handed-at p (l ∷ ls) e t (inr h) =
    let found = loop_at-some p.next (l ∷ ls) h in
    let next : ℕ = if leb (length p.loops) (p.next + 1) then 0 else p.next + 1 in
    (
      found.0,
      record p { next = next },
      ground (arith, t.is_started, e, found.1),
      record {
        is_started = t.is_started;
        has_base = t.has_base;
        in_range = inr (ground (arith, e));
      },
    )

pub get_next_loop-Turning : (p : LoopPool) → Turning p → Handed p
get_next_loop-Turning p t = Handed-at p p.loops refl t t.in_range

pub start_pool :
    (threads base : ℕ) (started_loop : ℕ → ℕ)
    → Turning (LoopPool.start started_loop (LoopPool.init base threads LoopPool.make))
unfolding LoopPool.start LoopPool.init
start_pool zero base started_loop = record {
  is_started = refl;
  has_base = (base, refl);
  in_range = inl refl;
}
start_pool (suc n) base started_loop = record {
  is_started = refl;
  has_base = (base, refl);
  in_range = inr (omega arith);
}
