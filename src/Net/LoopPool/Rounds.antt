-- ===== src/Net/LoopPool/Rounds.antt =====
-- The order in which the loops of a pool are handed out.
use ka_im.Prelude.{
  ℕ, zero, suc, ◌+◌, ◌<◌, ◌≡◌, refl, sym, ap, ◌∙◌, true, List, [], ◌∷◌, ◌++◌, append_assoc, map,
  Option, some, length, length-append, leb, if◌then◌else◌, arith,
}
use ka_im.Net.LoopPool.{LoopPool, loop_at, get_next_loop}

-- `n` calls of `getNextLoop`.
unfoldable pub picks : ℕ → LoopPool → List (Option ℕ) × LoopPool
picks zero p = ([], p)
picks (suc n) p = let (l, p') = get_next_loop p in let (ls, p'') = picks n p' in (l ∷ ls, p'')

loop_at-append : (front back : List ℕ) (l : ℕ) → loop_at (length front) (front ++ l ∷ back) ≡ some l
loop_at-append [] back l = refl
loop_at-append (f ∷ front) back l = loop_at-append front back l

pub cons_of : (front back : List ℕ) (l : ℕ) → (x : ℕ) × (xs : List ℕ) × (front ++ l ∷ back ≡ x ∷ xs)
cons_of [] back l = (l, back, refl)
cons_of (f ∷ front) back l = (f, front ++ l ∷ back, refl)

abbrev next_of : LoopPool → ℕ
next_of p = if leb (length p.loops) (p.next + 1) then 0 else p.next + 1

get_some :
    (p : LoopPool) (x : ℕ) (xs : List ℕ)
    → p.started ≡ true
    → p.loops ≡ x ∷ xs
    → get_next_loop p ≡ (loop_at p.next p.loops, record p { next = next_of p })
unfolding get_next_loop
get_some p x xs s e = ground (arith, s, e)

pub get_next_loop_lem :
    (p : LoopPool) (front back : List ℕ) (l : ℕ)
    → p.started ≡ true
    → p.loops ≡ front ++ l ∷ back
    → p.next ≡ length front
    → get_next_loop p ≡ (some l, record p { next = next_of p })
get_next_loop_lem p front back l s e n =
    let (x, xs, c) = cons_of front back l in
    get_some p x xs s (e ∙ c)
    ∙ ap (λ o. (o, record p { next = next_of p }))
        (ap (loop_at p.next) e
          ∙ ap (λ k. loop_at k (front ++ l ∷ back)) n
          ∙ loop_at-append front back l)

next_last :
    (p : LoopPool) (front : List ℕ) (l : ℕ)
    → p.loops ≡ front ++ l ∷ []
    → p.next ≡ length front
    → next_of p ≡ 0
next_last p front l e n = let size = ap length e ∙ length-append front (l ∷ []) in ground arith

pub next_middle :
    (p : LoopPool) (front back : List ℕ) (l m : ℕ)
    → p.loops ≡ front ++ l ∷ m ∷ back
    → p.next ≡ length front
    → next_of p ≡ length (front ++ l ∷ [])
next_middle p front back l m e n =
    let size = ap length e ∙ length-append front (l ∷ m ∷ back) in
    let more = length-append front (l ∷ []) in ground arith

rest_of_round :
    (back front : List ℕ) (p : LoopPool)
    → p.started ≡ true
    → p.loops ≡ front ++ back
    → p.next ≡ length front
    → 0 < length back
    → picks (length back) p ≡ (map some back, record p { next = 0 })
unfolding picks
rest_of_round [] front p s e n h = absurd (omega arith)
rest_of_round (l ∷ []) front p s e n h =
    let got =
      get_next_loop_lem p front [] l s e n
      ∙ ap (λ k. (some l, record p { next = k })) (next_last p front l e n) in
    ap (λ g. (g.0 ∷ [], g.1)) got
rest_of_round (l ∷ m ∷ back) front p s e n h =
    let got =
      get_next_loop_lem p front (m ∷ back) l s e n
      ∙ ap (λ k. (some l, record p { next = k })) (next_middle p front back l m e n) in
    let rest =
      rest_of_round (m ∷ back) (front ++ l ∷ []) (record p { next = length (front ++ l ∷ []) }) s
        (e ∙ sym (append_assoc front (l ∷ []) (m ∷ back))) refl (omega arith) in
    ap (λ g. (g.0 ∷ (picks (length (m ∷ back)) g.1).0, (picks (length (m ∷ back)) g.1).1)) got
    ∙ ap (λ r. (some l ∷ r.0, r.1)) rest

-- From a started pool that has loops and whose turn is at the first one, as many calls of
-- `getNextLoop` as there are loops give each loop once, in order, and the turn is at the first one
-- again.
pub get_next_loop-round :
    (p : LoopPool)
    → p.started ≡ true
    → p.next ≡ 0
    → 0 < length p.loops
    → picks (length p.loops) p ≡ (map some p.loops, record p { next = 0 })
get_next_loop-round p s n h = rest_of_round p.loops [] p s refl n h
