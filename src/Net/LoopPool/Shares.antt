-- ===== src/Net/LoopPool/Shares.antt =====
-- How the loops of a pool share the connections.
use native.Mathlib.Nat.{mod-lt, div-add-mod'}
use ka_im.Prelude.{
  ℕ, zero, suc, ◌+◌, ◌*◌, ◌/◌, ◌%◌, ◌≤◌, ◌<◌, ◌≡◌, refl, sym, ap, ◌∙◌, true, List, [], ◌∷◌, ◌++◌,
  append_assoc, map, some, length, length-append, take, drop, take-append-drop, length-take,
  length-drop, copies, copies-append, arith,
}
use ka_im.Net.LoopPool.{LoopPool, get_next_loop}
use ka_im.Net.LoopPool.Rounds.{picks, cons_of, get_next_loop_lem, next_middle, get_next_loop-round}

-- The list `rounds` times over, and so many of its elements more.
abbrev pub shares : ℕ → ℕ → List ℕ → List ℕ
shares zero more loops = take more loops
shares (suc rounds) more loops = loops ++ shares rounds more loops

map-append : (xs ys : List ℕ) → map some (xs ++ ys) ≡ map some xs ++ map some ys
map-append [] ys = refl
map-append (x ∷ xs) ys = ap (λ t. some x ∷ t) (map-append xs ys)

picks_add :
    (m n : ℕ) (p : LoopPool)
    → picks (m + n) p ≡ ((picks m p).0 ++ (picks n (picks m p).1).0, (picks n (picks m p).1).1)
unfolding picks
picks_add zero n p = ap (λ k. picks k p) (omega arith)
picks_add (suc m) n p =
    let next = get_next_loop p in
    let e : suc m + n ≡ suc (m + n) = omega arith in
    ap (λ k. picks k p) e ∙ ap (λ r. (next.0 ∷ r.0, r.1)) (picks_add m n next.1)

-- Calls that stay inside a round.
part_of_round :
    (middle front back : List ℕ) (l : ℕ) (p : LoopPool)
    → p.started ≡ true
    → p.loops ≡ front ++ (middle ++ l ∷ back)
    → p.next ≡ length front
    → picks (length middle) p ≡ (map some middle, record p { next = length front + length middle })
unfolding picks
part_of_round [] front back l p s e n = ap (λ k. ([], record p { next = k })) (omega (arith, n))
part_of_round (m ∷ middle) front back l p s e n =
    let (x, xs, c) = cons_of middle back l in
    let got =
      get_next_loop_lem p front (middle ++ l ∷ back) m s e n
      ∙ ap (λ k. (some m, record p { next = k }))
          (next_middle p front xs m x (e ∙ ap (λ t. front ++ m ∷ t) c) n) in
    let rest =
      part_of_round middle (front ++ m ∷ []) back l (record p { next = length (front ++ m ∷ []) }) s
        (e ∙ sym (append_assoc front (m ∷ []) (middle ++ l ∷ back))) refl in
    ap (λ g. (g.0 ∷ (picks (length middle) g.1).0, (picks (length middle) g.1).1)) got
    ∙ ap (λ r. (some m ∷ r.0, r.1)) rest
    ∙ ap (λ k. (map some (m ∷ middle), record p { next = k }))
        (omega (arith, length-append front (m ∷ [])))

first_calls :
    (p : LoopPool) (r : ℕ) (rest : List ℕ)
    → p.started ≡ true
    → p.next ≡ 0
    → r < length p.loops
    → drop r p.loops ≡ rest
    → picks r p ≡ (map some (take r p.loops), record p { next = r })
first_calls p r [] s n h e = absurd (omega (arith, length-drop r p.loops, ap length e))
first_calls p r (l ∷ back) s n h e =
    let size : length (take r p.loops) ≡ r = omega (arith, length-take r p.loops) in
    let all = sym (take-append-drop r p.loops) ∙ ap (λ t. take r p.loops ++ t) e in
    ap (λ k. picks k p) (sym size)
    ∙ part_of_round (take r p.loops) [] back l p s all n
    ∙ ap (λ k. (map some (take r p.loops), record p { next = k })) (omega (arith, size))

rounds_of :
    (k r : ℕ) (p : LoopPool)
    → p.started ≡ true
    → p.next ≡ 0
    → r < length p.loops
    → picks (k * length p.loops + r) p ≡ (map some (shares k r p.loops), record p { next = r })
rounds_of zero r p s n h =
    ap (λ m. picks m p) (omega arith) ∙ first_calls p r (drop r p.loops) s n h refl
rounds_of (suc k) r p s n h =
    let size = length p.loops in
    let e : suc k * size + r ≡ size + (k * size + r) = omega arith in
    ap (λ m. picks m p) e
    ∙ picks_add size (k * size + r) p
    ∙ ap (λ g. (g.0 ++ (picks (k * size + r) g.1).0, (picks (k * size + r) g.1).1))
        (get_next_loop-round p s n (omega arith))
    ∙ ap (λ g. (map some p.loops ++ g.0, g.1)) (rounds_of k r (record p { next = 0 }) s refl h)
    ∙ ap (λ t. (t, record p { next = r })) (sym (map-append p.loops (shares k r p.loops)))

shares-copies :
    (k r l : ℕ) (loops : List ℕ)
    → copies l (shares k r loops) ≡ k * copies l loops + copies l (take r loops)
shares-copies zero r l loops = omega arith
shares-copies (suc k) r l loops =
    omega (arith, copies-append l loops (shares k r loops), shares-copies k r l loops)

-- On a started pool that has loops and whose turn is at the first one, `n` calls of `getNextLoop`
-- never give a null pointer: they give the loops in order, round after round. So each loop
-- comes as often as there were whole rounds, or once more, counted as often as the pool has it.
pub picks-shares :
    (n : ℕ) (p : LoopPool)
    → p.started ≡ true
    → p.next ≡ 0
    → 0 < length p.loops
    → let size = length p.loops in
      let ls = shares (n / size) (n % size) p.loops in
      (picks n p ≡ (map some ls, record p { next = n % size }))
      × ((l : ℕ)
          → ((n / size) * copies l p.loops ≤ copies l ls)
            × (copies l ls ≤ suc (n / size) * copies l p.loops))
picks-shares n p s e h =
    let size = length p.loops in
    (
      ap (λ m. picks m p) (sym (div-add-mod' n size))
          ∙ rounds_of (n / size) (n % size) p s e (mod-lt n h),
      λ l.
          let some_more = copies-append l (take (n % size) p.loops) (drop (n % size) p.loops) in
          let all = ap (copies l) (take-append-drop (n % size) p.loops) in
          let parts = shares-copies (n / size) (n % size) l p.loops in
          (omega (arith, parts), omega (arith, parts, some_more, all)),
    )
