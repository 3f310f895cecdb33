-- ===== src/Database/Pool/Waiting.antt =====
-- When a client of the pool waits, and what wakes it.
use ka_im.Prelude.{
  ℕ, ◌≡◌, refl, ap, true, List, [], ◌∷◌, ◌++◌, Option, none, some, if◌then◌else◌, arith, length,
}
use ka_im.Prelude.Int.{pos, ◌≤ℤ◌}
use ka_im.Database.Pool.{Pool, waits, conn, get_cache_conn, rel_cache_conn, is_free}
use ka_im.Database.Pool.Clients.{System, IsSound}

waits_at :
    (p : Pool) (l : List ℕ) (creation : Option ℕ)
    → p.free_list ≡ l
    → (get_cache_conn creation p).0 ≡ waits
    → (l ≡ []) × (p.max_conn_cnt ≤ℤ pos p.cur_conn_cnt)
unfolding get_cache_conn
waits_at p [] none e h = ground arith
waits_at p [] (some d) e h = ground arith
waits_at p (x ∷ xs) creation e h = ground arith

-- A sound pool makes a thread wait only while every connection is lent out and the limit is reached.
pub waits_lent :
    (s : System) (creation : Option ℕ)
    → IsSound s
    → (get_cache_conn creation s.pool).0 ≡ waits
    → (length s.lent ≡ s.pool.cur_conn_cnt) × (s.pool.max_conn_cnt ≤ℤ pos (length s.lent))
waits_lent s creation v h =
    let w = waits_at s.pool s.pool.free_list creation refl h in
    let e : length s.lent ≡ s.pool.cur_conn_cnt = omega (arith, ap length w.0, v.complete) in
    (e, rw e w.1)

rel_nonempty :
    (c : ℕ) (p : Pool) → (x : ℕ) × (xs : List ℕ) × ((rel_cache_conn c p).free_list ≡ x ∷ xs)
unfolding rel_cache_conn
rel_nonempty c p = rel_at c p p.free_list refl
  where
    rel_at :
        (c : ℕ) (p : Pool) (l : List ℕ)
        → p.free_list ≡ l
        → (x : ℕ) × (xs : List ℕ) × ((rel_cache_conn c p).free_list ≡ x ∷ xs)
    rel_at c p [] e = (c, [], ground arith)
    rel_at c p (y ∷ ys) e = (y, if is_free c (y ∷ ys) then ys else ys ++ c ∷ [], ground arith)

serves_at :
    (q : Pool) (x : ℕ) (xs : List ℕ) (creation : Option ℕ)
    → q.free_list ≡ x ∷ xs
    → get_cache_conn creation q ≡ (conn x, record q { free_list = xs })
unfolding get_cache_conn
serves_at q x xs creation e = rw e

is_free-append : (c : ℕ) (xs : List ℕ) → is_free c (xs ++ c ∷ []) ≡ true
is_free-append c [] = ground arith
is_free-append c (x ∷ xs) = ground (arith, is_free-append c xs)

rel-rel : (c : ℕ) (p : Pool) → rel_cache_conn c (rel_cache_conn c p) ≡ rel_cache_conn c p
unfolding rel_cache_conn
rel-rel c p = ground (arith, is_free-append c p.free_list)

-- After a connection is given back the next thread is served at once, whatever the limit; giving it
-- back twice is giving it back once.
pub rel_cache_conn-serves :
    (c : ℕ) (p : Pool) (creation : Option ℕ)
    → ((x : ℕ) × (q : Pool) × (get_cache_conn creation (rel_cache_conn c p) ≡ (conn x, q)))
      × (rel_cache_conn c (rel_cache_conn c p) ≡ rel_cache_conn c p)
rel_cache_conn-serves c p creation =
    let n = rel_nonempty c p in
    (
      (
        n.0,
        record (rel_cache_conn c p) { free_list = n.1 },
        serves_at (rel_cache_conn c p) n.0 n.1 creation n.2,
      ),
      rel-rel c p,
    )
