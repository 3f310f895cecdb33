-- ===== src/Database/Pool/Manager/Refinement.antt =====
-- The manager as a function from names to pools.
use mathlib.Core.Path.{fun_ext}
use ka_im.Prelude.{
  ℕ, ◌≡◌, refl, sym, ap, ◌∙◌, inl, inr, false, List, [], ◌∷◌, Option, none, some, Bytes, bytes_eq,
  bytes_eq_same, bytes_eq_differs, arith, if◌then◌else◌, Bool-cases,
}
use ka_im.Database.Pool.{Pool, Got}
use ka_im.Database.Pool
use ka_im.Database.Pool.Manager.{
  KaCacheManager, CachePool, Pools, find, put, get_cache_conn, rel_cache_conn, View, pool_of, view,
  update, Op, gets, gives_back, run, replay, borrowed, returned, got_of,
}

still :
    (name key : Bytes)
    → bytes_eq key name ≡ false
    → (r : CachePool) (rest : Pools) (p : CachePool) → find name ((key, r) ∷ rest) ≡ some p
    → find name rest ≡ some p
still name key other r rest p h = ground (arith, other, h)

find-put :
    (name n : Bytes) (q p : CachePool) (pools : Pools)
    → find name pools ≡ some p
    → find n (put name q pools) ≡ (if bytes_eq name n then some q else find n pools)
find-put name n q p [] h = absurd (ground (arith, h))
find-put name n q p ((key, r) ∷ rest) h = elim (Bool-cases (bytes_eq key name)) [
  | inl same ↦ rw (same, bytes_eq_same key name n same) (ground arith)
  | inr other ↦ elim (Bool-cases (bytes_eq key n)) [
    | inl this ↦
        let apart : bytes_eq name n ≡ false = bytes_eq_differs key name n this other in
        rw (other, this, apart) refl
    | inr that ↦ rw (other, that) (find-put name n q p rest (still name key other r rest p h))
  ]
]

view-put :
    (name : Bytes) (q p : CachePool) (pools : Pools)
    → find name pools ≡ some p
    → view (record { pools = put name q pools })
      ≡ update (view (record { pools = pools })) name q.pool
unfolding view
view-put name q p pools h = fun_ext λ n. rw (find-put name n q p pools h) (ground arith)

borrowed_lem :
    (creation : Option ℕ) (name : Bytes) (f : View) (o : Option Pool)
    → f name ≡ o
    → borrowed creation name f
      ≡ elim o [ none ↦ f | some p ↦ update f name (Pool.get_cache_conn creation p).1 ]
borrowed_lem creation name f none h = ground (arith, h)
borrowed_lem creation name f (some p) h = ground (arith, h)

returned_lem :
    (c : ℕ) (name : Bytes) (f : View) (o : Option Pool)
    → f name ≡ o
    → returned (some (c, name)) f
      ≡ elim o [ none ↦ f | some p ↦ update f name (Pool.rel_cache_conn c p) ]
returned_lem c name f none h = ground (arith, h)
returned_lem c name f (some p) h = ground (arith, h)

view_lem :
    (name : Bytes) (m : KaCacheManager) (o : Option CachePool)
    → find name m.pools ≡ o
    → view m name ≡ pool_of o
unfolding view
view_lem name m o h = ap pool_of h

get_view :
    (creation : Option ℕ) (name : Bytes) (m : KaCacheManager) (o : Option CachePool)
    → find name m.pools ≡ o
    → ((get_cache_conn creation name m).0 ≡ got_of creation (pool_of o))
      × (view (get_cache_conn creation name m).1 ≡ borrowed creation name (view m))
unfolding get_cache_conn
get_view creation name m none h = (
  rw (get_cache_conn, h) refl,
  rw (get_cache_conn, h) (sym (borrowed_lem creation name (view m) none (view_lem name m none h))),
)
get_view creation name m (some p) h = (
  rw (get_cache_conn, h) refl,
  rw (get_cache_conn, h)
      (view-put name (record p { pool = (Pool.get_cache_conn creation p.pool).1 }) p m.pools h
        ∙ sym (borrowed_lem creation name (view m) (some p.pool) (view_lem name m (some p) h))),
)

got_lem :
    (creation : Option ℕ) (name : Bytes) (m : KaCacheManager)
    → (get_cache_conn creation name m).0 ≡ got_of creation (pool_of (find name m.pools))
    → (get_cache_conn creation name m).0 ≡ got_of creation (view m name)
unfolding view
got_lem creation name m h = h

rel_view :
    (c : ℕ) (name : Bytes) (m : KaCacheManager) (o : Option CachePool)
    → find name m.pools ≡ o
    → view (rel_cache_conn (some (c, name)) m) ≡ returned (some (c, name)) (view m)
unfolding rel_cache_conn
rel_view c name m none h =
    rw (rel_cache_conn, h) (sym (returned_lem c name (view m) none (view_lem name m none h)))
rel_view c name m (some p) h =
    rw (rel_cache_conn, h)
      (view-put name (record p { pool = Pool.rel_cache_conn c p.pool }) p m.pools h
        ∙ sym (returned_lem c name (view m) (some p.pool) (view_lem name m (some p) h)))

rel_at :
    (c : Option (ℕ × Bytes)) (m : KaCacheManager) → view (rel_cache_conn c m) ≡ returned c (view m)
unfolding rel_cache_conn
rel_at none m = refl
rel_at (some (c, name)) m = rel_view c name m (find name m.pools) refl

-- Any sequence of borrowing from the manager and giving back, by name, returns what the same calls
-- return on a function from names to pools, and leaves the pools as these calls leave them there: each
-- call reaches the pool of its name alone, and one whose name is unknown, or that gives back a
-- null pointer, changes nothing.
pub run_refines :
    (ops : List Op) (m : KaCacheManager)
    → ((run ops m).0 ≡ (replay ops (view m)).0) × (view (run ops m).1 ≡ (replay ops (view m)).1)
unfolding run replay
run_refines [] m = (refl, refl)
run_refines (gets creation name ∷ ops) m =
    let step = get_view creation name m (find name m.pools) refl in
    let ih = run_refines ops (get_cache_conn creation name m).1 in
    let moved = ap (replay ops) step.1 in
    (
      ap (◌∷◌ (get_cache_conn creation name m).0) (ih.0 ∙ ap (λ r. r.0) moved)
          ∙ ap (λ g. g ∷ (replay ops (borrowed creation name (view m))).0)
              (got_lem creation name m step.0),
      ih.1 ∙ ap (λ r. r.1) moved,
    )
run_refines (gives_back c ∷ ops) m =
    let ih = run_refines ops (rel_cache_conn c m) in
    let moved = ap (replay ops) (rel_at c m) in
    (ih.0 ∙ ap (λ r. r.0) moved, ih.1 ∙ ap (λ r. r.1) moved)
