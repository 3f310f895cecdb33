-- ===== src/Database/Pool/Clients.antt =====
-- A pool and the threads that borrow from it, as sequences of atomic calls.
use ka_im.Prelude.{
  copies, copies-append, ℕ, ◌+◌, ◌≤◌, ◌<◌, ◌≡◌, refl, ◌≢◌, true, false, List, [], ◌∷◌, Option, none,
  some, ◌==◌, if◌then◌else◌, arith, length, length-append, Bool-cases, inl, inr, ◌⊎◌,
}
use ka_im.Prelude.Int.{ℤ, pos, ◌≤ℤ◌}
use ka_im.Database.Pool.{
  Pool, make, init, failed, conn, get_cache_conn, rel_cache_conn, is_free, min_conn_cnt,
}

is_free-copies : (a : ℕ) (xs : List ℕ) → is_free a xs ≡ true → 0 < copies a xs
is_free-copies a [] h = cc
is_free-copies a (x ∷ xs) h = ground (arith, is_free-copies a xs)

not_free-copies : (a : ℕ) (xs : List ℕ) → is_free a xs ≡ false → copies a xs ≡ 0
not_free-copies a [] h = refl
not_free-copies a (x ∷ xs) h = ground (arith, not_free-copies a xs)

abbrev pub drop_one : ℕ → List ℕ → List ℕ
drop_one c [] = []
drop_one c (x ∷ xs) = if x == c then xs else x ∷ drop_one c xs

copies-drop_one :
    (a c : ℕ) (xs : List ℕ)
    → 0 < copies c xs
    → (copies a (drop_one c xs) + copies a (c ∷ []) ≡ copies a xs)
      × (length (drop_one c xs) + 1 ≡ length xs)
copies-drop_one a c [] h = absurd (omega arith)
copies-drop_one a c (x ∷ xs) h = ground (arith, copies-drop_one a c xs)

-- The pool and the connections that are lent out.
pub record System : Type 0 where
  pub pool : Pool
  pub lent : List ℕ

-- A thread borrows a connection, tries in vain, or gives one back that was lent out. A connection
-- that is made has an address of its own.
pub data Step : System → System → Type 0 where
  borrows :
      {s t : System} (creation : Option ℕ) (c : ℕ) (q : Pool)
      → ((a : ℕ) → creation ≡ some a → copies a s.pool.free_list + copies a s.lent ≡ 0)
      → get_cache_conn creation s.pool ≡ (conn c, q)
      → t ≡ record { pool = q; lent = c ∷ s.lent }
      → Step s t
  fails :
      {s t : System} (creation : Option ℕ) (q : Pool)
      → get_cache_conn creation s.pool ≡ (failed, q)
      → t ≡ record s { pool = q }
      → Step s t
  gives_back :
      {s t : System} (c : ℕ)
      → 0 < copies c s.lent
      → t ≡ record { pool = rel_cache_conn c s.pool; lent = drop_one c s.lent }
      → Step s t

pub data Reach (s : System) : System → Type 0 where
  here : Reach s s
  next : {t u : System} → Reach s t → Step t u → Reach s u

-- No connection is in two places, all that were made are in the pool or lent out, and there are no
-- more than the limit allows.
pub record IsSound (s : System) : Type 0 where
  pub unique : (a : ℕ) → copies a s.pool.free_list + copies a s.lent ≤ 1
  pub complete : length s.pool.free_list + length s.lent ≡ s.pool.cur_conn_cnt
  pub limited :
      (s.pool.cur_conn_cnt ≤ min_conn_cnt) ⊎ (pos s.pool.cur_conn_cnt ≤ℤ s.pool.max_conn_cnt)

abbrev Borrowed : Pool → Option ℕ → ℕ → Pool → Type 0
Borrowed p creation c q =
    ((p.free_list ≡ c ∷ q.free_list)
      × (q.cur_conn_cnt ≡ p.cur_conn_cnt)
      × (q.max_conn_cnt ≡ p.max_conn_cnt))
    ⊎ ((creation ≡ some c)
        × (p.free_list ≡ [])
        × (q.free_list ≡ [])
        × (q.cur_conn_cnt ≡ p.cur_conn_cnt + 1)
        × (q.max_conn_cnt ≡ p.max_conn_cnt)
        × (pos (p.cur_conn_cnt + 1) ≤ℤ p.max_conn_cnt))

get_at :
    (p : Pool) (l : List ℕ) (creation : Option ℕ) (c : ℕ) (q : Pool)
    → p.free_list ≡ l
    → get_cache_conn creation p ≡ (conn c, q)
    → Borrowed p creation c q
unfolding get_cache_conn
get_at p [] none c q e h = ground arith
get_at p [] (some d) c q e h = ground arith
get_at p (x ∷ xs) creation c q e h = ground arith

borrows-IsSound :
    (s : System) (creation : Option ℕ) (c : ℕ) (q : Pool)
    → ((a : ℕ) → creation ≡ some a → copies a s.pool.free_list + copies a s.lent ≡ 0)
    → Borrowed s.pool creation c q
    → IsSound s
    → IsSound (record { pool = q; lent = c ∷ s.lent })
borrows-IsSound s creation c q fresh (inl b) v = record {
  unique = λ a. ground (arith, v.unique a);
  complete = ground (arith, v.complete);
  limited = ground (arith, v.limited);
}
borrows-IsSound s creation c q fresh (inr b) v = record {
  unique = λ a. ground (arith, v.unique a, fresh c b.0);
  complete = ground (arith, v.complete);
  limited = ground (arith, v.limited);
}

failed_at :
    (p : Pool) (l : List ℕ) (creation : Option ℕ) (q : Pool)
    → p.free_list ≡ l
    → get_cache_conn creation p ≡ (failed, q)
    → q ≡ p
unfolding get_cache_conn
failed_at p [] none q e h = ground arith
failed_at p [] (some d) q e h = ground arith
failed_at p (x ∷ xs) creation q e h = ground arith

gives_back-IsSound :
    (s : System) (c : ℕ)
    → 0 < copies c s.lent
    → IsSound s
    → IsSound (record { pool = rel_cache_conn c s.pool; lent = drop_one c s.lent })
unfolding rel_cache_conn
gives_back-IsSound s c h v = elim (Bool-cases (is_free c s.pool.free_list)) [
  | inl yes' ↦ absurd (omega (arith, v.unique c, is_free-copies c s.pool.free_list yes'))
  | inr other ↦ rw other (record {
    unique = λ a. omega (
      arith,
      v.unique a,
      copies-append a s.pool.free_list (c ∷ []),
      (copies-drop_one a c s.lent h).0,
    );
    complete = omega (
      arith,
      v.complete,
      length-append s.pool.free_list (c ∷ []),
      (copies-drop_one c c s.lent h).1,
    );
    limited = v.limited;
  })
]

Step-IsSound : {s t : System} → Step s t → IsSound s → IsSound t
Step-IsSound {s} (borrows creation c q fresh got e) v =
    rw e (
      borrows-IsSound s creation c q fresh (get_at s.pool s.pool.free_list creation c q refl got) v)
Step-IsSound {s} (fails creation q got e) v =
    rw (e, failed_at s.pool s.pool.free_list creation q refl got) v
Step-IsSound {s} (gives_back c h e) v = rw e (gives_back-IsSound s c h v)

-- From a sound system, over any interleaving of borrowing and giving back, no connection is lent to
-- two threads or lent and free at once, none is lost, and there are never more than the limit (or
-- the initial two).
pub Reach-IsSound : {s t : System} → IsSound s → Reach s t → IsSound t
Reach-IsSound v here = v
Reach-IsSound v (next r st) = Step-IsSound st (Reach-IsSound v r)

-- A pool whose `Init` returned zero starts out sound, with nothing lent, if the two connections
-- that it made have different addresses.
pub init-IsSound :
    (max : ℤ) (creation : ℕ → Option ℕ) (p : Pool)
    → creation 0 ≢ creation 1
    → init creation (make max) ≡ (0, p)
    → IsSound (record { pool = p; lent = [] })
unfolding init
init-IsSound max creation p d h = record {
  unique = λ a. ground (arith, h);
  complete = ground (arith, h);
  limited = ground (arith, h);
}
