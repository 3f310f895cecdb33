-- ===== src/Database/Pool.antt =====
-- `KaCachePool` of DataBase/KaRedis/KaCachePool.h and KaCachePool.cpp. A connection is known by its
-- address. Where the code makes one, the answer is an argument: the address, or none if its `Init`
-- fails. A call runs under the pool's mutex; one that would block returns `waits` with the pool as
-- it is, and runs again when it is woken.
pub mod Clients
pub mod Waiting
pub mod Order
pub mod Manager
use ka_im.Prelude.{
  ℕ, zero, suc, ◌+◌, ◌≡◌, Bool, true, false, not, List, [], ◌∷◌, ◌++◌, Option, none, some, ◌==◌,
  if◌then◌else◌,
}
use ka_im.Prelude.Int.{ℤ, pos, leb_ℤ}

-- MIN_CACHE_CONN_CNT
abbrev pub min_conn_cnt : ℕ
min_conn_cnt = 2

pub record Pool : Type 0 where
  pub cur_conn_cnt : ℕ
  pub max_conn_cnt : ℤ
  pub free_list : List ℕ

-- The constructor.
abbrev pub make : ℤ → Pool
make max = record { cur_conn_cnt = min_conn_cnt; max_conn_cnt = max; free_list = [] }

-- The destructor: it deletes the free connections, and forgets them.
unfoldable pub destroy : Pool → List ℕ × Pool
destroy p = (p.free_list, record p { free_list = []; cur_conn_cnt = 0 })

-- The loop of `Init` with `n` rounds left from `i` on; `creation i` is what making the i-th
-- connection gives. It stops at the first failure.
unfoldable pub init_loop : ℕ → ℕ → (ℕ → Option ℕ) → Pool → ℕ × Pool
init_loop zero i creation p = (0, p)
init_loop (suc n) i creation p = elim (creation i) [
  | none ↦ (1, p)
  | some c ↦ init_loop n (i + 1) creation (record p { free_list = p.free_list ++ c ∷ [] })
]

unfoldable pub init : (ℕ → Option ℕ) → Pool → ℕ × Pool
unfolding init_loop
init creation p = init_loop p.cur_conn_cnt 0 creation p

pub data Got : Type 0 where
  waits failed : Got
  conn : ℕ → Got

take_front : Pool → List ℕ → Got × Pool
take_front p [] = (waits, p)
take_front p (c ∷ rest) = (conn c, record p { free_list = rest })

-- The body of the loop, taken when the list is empty: wait at the limit, or make a connection,
-- which ends the loop.
grow : Option ℕ → Pool → Got × Pool
unfolding take_front
grow creation p = if leb_ℤ p.max_conn_cnt (pos p.cur_conn_cnt) then (waits, p) else elim creation [
  | none ↦ (failed, p)
  | some c ↦
      let list = p.free_list ++ c ∷ [] in
      take_front (record p { free_list = list; cur_conn_cnt = p.cur_conn_cnt + 1 }) list
]

unfoldable pub get_cache_conn : Option ℕ → Pool → Got × Pool
unfolding grow take_front
get_cache_conn creation p = elim p.free_list [
  | [] ↦ grow creation p
  | c ∷ rest ↦ take_front p (c ∷ rest)
]

abbrev pub is_free : ℕ → List ℕ → Bool
is_free c [] = false
is_free c (x ∷ xs) = if x == c then true else is_free c xs

-- It wakes all that wait, which is no part of the state.
unfoldable pub rel_cache_conn : ℕ → Pool → Pool
rel_cache_conn c p =
    if is_free c p.free_list then p else record p { free_list = p.free_list ++ c ∷ [] }
