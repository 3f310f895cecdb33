-- ===== src/Net/LoopPool.antt =====
-- `EventLoopThreadPool` of Net/EventLoopThreadPool.h and EventLoopThreadPool.cpp. A loop is known by
-- its address, a null pointer is none, and what starting the i-th thread gives is an argument.
-- A thread of the pool is known by its loop, which it has as long as it runs.
pub mod Rounds
pub mod Turning
pub mod Shares
use ka_im.Prelude.{
  ℕ, zero, suc, ◌+◌, ◌%◌, Bool, true, false, not, List, [], ◌∷◌, ◌++◌, Option, none, some, length,
  leb, if◌then◌else◌, Bytes, bytes,
}
use ka_im.Prelude.Decimal.{digits}
use ka_im.Net.EventLoop.{ThreadCall, EventLoopThread, stop_loop}

pub record LoopPool : Type 0 where
  pub base_loop : Option ℕ
  pub started : Bool
  pub number_threads : ℕ
  pub next : ℕ
  pub loops : List ℕ

-- The constructor.
abbrev pub make : LoopPool
make = record { base_loop = none; started = false; number_threads = 0; next = 0; loops = [] }

unfoldable pub init : ℕ → ℕ → LoopPool → LoopPool
init base threads p = record p { number_threads = threads; base_loop = some base }

-- The loop of `start`, with `n` rounds left from `i` on.
abbrev pub start_threads : ℕ → ℕ → (ℕ → ℕ) → List ℕ
start_threads zero i started_loop = []
start_threads (suc n) i started_loop = started_loop i ∷ start_threads n (i + 1) started_loop

unfoldable pub start : (ℕ → ℕ) → LoopPool → LoopPool
start started_loop p = elim p.base_loop [
  | none ↦ p
  | some base ↦ if p.started then p else record p {
    started = true;
    loops = p.loops ++ start_threads p.number_threads 0 started_loop;
  }
]

-- `m_loops[n]`, none past the end.
abbrev pub loop_at : ℕ → List ℕ → Option ℕ
loop_at n [] = none
loop_at zero (l ∷ ls) = some l
loop_at (suc n) (l ∷ ls) = loop_at n ls

unfoldable pub get_next_loop : LoopPool → Option ℕ × LoopPool
get_next_loop p =
    let next = if leb (length p.loops) (p.next + 1) then 0 else p.next + 1 in
    if not p.started then (none, p) else elim p.loops [
      | [] ↦ (p.base_loop, p)
      | l ∷ ls ↦ (loop_at p.next p.loops, record p { next = next })
    ]

-- `GetLoopForHash`
unfoldable pub get_loop_for_hash : ℕ → LoopPool → Option ℕ
get_loop_for_hash hash_code p = elim p.loops [
  | [] ↦ p.base_loop
  | l ∷ ls ↦ loop_at (hash_code % length p.loops) p.loops
]

-- `stop`, the calls on the thread of each loop in order.
unfoldable pub stop_threads : List ℕ → List ThreadCall
unfolding stop_loop
stop_threads [] = []
stop_threads (l ∷ ls) =
    stop_loop (record { thread_loop = some l; exiting = false }) ++ stop_threads ls

unfoldable pub stop : LoopPool → List ThreadCall
unfolding stop_threads
stop p = stop_threads p.loops

-- `GetAllThreadLoop`. Where there are loops, the function ends without a value: none.
unfoldable pub get_all_thread_loop : LoopPool → Option (List (Option ℕ))
get_all_thread_loop p = elim p.loops [ [] ↦ some (p.base_loop ∷ []) | l ∷ ls ↦ none ]

-- `info`, from the i-th loop on; `thread_id` is what is printed of the thread of a loop.
unfoldable pub info_lines : (ℕ → Bytes) → ℕ → List ℕ → Bytes
info_lines thread_id i [] = []
info_lines thread_id i (l ∷ ls) =
    digits i ++ (bytes ": threadId = " ++ (thread_id l ++ 10 ∷ info_lines thread_id (i + 1) ls))

unfoldable pub info : (ℕ → Bytes) → LoopPool → Bytes
unfolding info_lines
info thread_id p = bytes "print thread id info " ++ 10 ∷ info_lines thread_id 0 p.loops
