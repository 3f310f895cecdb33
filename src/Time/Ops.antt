-- ===== src/Time/Ops.antt =====
-- Sequences of operations on the queue of time/TimerQueue.cpp.
use ka_im.Prelude.{ℕ, Bool, List, [], ◌∷◌, ◌++◌}
use ka_im.Prelude.Int.{ℤ}
use ka_im.Time.Timer.{Timestamp}
use ka_im.Time.Queue.{TimerQueue, add_timer, add_timer_forever, remove_timer, cancel, do_timer}

-- The operations of the queue; a timer is known by its address.
pub data Op : Type 0 where
  adds : ℕ → ℕ → Timestamp → ℤ → ℤ → Op
  adds_forever : ℕ → ℕ → Timestamp → ℤ → Op
  removes : ℕ → Op
  cancels : ℕ → Bool → Op
  fires : Timestamp → Op

-- The queue afterwards, and the timers whose callbacks were called.
unfoldable pub step : Op → TimerQueue → TimerQueue × List ℕ
unfolding add_timer add_timer_forever remove_timer cancel do_timer
step (adds ptr callback when interval count) q = (add_timer ptr callback when interval count q, [])
step (adds_forever ptr callback when interval) q =
    (add_timer_forever ptr callback when interval q, [])
step (removes ptr) q = (remove_timer ptr q, [])
step (cancels ptr off) q = (cancel ptr off q, [])
step (fires now) q = do_timer now q

unfoldable pub run_ops : List Op → TimerQueue → TimerQueue × List ℕ
unfolding step
run_ops [] q = (q, [])
run_ops (op ∷ ops) q =
    let (q', called) = step op q in let (last, more) = run_ops ops q' in (last, called ++ more)
