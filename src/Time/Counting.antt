-- ===== src/Time/Counting.antt =====
-- How often a timer of time/TimerQueue.cpp is called over a sequence of operations.
use ka_im.Prelude.{
  ℕ, suc, ◌+◌, ◌≡◌, ◌≢◌, refl, Bool, true, not, ◌&&◌, ◌||◌, List, [], ◌∷◌, if◌then◌else◌, ◌==◌,
  arith, copies, copies-append,
}
use ka_im.Prelude.Int.{ℤ, pos, pos_part, leb_ℤ, ◌==ℤ◌, ◌-ℤ◌}
use ka_im.Time.Timer.{Timer, Timestamp, run}
use ka_im.Time.Ops.{Op, adds, adds_forever, removes, cancels, fires, step, run_ops}
use ka_im.Time.Queue.{
  Entry, TimerQueue, insert_entry, add_timer, add_timer_forever, remove_first, remove_timer,
  control_first, cancel, fire, do_timer,
}

-- An operation that is not on the timer itself.
abbrev pub Spares : ℕ → Op → Type 0
Spares ptr (adds p callback when interval count) = p ≢ ptr
Spares ptr (adds_forever p callback when interval) = p ≢ ptr
Spares ptr (removes p) = p ≢ ptr
Spares ptr (cancels p off) = p ≢ ptr
Spares ptr (fires now) = Unit {0}

abbrev pub AllSpare : ℕ → List Op → Type 0
AllSpare ptr [] = Unit {0}
AllSpare ptr (op ∷ ops) = Spares ptr op × AllSpare ptr ops

-- How often a timer with this count is still to be called: one that counts nothing is called once.
abbrev pub shots : ℤ → ℕ
shots n = if n ==ℤ pos 0 then 1 else pos_part n

abbrev pub left : ℕ → List Entry → ℕ
left ptr [] = 0
left ptr (e ∷ es) = if e.ptr == ptr then shots e.timer.repeat_count + left ptr es else left ptr es

-- The timer is not cancelled, and does not run for ever.
abbrev counts : Timer → Bool
counts t = not t.canceled && leb_ℤ (pos 0) t.repeat_count

abbrev pub Counts : ℕ → List Entry → Type 0
Counts ptr [] = Unit {0}
Counts ptr (e ∷ es) = ((not (e.ptr == ptr) || counts e.timer) ≡ true) × Counts ptr es

run-shots :
    (t : Timer)
    → counts t ≡ true
    → ((run t).1 ≡ true)
      × (counts (run t).0 ≡ true)
      × (suc (if (run t).0.repeat_count ==ℤ pos 0 then 0 else shots (run t).0.repeat_count)
          ≡ shots t.repeat_count)
unfolding run ◌-ℤ◌
run-shots t h = ground arith

-- What the queue and the calls come to.
abbrev Conserves : ℕ → List Entry → List Entry × List ℕ → Type 0
Conserves ptr es r = Counts ptr r.0 × (copies ptr r.1 + left ptr r.0 ≡ left ptr es)

fire-Conserves :
    (now : Timestamp) (ptr : ℕ) (es : List Entry) → Counts ptr es → Conserves ptr es (fire now es)
unfolding fire
fire-Conserves now ptr [] h = (tt, refl)
fire-Conserves now ptr (e ∷ es) h = ground (arith, fire-Conserves now ptr es h.1, run-shots e.timer)

-- What an operation on another timer leaves.
abbrev Leaves : ℕ → List Entry → List Entry → Type 0
Leaves ptr es es' = Counts ptr es' × (left ptr es' ≡ left ptr es)

none_called : (ptr : ℕ) (es es' : List Entry) → Leaves ptr es es' → Conserves ptr es (es', [])
none_called ptr es es' h = (h.0, omega (arith, h.1))

insert_entry-Leaves :
    (ptr : ℕ) (e : Entry) (es : List Entry)
    → e.ptr ≢ ptr
    → Counts ptr es
    → Leaves ptr es (insert_entry e es)
unfolding insert_entry
insert_entry-Leaves ptr e [] n h = ground (arith, n)
insert_entry-Leaves ptr e (x ∷ xs) n h = ground (arith, n, insert_entry-Leaves ptr e xs n h.1)

remove_first-Leaves :
    (ptr p : ℕ) (es : List Entry) → p ≢ ptr → Counts ptr es → Leaves ptr es (remove_first p es)
unfolding remove_first
remove_first-Leaves ptr p [] n h = (tt, refl)
remove_first-Leaves ptr p (x ∷ xs) n h = ground (arith, n, remove_first-Leaves ptr p xs n h.1)

control_first-Leaves :
    (ptr p : ℕ) (off : Bool) (es : List Entry)
    → p ≢ ptr
    → Counts ptr es
    → Leaves ptr es (control_first p off es)
unfolding control_first
control_first-Leaves ptr p off [] n h = (tt, refl)
control_first-Leaves ptr p off (x ∷ xs) n h =
    ground (arith, n, control_first-Leaves ptr p off xs n h.1)

step-Conserves :
    (ptr : ℕ) (op : Op) (q : TimerQueue)
    → Spares ptr op
    → Counts ptr q.timers
    → Conserves ptr q.timers ((step op q).0.timers, (step op q).1)
unfolding step add_timer add_timer_forever remove_timer cancel do_timer
step-Conserves ptr (adds p callback when interval count) q n h =
    none_called ptr q.timers _ (insert_entry-Leaves ptr _ q.timers n h)
step-Conserves ptr (adds_forever p callback when interval) q n h =
    none_called ptr q.timers _ (insert_entry-Leaves ptr _ q.timers n h)
step-Conserves ptr (removes p) q n h =
    none_called ptr q.timers _ (remove_first-Leaves ptr p q.timers n h)
step-Conserves ptr (cancels p off) q n h =
    none_called ptr q.timers _ (control_first-Leaves ptr p off q.timers n h)
step-Conserves ptr (fires now) q n h = fire-Conserves now ptr q.timers h

-- Over any operations on other timers, which come and go, and any calls of `doTimer` at any times:
-- where a timer is not cancelled and does not run for ever, the calls of its callback and what its
-- count has left are together what the count was, or one for a count of zero. So it is never called
-- more often, and once it is gone it was called that often.
pub run_ops-left :
    (ptr : ℕ) (ops : List Op) (q : TimerQueue)
    → AllSpare ptr ops
    → Counts ptr q.timers
    → Counts ptr (run_ops ops q).0.timers
      × (copies ptr (run_ops ops q).1 + left ptr (run_ops ops q).0.timers ≡ left ptr q.timers)
unfolding run_ops
run_ops-left ptr [] q n h = (h, omega arith)
run_ops-left ptr (op ∷ ops) q n h =
    let (counts, same) = step-Conserves ptr op q n.0 h in
    let (counts', same') = run_ops-left ptr ops (step op q).0 n.1 counts in
    (
      counts',
      omega (arith, same, same', copies-append ptr (step op q).1 (run_ops ops (step op q).0).1),
    )
