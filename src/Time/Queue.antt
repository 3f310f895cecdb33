-- ===== src/Time/Queue.antt =====
-- `TimerQueue` of time/TimerQueue.h and time/TimerQueue.cpp. The set of pairs is a list in the
-- set's order. An entry keeps the time under which it was inserted, beside the address of the timer
-- and the timer itself, whose own expiration moves. Where a timer's address comes from `new`, it is
-- an argument. The callbacks of the timers do not touch the queue.
use ka_im.Prelude.{ℕ, suc, Bool, not, ◌&&◌, ◌||◌, List, [], ◌∷◌, if◌then◌else◌, ltb, ◌==◌}
use ka_im.Prelude.Int.{ℤ, pos, ◌==ℤ◌}
use ka_im.Time.Timer.{Timer, Timestamp, run, control, make, make_forever, time_lt, time_le}

pub record Entry : Type 0 where
  pub when : Timestamp
  pub ptr : ℕ
  pub timer : Timer

-- `created` is the static counter `Timer::m_numberCreate`.
pub record TimerQueue : Type 0 where
  pub created : ℕ
  pub timers : List Entry

abbrev pub empty : ℕ → TimerQueue
empty created = record { created = created; timers = [] }

-- The order of `std::pair<Timestamp,TimerSmartPtr>`.
abbrev pub entry_lt : Entry → Entry → Bool
entry_lt a b = time_lt a.when b.when || (not (time_lt b.when a.when) && ltb a.ptr b.ptr)

-- `std::set::insert`, which leaves an equal entry alone.
unfoldable pub insert_entry : Entry → List Entry → List Entry
insert_entry e [] = e ∷ []
insert_entry e (x ∷ xs) =
    if entry_lt e x then e ∷ x ∷ xs else if entry_lt x e then x ∷ insert_entry e xs else x ∷ xs

-- `insert`
abbrev pub insert : ℕ → Timer → List Entry → List Entry
insert ptr timer timers =
    insert_entry (record { when = timer.expiration; ptr = ptr; timer = timer }) timers

-- `addTimer` with a count, and the overload that repeats for ever.
unfoldable pub add_timer : ℕ → ℕ → Timestamp → ℤ → ℤ → TimerQueue → TimerQueue
unfolding insert_entry
add_timer ptr callback when interval repeat_count q = record {
  created = suc q.created;
  timers = insert ptr (make callback when interval repeat_count q.created) q.timers;
}

unfoldable pub add_timer_forever : ℕ → ℕ → Timestamp → ℤ → TimerQueue → TimerQueue
unfolding insert_entry
add_timer_forever ptr callback when interval q = record {
  created = suc q.created;
  timers = insert ptr (make_forever callback when interval q.created) q.timers;
}

unfoldable pub remove_first : ℕ → List Entry → List Entry
remove_first ptr [] = []
remove_first ptr (e ∷ es) = if e.ptr == ptr then es else e ∷ remove_first ptr es

unfoldable pub remove_timer : ℕ → TimerQueue → TimerQueue
unfolding remove_first
remove_timer ptr q = record q { timers = remove_first ptr q.timers }

unfoldable pub control_first : ℕ → Bool → List Entry → List Entry
control_first ptr off [] = []
control_first ptr off (e ∷ es) =
    if e.ptr == ptr
    then record e { timer = control e.timer off } ∷ es
    else e ∷ control_first ptr off es

unfoldable pub cancel : ℕ → Bool → TimerQueue → TimerQueue
unfolding control_first
cancel ptr off q = record q { timers = control_first ptr off q.timers }

-- The loop of `doTimer`: the entries that stay, and the addresses of the timers whose callbacks
-- were called, in order.
unfoldable pub fire : Timestamp → List Entry → List Entry × List ℕ
unfolding run
fire now [] = ([], [])
fire now (e ∷ es) =
    let ran = run e.timer in
    let (rest, fired) = fire now es in
    let kept = if ran.0.repeat_count ==ℤ pos 0 then rest else record e { timer = ran.0 } ∷ rest in
    let called = if ran.1 then e.ptr ∷ fired else fired in
    if time_le e.timer.expiration now then (kept, called) else (e ∷ es, [])

-- `doTimer`, with the time that `Timestamp::now` gives.
unfoldable pub do_timer : Timestamp → TimerQueue → TimerQueue × List ℕ
unfolding fire
do_timer now q = let (timers, fired) = fire now q.timers in (record q { timers = timers }, fired)
