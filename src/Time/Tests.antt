-- ===== src/Time/Tests.antt =====
-- Runs of time/ on small inputs.
use ka_im.Prelude.{ℕ, ◌+◌, ◌≡◌, refl, List, copies, length, true, false, [], ◌∷◌, arith}
use ka_im.Prelude.Int.{pos, ◌+ℤ◌, ◌-ℤ◌}
use ka_im.Time.Timer.{
  Timestamp, Timer, run, run_times, run_times-repeat_count, run_times-forever, time_le,
}
use ka_im.Time.Timer
use ka_im.Time.Queue.{Entry, TimerQueue, add_timer, remove_timer, cancel, do_timer}
use ka_im.Time.Text.{to_string, read_stamp, after_point, read_stamp-to_string}
use ka_im.Time.Ops.{Op, adds, removes, cancels, fires, step, run_ops}
use ka_im.Time.Counting.{Counts, left, run_ops-left}
use ka_im.Time.Firing.{
  due_ptrs, due_prefix, IsOrdered, do_timer-due_ptrs, do_timer_starves, NotCalled, cancel-NotCalled,
}

abbrev at : ℕ → Timestamp
at n = record { micro_seconds = pos n }

-- A timer that runs three times, and one that runs for ever, ten apart.
abbrev thrice : Timer
thrice = Timer.make 1 (at 5) (pos 10) (pos 3) 0

abbrev always : Timer
always = Timer.make_forever 2 (at 5) (pos 10) 1

abbrev first : Entry
first = record { when = at 5; ptr = 1; timer = always }

abbrev second : Entry
second = record { when = at 6; ptr = 2; timer = record thrice { expiration = at 6 } }

abbrev queue : TimerQueue
queue = record { created = 2; timers = first ∷ second ∷ [] }

do_timer-due_ptrs_example :
    ((do_timer (at 7) queue).1 ≡ due_ptrs (at 7) (due_prefix (at 7) queue.timers))
    × (IsOrdered queue.timers → (do_timer (at 7) queue).1 ≡ 1 ∷ 2 ∷ [])
do_timer-due_ptrs_example = do_timer-due_ptrs (at 7) queue

always_moves : time_le (run always).0.expiration (at 14) ≡ false
unfolding run ◌+ℤ◌ ◌-ℤ◌
always_moves = refl

do_timer_starves_example : (do_timer (at 14) (do_timer (at 5) queue).0).1 ≡ []
do_timer_starves_example =
    do_timer_starves queue first (second ∷ []) (at 5) (at 14) refl refl refl refl always_moves

cancel-NotCalled_example :
    NotCalled 2 (do_timer (at 7) (cancel 2 true queue)).1
    × NotCalled 2 (do_timer (at 7) (remove_timer 2 queue)).1
cancel-NotCalled_example =
    cancel-NotCalled (at 7) 2 queue (((λ e. absurd (omega arith)), tt), (tt, tt))

-- 1.5 seconds.
read_stamp-to_string_example :
    (read_stamp (to_string (record { micro_seconds = pos 1500000 })) ≡ 1500000)
    × (length (after_point (to_string (record { micro_seconds = pos 1500000 }))) ≡ 6)
read_stamp-to_string_example =
    read_stamp-to_string (record { micro_seconds = pos 1500000 }) 1500000 refl (omega arith)

-- Other timers come and go, and the timer with a count of three is called three times.
abbrev ops : List Op
ops =
    fires (at 6)
    ∷ cancels 1 true
    ∷ adds 3 9 (at 20) (pos 5) (pos 1)
    ∷ fires (at 20)
    ∷ removes 1
    ∷ fires (at 30)
    ∷ fires (at 50)
    ∷ []

run_ops-left_example :
    Counts 2 (run_ops ops queue).0.timers
    × (copies 2 (run_ops ops queue).1 + left 2 (run_ops ops queue).0.timers ≡ 3)
run_ops-left_example =
    run_ops-left 2 ops queue
      (
        tt,
        (
          (λ e. absurd (omega arith)),
          ((λ e. absurd (omega arith)), (tt, ((λ e. absurd (omega arith)), (tt, (tt, tt))))),
        ),
      )
      (refl, (refl, tt))

called_thrice : copies 2 (run_ops ops queue).1 ≡ 3
unfolding run_ops step add_timer remove_timer cancel do_timer run ◌+ℤ◌ ◌-ℤ◌
called_thrice = refl
