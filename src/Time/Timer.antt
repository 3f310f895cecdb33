-- ===== src/Time/Timer.antt =====
-- time/TimeStamp.h, and the class `Timer` of time/KaTime.h and time/KaTime.cpp. A callback is known
-- by a number; that it is called is part of what `run` returns.
use ka_im.Prelude.{ℕ, zero, suc, ◌+◌, ◌≡◌, Bool, true, false, not, ◌||◌, arith, if◌then◌else◌}
use ka_im.Prelude.Int.{ℤ, pos, negsuc, ◌+ℤ◌, ◌-ℤ◌, ltb_ℤ, leb_ℤ, ◌==ℤ◌}

pub record Timestamp : Type 0 where
  pub micro_seconds : ℤ

abbrev pub invalid : Timestamp
invalid = record { micro_seconds = pos 0 }

abbrev pub is_valid : Timestamp → Bool
is_valid t = ltb_ℤ (pos 0) t.micro_seconds

-- `timeAdd` and `operator+=`, with a timestamp or a count; `operator-=`; and `timeDiff` before it
-- divides into a double.
abbrev pub time_add : Timestamp → ℤ → Timestamp
time_add t value = record { micro_seconds = t.micro_seconds +ℤ value }

abbrev pub time_sub : Timestamp → ℤ → Timestamp
time_sub t value = record { micro_seconds = t.micro_seconds -ℤ value }

abbrev pub time_diff : Timestamp → Timestamp → ℤ
time_diff big small = big.micro_seconds -ℤ small.micro_seconds

abbrev pub time_lt : Timestamp → Timestamp → Bool
time_lt a b = ltb_ℤ a.micro_seconds b.micro_seconds

abbrev pub time_le : Timestamp → Timestamp → Bool
time_le a b = leb_ℤ a.micro_seconds b.micro_seconds

abbrev pub time_eq : Timestamp → Timestamp → Bool
time_eq a b = a.micro_seconds ==ℤ b.micro_seconds

abbrev pub time_gt : Timestamp → Timestamp → Bool
time_gt a b = ltb_ℤ b.micro_seconds a.micro_seconds

abbrev pub time_ge : Timestamp → Timestamp → Bool
time_ge a b = leb_ℤ b.micro_seconds a.micro_seconds

abbrev pub time_ne : Timestamp → Timestamp → Bool
time_ne a b = not (a.micro_seconds ==ℤ b.micro_seconds)

-- The comparisons agree with each other.
time_ge-lt :
    (a b : Timestamp)
    → (time_ge a b ≡ not (time_lt a b))
      × (time_le a b ≡ not (time_gt a b))
      × (time_ne a b ≡ (time_lt a b || time_gt a b))
time_ge-lt a b = (ground arith, ground arith, ground arith)

pub record Timer : Type 0 where
  pub callback : ℕ
  pub expiration : Timestamp
  pub interval : ℤ
  pub repeat_count : ℤ
  pub sequence : ℕ
  pub canceled : Bool

-- The constructors; `created` is `m_numberCreate` before the call.
abbrev pub make : ℕ → Timestamp → ℤ → ℤ → ℕ → Timer
make callback when interval repeat_count created = record {
  callback = callback;
  expiration = when;
  interval = interval;
  repeat_count = repeat_count;
  sequence = suc created;
  canceled = false;
}

abbrev pub make_forever : ℕ → Timestamp → ℤ → ℕ → Timer
make_forever callback when interval created = make callback when interval (negsuc 0) created

abbrev pub control : Timer → Bool → Timer
control t off = record t { canceled = off }

-- `Run`: the timer afterwards, and whether its callback was called.
unfoldable pub run : Timer → Timer × Bool
run t =
    if t.canceled
    then (t, false)
    else if not (t.repeat_count ==ℤ pos 0)
    then (let t' = record t { repeat_count = t.repeat_count -ℤ pos 1 } in
        if t'.repeat_count ==ℤ pos 0
        then (t', true)
        else (record t' { expiration = time_add t'.expiration t'.interval }, true))
    else (record t { expiration = time_add t.expiration t.interval }, true)

-- `n` runs in a row.
abbrev pub run_times : ℕ → Timer → Timer
run_times zero t = t
run_times (suc n) t = run_times n (run t).0

run_counted :
    (t : Timer) (n : ℕ)
    → t.canceled ≡ false
    → t.repeat_count ≡ pos (suc n)
    → ((run t).0.repeat_count ≡ pos n) × ((run t).0.canceled ≡ false) × ((run t).1 ≡ true)
unfolding run ◌-ℤ◌
run_counted t n c r = ground arith

pub run_forever :
    (t : Timer) (n : ℕ)
    → t.canceled ≡ false
    → t.repeat_count ≡ negsuc n
    → ((run t).0.repeat_count ≡ negsuc (suc n)) × ((run t).0.canceled ≡ false) × ((run t).1 ≡ true)
unfolding run ◌-ℤ◌
run_forever t n c r = ground arith

-- A timer that is not cancelled and has a count of `n + k` has one of `k` after `n` runs.
pub run_times-repeat_count :
    (n k : ℕ) (t : Timer)
    → t.canceled ≡ false
    → t.repeat_count ≡ pos (n + k)
    → (run_times n t).repeat_count ≡ pos k
run_times-repeat_count zero k t c r = ground arith
run_times-repeat_count (suc n) k t c r =
    let s = run_counted t (n + k) c (ground arith) in run_times-repeat_count n k (run t).0 s.1 s.0

-- A timer that was made to run for ever never gets to a count of zero.
pub run_times-forever :
    (n k : ℕ) (t : Timer)
    → t.canceled ≡ false
    → t.repeat_count ≡ negsuc k
    → (run_times n t).repeat_count ≡ negsuc (n + k)
run_times-forever zero k t c r = ground arith
run_times-forever (suc n) k t c r =
    let s = run_forever t k c r in
    let ih = run_times-forever n (suc k) (run t).0 s.1 s.0 in ground (arith, ih)

-- A cancelled timer neither calls its callback nor changes.
pub run_canceled : (t : Timer) → t.canceled ≡ true → run t ≡ (t, false)
unfolding run
run_canceled t c = ground arith
