-- ===== src/Time/Firing.antt =====
-- What `doTimer` runs.
use ka_im.Prelude.{
  ℕ, ◌≡◌, refl, Bool, true, false, not, ◌&&◌, List, [], ◌∷◌, if◌then◌else◌, ◌==◌, arith, ◌≢◌, ◌∙◌,
  Bool-cases, inl, inr,
}
use ka_im.Prelude.Int.{negsuc}
use ka_im.Time.Timer.{Timestamp, run, time_le, run_forever}
use ka_im.Time.Queue.{
  Entry, TimerQueue, remove_first, remove_timer, control_first, cancel, fire, do_timer,
}

-- The timers that should run at `now`: those that are due and not cancelled.
abbrev pub due : Timestamp → Entry → Bool
due now e = time_le e.timer.expiration now

abbrev pub due_ptrs : Timestamp → List Entry → List ℕ
due_ptrs now [] = []
due_ptrs now (e ∷ es) =
    if due now e && not e.timer.canceled then e.ptr ∷ due_ptrs now es else due_ptrs now es

abbrev pub due_prefix : Timestamp → List Entry → List Entry
due_prefix now [] = []
due_prefix now (e ∷ es) = if due now e then e ∷ due_prefix now es else []

fire-due_prefix :
    (now : Timestamp) (es : List Entry) → (fire now es).1 ≡ due_ptrs now (due_prefix now es)
unfolding fire run
fire-due_prefix now [] = refl
fire-due_prefix now (e ∷ es) = ground (arith, fire-due_prefix now es)

-- The current expirations ascend along the list.
abbrev pub NotBefore : Timestamp → List Entry → Type 0
NotBefore t [] = Unit {0}
NotBefore t (e ∷ es) = (time_le t e.timer.expiration ≡ true) × NotBefore t es

abbrev pub IsOrdered : List Entry → Type 0
IsOrdered [] = Unit {0}
IsOrdered (e ∷ es) = NotBefore e.timer.expiration es × IsOrdered es

none_due :
    (now t : Timestamp) (es : List Entry)
    → time_le t now ≡ false
    → NotBefore t es
    → due_ptrs now es ≡ []
none_due now t [] h k = refl
none_due now t (e ∷ es) h k = ground (arith, none_due now t es h k.1)

ordered_due :
    (now : Timestamp) (es : List Entry)
    → IsOrdered es
    → due_ptrs now (due_prefix now es) ≡ due_ptrs now es
ordered_due now [] o = refl
ordered_due now (e ∷ es) o =
    ground (arith, ordered_due now es o.1, none_due now e.timer.expiration es)

-- `doTimer` calls the callbacks of the timers that are due and not cancelled, in the set's order,
-- up to the first that is not due. If the expirations ascend along the set, that is every timer
-- that is due and not cancelled.
pub do_timer-due_ptrs :
    (now : Timestamp) (q : TimerQueue)
    → ((do_timer now q).1 ≡ due_ptrs now (due_prefix now q.timers))
      × (IsOrdered q.timers → (do_timer now q).1 ≡ due_ptrs now q.timers)
unfolding do_timer
do_timer-due_ptrs now q =
    (fire-due_prefix now q.timers, λ o. fire-due_prefix now q.timers ∙ ordered_due now q.timers o)

fire_blocked :
    (later : Timestamp) (e : Entry) (es : List Entry)
    → due later e ≡ false
    → (fire later (e ∷ es)).1 ≡ []
unfolding fire
fire_blocked later e es h = rw h

fire_kept :
    (now : Timestamp) (a : Entry) (es : List Entry) (n : ℕ)
    → due now a ≡ true
    → (run a.timer).0.repeat_count ≡ negsuc n
    → (fire now (a ∷ es)).0 ≡ record a { timer = (run a.timer).0 } ∷ (fire now es).0
unfolding fire
fire_kept now a es n h r = rw (h, r) (ground arith)

-- A timer that runs for ever and stands first in the set, once it has run and moved to a time after
-- `later`, keeps every other timer from running at `later`, due or not.
pub do_timer_starves :
    (q : TimerQueue) (a : Entry) (es : List Entry) (now later : Timestamp)
    → q.timers ≡ a ∷ es
    → due now a ≡ true
    → a.timer.canceled ≡ false
    → a.timer.repeat_count ≡ negsuc 0
    → time_le (run a.timer).0.expiration later ≡ false
    → (do_timer later (do_timer now q).0).1 ≡ []
unfolding do_timer
do_timer_starves q a es now later e d c r h =
    rw (e, fire_kept now a es 1 d (run_forever a.timer 0 c r).0)
      (fire_blocked later (record a { timer = (run a.timer).0 }) (fire now es).0 h)

-- Whether an address is one of the entries'.
abbrev pub Absent : ℕ → List Entry → Type 0
Absent ptr [] = Unit {0}
Absent ptr (e ∷ es) = (e.ptr ≢ ptr) × Absent ptr es

abbrev pub Distinct : List Entry → Type 0
Distinct [] = Unit {0}
Distinct (e ∷ es) = Absent e.ptr es × Distinct es

-- The address is not among the ones called.
abbrev pub NotCalled : ℕ → List ℕ → Type 0
NotCalled ptr [] = Unit {0}
NotCalled ptr (x ∷ xs) = (x ≢ ptr) × NotCalled ptr xs

fire-NotCalled :
    (now : Timestamp) (ptr : ℕ) (es : List Entry) → Absent ptr es → NotCalled ptr (fire now es).1
unfolding fire
fire-NotCalled now ptr [] h = tt
fire-NotCalled now ptr (e ∷ es) h = ground (arith, fire-NotCalled now ptr es h.1)

cancelled-NotCalled :
    (now : Timestamp) (ptr : ℕ) (es : List Entry)
    → Distinct es
    → NotCalled ptr (fire now (control_first ptr true es)).1
unfolding fire control_first run
cancelled-NotCalled now ptr [] d = tt
cancelled-NotCalled now ptr (e ∷ es) d =
    ground (arith, cancelled-NotCalled now ptr es d.1, fire-NotCalled now e.ptr es d.0)

Absent-remove : (ptr x : ℕ) (es : List Entry) → Absent x es → Absent x (remove_first ptr es)
unfolding remove_first
Absent-remove ptr x [] h = tt
Absent-remove ptr x (e ∷ es) h = ground (arith, Absent-remove ptr x es h.1)

remove_first-Absent : (ptr : ℕ) (es : List Entry) → Distinct es → Absent ptr (remove_first ptr es)
unfolding remove_first
remove_first-Absent ptr [] d = tt
remove_first-Absent ptr (e ∷ es) d = elim (Bool-cases (e.ptr == ptr)) [
  | inl same ↦ let s : e.ptr ≡ ptr = ground arith in rw same (rw s at d.0)
  | inr other ↦ rw other (ground arith, remove_first-Absent ptr es d.1)
]

-- Where no timer has two entries, a timer's callback is not called by `doTimer` after `cancel`, and
-- not after `removeTimer` either.
pub cancel-NotCalled :
    (now : Timestamp) (ptr : ℕ) (q : TimerQueue)
    → Distinct q.timers
    → NotCalled ptr (do_timer now (cancel ptr true q)).1
      × NotCalled ptr (do_timer now (remove_timer ptr q)).1
unfolding do_timer cancel remove_timer
cancel-NotCalled now ptr q d = (
  cancelled-NotCalled now ptr q.timers d,
  fire-NotCalled now ptr _ (remove_first-Absent ptr q.timers d),
)
