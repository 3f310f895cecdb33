-- ===== src/Time/Sorting.antt =====
-- The list that stands for the set of timers stays in the order of the set.
use ka_im.Prelude.{ℕ, ◌≡◌, Bool, true, List, [], ◌∷◌, arith}
use ka_im.Time.Ops.{Op, adds, adds_forever, removes, cancels, fires, step, run_ops}
use ka_im.Time.Timer.{Timestamp}
use ka_im.Time.Queue.{
  Entry, TimerQueue, entry_lt, insert_entry, add_timer, add_timer_forever, remove_first,
  remove_timer, control_first, cancel, fire, do_timer,
}

-- The invariant of the set.
abbrev Above : Entry → List Entry → Type 0
Above a [] = Unit {0}
Above a (e ∷ es) = (entry_lt a e ≡ true) × Above a es

abbrev IsSorted : List Entry → Type 0
IsSorted [] = Unit {0}
IsSorted (e ∷ es) = Above e es × IsSorted es

entry_lt_trans : (a b c : Entry) → entry_lt a b ≡ true → entry_lt b c ≡ true → entry_lt a c ≡ true
entry_lt_trans a b c h k = ground arith

Above-trans : (a b : Entry) (es : List Entry) → entry_lt a b ≡ true → Above b es → Above a es
Above-trans a b [] h k = tt
Above-trans a b (e ∷ es) h k = (entry_lt_trans a b e h k.0, Above-trans a b es h k.1)

insert_entry-Above :
    (a e : Entry) (es : List Entry) → entry_lt a e ≡ true → Above a es → Above a (insert_entry e es)
unfolding insert_entry
insert_entry-Above a e [] h k = (h, tt)
insert_entry-Above a e (x ∷ xs) h k = ground (arith, insert_entry-Above a e xs h)

insert_entry-IsSorted : (e : Entry) (es : List Entry) → IsSorted es → IsSorted (insert_entry e es)
unfolding insert_entry
insert_entry-IsSorted e [] s = (tt, tt)
insert_entry-IsSorted e (x ∷ xs) s =
    ground (arith, insert_entry-IsSorted e xs, Above-trans e x xs, insert_entry-Above x e xs)

remove_first-Above :
    (ptr : ℕ) (a : Entry) (es : List Entry) → Above a es → Above a (remove_first ptr es)
unfolding remove_first
remove_first-Above ptr a [] h = tt
remove_first-Above ptr a (x ∷ xs) h = ground (arith, remove_first-Above ptr a xs)

remove_first-IsSorted : (ptr : ℕ) (es : List Entry) → IsSorted es → IsSorted (remove_first ptr es)
unfolding remove_first
remove_first-IsSorted ptr [] s = tt
remove_first-IsSorted ptr (x ∷ xs) s =
    ground (arith, remove_first-IsSorted ptr xs s.1, remove_first-Above ptr x xs s.0)

control_first-Above :
    (ptr : ℕ) (off : Bool) (a : Entry) (es : List Entry)
    → Above a es
    → Above a (control_first ptr off es)
unfolding control_first
control_first-Above ptr off a [] h = tt
control_first-Above ptr off a (x ∷ xs) h = ground (arith, control_first-Above ptr off a xs)

control_first-IsSorted :
    (ptr : ℕ) (off : Bool) (es : List Entry) → IsSorted es → IsSorted (control_first ptr off es)
unfolding control_first
control_first-IsSorted ptr off [] s = tt
control_first-IsSorted ptr off (x ∷ xs) s =
    ground (arith, control_first-IsSorted ptr off xs s.1, control_first-Above ptr off x xs s.0)

fire-Above : (now : Timestamp) (a : Entry) (es : List Entry) → Above a es → Above a (fire now es).0
unfolding fire
fire-Above now a [] h = tt
fire-Above now a (x ∷ xs) h = ground (arith, fire-Above now a xs h.1)

fire-IsSorted : (now : Timestamp) (es : List Entry) → IsSorted es → IsSorted (fire now es).0
unfolding fire
fire-IsSorted now [] s = tt
fire-IsSorted now (x ∷ xs) s = ground (arith, fire-IsSorted now xs s.1, fire-Above now x xs s.0)

step-IsSorted : (op : Op) (q : TimerQueue) → IsSorted q.timers → IsSorted (step op q).0.timers
unfolding step add_timer add_timer_forever remove_timer cancel do_timer
step-IsSorted (adds ptr callback when interval count) q s = insert_entry-IsSorted _ q.timers s
step-IsSorted (adds_forever ptr callback when interval) q s = insert_entry-IsSorted _ q.timers s
step-IsSorted (removes ptr) q s = remove_first-IsSorted ptr q.timers s
step-IsSorted (cancels ptr off) q s = control_first-IsSorted ptr off q.timers s
step-IsSorted (fires now) q s = fire-IsSorted now q.timers s

-- If the entries stand in the strict order of the set, so that no key is there twice, they do so
-- after any sequence of operations, whenever `doTimer` is called.
run_ops-IsSorted :
    (ops : List Op) (q : TimerQueue) → IsSorted q.timers → IsSorted (run_ops ops q).0.timers
unfolding run_ops
run_ops-IsSorted [] q s = s
run_ops-IsSorted (op ∷ ops) q s = run_ops-IsSorted ops (step op q).0 (step-IsSorted op q s)
