-- ===== src/Net/EventLoop/Forever.antt =====
-- The loop does not end, and what it does round by round.
use ka_im.Prelude.{
  ℕ, suc, ◌+◌, ◌≡◌, refl, sym, ap, ◌∙◌, Bool, true, false, List, [], ◌∷◌, ◌++◌, append_assoc,
  append-nil, none, some, arith, length, if◌then◌else◌,
}
use mathlib.Core.Path.{subst}
use ka_im.Prelude.Int.{ℤ, to_unsigned}
use ka_im.Net.Channel.{set_read_callback, read_event, set_bits, added}
use ka_im.Net.Channel
use ka_im.Net.Poller.{KaPoller, poll, enable_reading}
use ka_im.Net.Poller
use ka_im.Net.Poller.Fresh.{enable_reading_fresh}
use ka_im.Time.Queue.{TimerQueue, do_timer}
use ka_im.Net.EventLoop.{
  EventLoop, Round, Store, Ran, Looping, returned, still_runs, body, interrupted, rounds, loop,
  quit, do_pending_functors, thread_func, EventLoopThread, make,
}

-- What the timers run over the rounds, each at its time.
unfoldable pub fired_over : List Round → TimerQueue → List (List ℕ)
fired_over [] q = []
fired_over (r ∷ rs) q = let (q', fired) = do_timer r.now q in fired ∷ fired_over rs q'

abbrev pub fired_of : List Ran → List (List ℕ)
fired_of [] = []
fired_of (r ∷ rs) = r.fired ∷ fired_of rs

fired_of-append : (xs ys : List Ran) → fired_of (xs ++ ys) ≡ fired_of xs ++ fired_of ys
fired_of-append [] ys = refl
fired_of-append (x ∷ xs) ys = ap (◌∷◌ x.fired) (fired_of-append xs ys)

-- The loop is still running, after so many rounds, and has fired these timers.
abbrev pub RunsOn : Looping → ℕ → List (List ℕ) → Type 0
RunsOn (returned e seen) n fired = ⊥
RunsOn (still_runs e store seen) n fired =
    (e.quitting ≡ false) × (e.looping ≡ true) × (e.iteration ≡ n) × (fired_of seen ≡ fired)

body_lem :
    (r : Round) (e : EventLoop) (store : Store)
    → ((body r e store).0.quitting ≡ e.quitting)
      × ((body r e store).0.looping ≡ e.looping)
      × ((body r e store).0.iteration ≡ e.iteration + 1)
      × ((body r e store).0.timers ≡ (do_timer r.now e.timers).0)
      × ((body r e store).2.fired ≡ (do_timer r.now e.timers).1)
unfolding body do_pending_functors
body_lem r e store = (refl, refl, refl, refl, refl)

interrupted_lem :
    (quits : Bool) (e : EventLoop)
    → e.quitting ≡ false
    → (let e' = interrupted quits e in
        (e'.quitting ≡ false)
        × (e'.looping ≡ e.looping)
        × (e'.iteration ≡ e.iteration)
        × (e'.timers ≡ e.timers))
unfolding quit
interrupted_lem true e h = (refl, refl, refl, refl)
interrupted_lem false e h = (h, refl, refl, refl)

keeps :
    (b : Bool) (x y : Looping) (n : ℕ) (fired : List (List ℕ))
    → b ≡ false
    → RunsOn y n fired
    → RunsOn (if b then x else y) n fired
keeps true x y n fired h r = absurd (ground (arith, h))
keeps false x y n fired h r = r

rounds_lem :
    (rs : List Round) (e : EventLoop) (store : Store) (seen : List Ran)
    → e.quitting ≡ false
    → e.looping ≡ true
    → RunsOn
        (rounds rs e store seen)
        (e.iteration + length rs)
        (fired_of seen ++ fired_over rs e.timers)
unfolding rounds fired_over
rounds_lem [] e store seen q l =
    keeps e.quitting (returned (record e { looping = false }) seen) (still_runs e store seen)
      (e.iteration + 0) (fired_of seen ++ []) q
      (q, l, omega arith, sym (append-nil (fired_of seen)))
rounds_lem (r ∷ rs) e store seen q l =
    let next = body r e store in
    let one = body_lem r e store in
    let kept = interrupted_lem r.quits next.0 (one.0 ∙ q) in
    let ih =
      rounds_lem rs (interrupted r.quits next.0) next.1 (seen ++ next.2 ∷ []) kept.0
        (kept.1 ∙ one.1 ∙ l) in
    let count : (interrupted r.quits next.0).iteration + length rs ≡ e.iteration + suc (length rs) =
      omega (arith, kept.2, one.2) in
    let timers : (interrupted r.quits next.0).timers ≡ (do_timer r.now e.timers).0 =
      kept.3 ∙ one.3 in
    let fired : fired_of (seen ++ next.2 ∷ []) ++ fired_over rs (interrupted r.quits next.0).timers
        ≡ fired_of seen ++ fired_over (r ∷ rs) e.timers =
      rw
        (
          timers,
          fired_of-append seen (next.2 ∷ []),
          append_assoc (fired_of seen) (next.2.fired ∷ [])
              (fired_over rs (do_timer r.now e.timers).0),
          one.4,
        )
        refl in
    let left = rounds rs (interrupted r.quits next.0) next.1 (seen ++ next.2 ∷ []) in
    keeps e.quitting (returned (record e { looping = false }) seen) left
      (e.iteration + suc (length rs)) (fired_of seen ++ fired_over (r ∷ rs) e.timers) q
      (subst (λ n. RunsOn left n (fired_of seen ++ fired_over (r ∷ rs) e.timers)) count
        (subst (λ f. RunsOn left ((interrupted r.quits next.0).iteration + length rs) f) fired ih))

-- Whatever happens outside, and whether or not other threads call `quit`, `loop` does not return:
-- after any number of rounds it runs on, has counted them, and each round has fired the timers that
-- the queue fires at that round's time.
pub loop-RunsOn :
    (rs : List Round) (e : EventLoop) (store : Store)
    → RunsOn (loop rs e store) (e.iteration + length rs) (fired_over rs e.timers)
unfolding loop
loop-RunsOn rs e store =
    rounds_lem rs (record e { looping = true; quitting = false }) store [] refl refl

thread_at :
    (l : Looping) (t : EventLoopThread) (n : ℕ) (fired : List (List ℕ))
    → RunsOn l n fired
    → elim l [
      | returned e' seen ↦ some (record t { thread_loop = none })
      | still_runs e' store' seen ↦ none
    ]
      ≡ none
thread_at (returned e seen) t n fired h = absurd h
thread_at (still_runs e store seen) t n fired h = refl

-- So the function of a loop's thread does not return, and `join` waits for ever.
pub thread_func-none :
    (rs : List Round) (e : EventLoop) (store : Store) (t : EventLoopThread)
    → thread_func rs e store t ≡ none
unfolding thread_func
thread_func-none rs e store t = thread_at (loop rs e store) t _ _ (loop-RunsOn rs e store)

-- A new loop does not watch its wake-up descriptor, whatever `::eventfd` and `::epoll_ctl` answer:
-- its poller knows no channel, and `::epoll_ctl` was not called.
pub make_unwatched :
    (address channel created : ℕ) (eventfd epollfd : ℤ) (answer : Bool)
    → (make address channel created eventfd epollfd answer).poller ≡ Poller.make epollfd
unfolding make
make_unwatched address channel created eventfd epollfd answer =
    let c = set_read_callback true (Channel.make channel address (to_unsigned 32 eventfd)) in
    ap (λ r. r.1) (enable_reading_fresh answer (Poller.make epollfd) c refl refl)
