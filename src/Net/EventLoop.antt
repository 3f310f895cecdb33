-- ===== src/Net/EventLoop.antt =====
-- The loop of Net/EventLoop.h and Net/EventLoop.cpp, and `EventLoopThread` of Net/EventLoopThread.h and
-- EventLoopThread.cpp. A round of the loop takes from outside the time, what `::epoll_wait` answers and
-- whether another thread calls `quit` meanwhile. A channel is known by its address; the handlers of
-- active channels do nothing, since `handleEventWithGuard` is empty. A pending functor is known by a
-- number. Thread identities, the clock's `m_pollReturnTime` and the callback of a new thread, which no
-- caller sets, are left out.
pub mod Forever
use ka_im.Prelude.{
  ℕ, zero, suc, ◌+◌, ◌≡◌, refl, Bool, true, false, not, List, [], ◌∷◌, ◌++◌, Option, none, some,
  if◌then◌else◌, ◌==◌,
}
use ka_im.Prelude.Int.{ℤ, pos, negsuc, to_unsigned, ◌==ℤ◌}
use ka_im.Net.Socket.{SysCall, closes}
use ka_im.Net.Channel.{KaChannel, set_read_callback}
use ka_im.Net.Channel
use ka_im.Net.Poller.{KaPoller, WaitResult, poll, enable_reading, disable_all}
use ka_im.Net.Poller
use ka_im.Time.Timer.{Timestamp}
use ka_im.Time.Queue.{TimerQueue, do_timer}
use ka_im.Time.Queue

-- `address` is the loop's own.
pub record EventLoop : Type 0 where
  pub address : ℕ
  pub looping : Bool
  pub quitting : Bool
  pub event_handing : Bool
  pub calling_pending_functors : Bool
  pub timers : TimerQueue
  pub poller : KaPoller
  pub iteration : ℕ
  pub wakeup_fd : ℤ
  pub wakeup_channel : KaChannel
  pub active_channels : List ℕ
  pub current_active_channel : Option ℕ
  pub pending_functors : List ℕ

-- `createWakeUpFd`, with what `::eventfd` answers.
abbrev pub create_wake_up_fd : ℤ → Bool × ℤ
create_wake_up_fd answer = (elim answer [ pos n ↦ true | negsuc n ↦ false ], answer)

-- The constructor of a loop at `address`, with the wake-up channel at `channel`, and the answers of
-- `::eventfd`, `::epoll_create` and `::epoll_ctl`; `created` is the counter of timers.
unfoldable pub make : ℕ → ℕ → ℕ → ℤ → ℤ → Bool → EventLoop
make address channel created eventfd epollfd answer =
    let fd = (create_wake_up_fd eventfd).1 in
    let c = set_read_callback true (Channel.make channel address (to_unsigned 32 fd)) in
    let (_, p, c') = enable_reading answer (Poller.make epollfd) c in
    record {
      address = address;
      looping = false;
      quitting = false;
      event_handing = false;
      calling_pending_functors = false;
      timers = Queue.empty created;
      poller = p;
      iteration = 0;
      wakeup_fd = fd;
      wakeup_channel = c';
      active_channels = [];
      current_active_channel = none;
      pending_functors = [];
    }

-- The destructor, and then that of the poller, with what they close.
unfoldable pub destroy : Bool → EventLoop → EventLoop × List SysCall
destroy answer e =
    let (_, p, c) = disable_all answer e.poller e.wakeup_channel in
    (record e { poller = p; wakeup_channel = c }, closes e.wakeup_fd ∷ Poller.destroy p)

-- `quit`
unfoldable pub quit : EventLoop → EventLoop
quit e = record e { quitting = false }

-- `wakeUp` and `handleRead`, with the count that `::write` or `::read` answers.
unfoldable pub wake_up : ℤ → Bool
wake_up n = n ==ℤ pos 8

unfoldable pub handle_read : ℤ → Bool
handle_read n = n ==ℤ pos 8

-- `doPendingFunctors`: the functors that it calls, in order.
unfoldable pub do_pending_functors : EventLoop → EventLoop × List ℕ
do_pending_functors e =
    (record e { calling_pending_functors = false; pending_functors = [] }, e.pending_functors)

-- What a round takes from outside. `quits` are the calls of `quit` by other threads in it.
pub record Round : Type 0 where
  pub now : Timestamp
  pub waited : WaitResult
  pub quits : Bool

-- The channels, by their addresses.
abbrev pub Store : Type 0
Store = ℕ → KaChannel

-- What a round runs: the timers whose callbacks are called, and the functors.
pub record Ran : Type 0 where
  pub fired : List ℕ
  pub called : List ℕ

-- The body of `loop`.
unfoldable pub body : Round → EventLoop → Store → EventLoop × Store × Ran
unfolding do_pending_functors
body round e store =
    let (timers, fired) = do_timer round.now e.timers in
    let (p, store', active) = poll e.poller store round.waited in
    let e' = record e {
      timers = timers;
      poller = p;
      active_channels = active;
      iteration = e.iteration + 1;
      current_active_channel = none;
      event_handing = false;
    } in
    let (e'', called) = do_pending_functors e' in
    (e'', store', record { fired = fired; called = called })

-- What is left after a round, where other threads may have called `quit`.
abbrev pub interrupted : Bool → EventLoop → EventLoop
interrupted quits e = if quits then quit e else e

-- The loop `while(!m_quit)` over the rounds that come. It returns where the test fails; where the
-- rounds are over it still runs, in the state given.
pub data Looping : Type 0 where
  returned : EventLoop → List Ran → Looping
  still_runs : EventLoop → Store → List Ran → Looping

unfoldable pub rounds : List Round → EventLoop → Store → List Ran → Looping
unfolding body quit
rounds [] e store seen =
    if e.quitting then returned (record e { looping = false }) seen else still_runs e store seen
rounds (r ∷ rs) e store seen =
    let (e', store', ran) = body r e store in
    let rest = rounds rs (interrupted r.quits e') store' (seen ++ ran ∷ []) in
    if e.quitting then returned (record e { looping = false }) seen else rest

-- `loop`
unfoldable pub loop : List Round → EventLoop → Store → Looping
unfolding rounds
loop rs e store = rounds rs (record e { looping = true; quitting = false }) store []

-- `EventLoopThread`: `m_loop` by its address. `startLoop` waits until the thread has set it.
pub record EventLoopThread : Type 0 where
  pub thread_loop : Option ℕ
  pub exiting : Bool

pub data ThreadCall : Type 0 where
  spawns : ThreadCall
  quits_loop : ℕ → ThreadCall
  joins : ThreadCall

-- The constructor.
abbrev pub make_thread : EventLoopThread
make_thread = record { thread_loop = none; exiting = false }

-- `startLoop`, where the thread has made its loop at `address`.
unfoldable pub start_loop : ℕ → EventLoopThread → Option ℕ × EventLoopThread × List ThreadCall
start_loop address t = (some address, record t { thread_loop = some address }, spawns ∷ [])

unfoldable pub stop_loop : EventLoopThread → List ThreadCall
stop_loop t = elim t.thread_loop [ none ↦ [] | some l ↦ quits_loop l ∷ [] ] ++ joins ∷ []

-- The destructor.
unfoldable pub destroy_thread : EventLoopThread → EventLoopThread × List ThreadCall
destroy_thread t = (
  record t { exiting = true },
  elim t.thread_loop [ none ↦ [] | some l ↦ quits_loop l ∷ joins ∷ [] ],
)

-- `threadFunc`: the loop runs in the thread, and once it has returned the thread ends with `m_loop`
-- unset. None while it still runs.
unfoldable pub thread_func :
    List Round → EventLoop → Store → EventLoopThread → Option EventLoopThread
unfolding loop
thread_func rs e store t = elim (loop rs e store) [
  | returned e' seen ↦ some (record t { thread_loop = none })
  | still_runs e' store' seen ↦ none
]
