-- ===== src/Net/Connection/States.antt =====
-- The states of a connection over any sequence of calls.
use ka_im.Prelude.{ℕ, ◌+◌, ◌≤◌, ◌≡◌, Bool, List, [], ◌∷◌, ◌++◌, arith, if◌then◌else◌}
use ka_im.Net.Buffer.{Buffer, ReadvResult, failed, got, retrieve}
use ka_im.Net.Poller.{KaPoller}
use ka_im.Net.Connection.{
  State, disconnected, connecting, connected, disconnecting, Effect, close_callback, TcpConnection,
  Handled, is_disconnected, WriteResult, took, would_block, write_failed, handle_close,
  handle_error, handle_read, shutdown, force_close, send, send_string, send_buffer, handle_write,
  connect_established, drained,
}

-- The calls that an owner, the channel or the loop makes, with what the kernel answers to each.
pub data Event : Type 0 where
  establishes : Bool → Bool → Event
  reads : Bool → ReadvResult → Event
  writes : Bool → WriteResult → Event
  errs closes : Bool → Event
  sends : WriteResult → List ℕ → Event
  sends_string : List ℕ → Event
  sends_buffer : Buffer → Event
  shuts_down : Event
  forces_close : Bool → Event

unfoldable pub step : KaPoller → TcpConnection → Event → Handled
step p c (establishes answer closing) = connect_established answer closing p c
step p c (reads answer result) = handle_read answer result p c
step p c (writes answer result) = handle_write answer result p c
step p c (errs answer) = handle_error answer p c
step p c (closes answer) = handle_close answer p c
step p c (sends answer bytes) = send answer bytes p c
step p c (sends_string bytes) = send_string bytes p c
step p c (sends_buffer buffer) = send_buffer buffer p c
step p c shuts_down = shutdown p c
step p c (forces_close answer) = force_close answer p c

unfoldable pub run : KaPoller → TcpConnection → List Event → Handled
run p c [] = (p, c, [])
run p c (e ∷ es) =
    let (p', c', did) = step p c e in let (p'', c'', more) = run p' c' es in (p'', c'', did ++ more)

abbrev pub rank : State → ℕ
rank s = elim s [ connecting ↦ 0 | connected ↦ 1 | disconnecting ↦ 2 | disconnected ↦ 3 ]

-- How often the close callback is called.
abbrev pub close_count : List Effect → ℕ
close_count [] = 0
close_count (e ∷ es) = elim e [ close_callback ↦ 1 | _ ↦ 0 ] + close_count es

close_count-append :
    (es fs : List Effect) → close_count (es ++ fs) ≡ close_count es + close_count fs
close_count-append [] fs = omega arith
close_count-append (e ∷ es) fs = omega (arith, close_count-append es fs)

abbrev pub closed : State → ℕ
closed s = if is_disconnected s then 1 else 0

abbrev StepsWell : TcpConnection → Handled → Type 0
StepsWell c h =
    (rank c.state ≤ rank h.1.state) × (close_count h.2 + closed c.state ≡ closed h.1.state)

handle_close_steps :
    (answer : Bool) (p : KaPoller) (c : TcpConnection) → StepsWell c (handle_close answer p c)
unfolding handle_close
handle_close_steps answer p c = ground arith

drained_steps :
    (answer : Bool) (p : KaPoller) (c : TcpConnection) → StepsWell c (drained answer p c)
unfolding drained shutdown
drained_steps answer p c = ground arith

handle_write_steps :
    (answer : Bool) (result : WriteResult) (p : KaPoller) (c : TcpConnection)
    → StepsWell c (handle_write answer result p c)
unfolding handle_write
handle_write_steps answer (took n) p c = ground (
  arith,
  drained_steps answer p (record c { output_buffer = (retrieve c.output_buffer n).1 }),
  handle_close_steps answer p c,
)
handle_write_steps answer would_block p c = ground (arith, handle_close_steps answer p c)
handle_write_steps answer write_failed p c = ground (arith, handle_close_steps answer p c)

step_well : (p : KaPoller) (c : TcpConnection) (e : Event) → StepsWell c (step p c e)
unfolding step connect_established handle_error handle_read shutdown force_close send send_string
    send_buffer handle_close
step_well p c (establishes answer closing) = ground arith
step_well p c (reads answer (failed e)) = ground arith
step_well p c (reads answer (got [])) = ground arith
step_well p c (reads answer (got (x ∷ xs))) = ground arith
step_well p c (writes answer result) = handle_write_steps answer result p c
step_well p c (errs answer) = ground arith
step_well p c (closes answer) = ground arith
step_well p c (sends answer bytes) = ground arith
step_well p c (sends_string bytes) = ground arith
step_well p c (sends_buffer buffer) = ground arith
step_well p c shuts_down = ground arith
step_well p c (forces_close answer) = ground arith

-- Whatever calls are made and whatever the kernel answers, the state of a connection never goes
-- back in the order connecting, connected, disconnecting, disconnected, and its close callback is
-- called exactly once if it becomes disconnected, and otherwise not at all.
pub run_well :
    (p : KaPoller) (c : TcpConnection) (es : List Event)
    → (rank c.state ≤ rank (run p c es).1.state)
      × (close_count (run p c es).2 + closed c.state ≡ closed (run p c es).1.state)
unfolding run
run_well p c [] = omega arith
run_well p c (e ∷ es) =
    let h = step p c e in
    omega (arith, step_well p c e, run_well h.0 h.1 es, close_count-append h.2 (run h.0 h.1 es).2)
