-- ===== src/Net/Connection/Calling.antt =====
-- The callbacks of Net/TcpConnection.h, and which of them the calls of Net/TcpConnection.cpp reach. A
-- callback is a `std::function`: calling an empty one throws.
use mathlib.Core.Path.{subst}
use ka_im.Prelude.{
  ◌≡◌, refl, sym, ◌∙◌, Bool, true, false, ◌&&◌, List, [], ◌∷◌, ◌++◌, Option, none, some, arith,
}
use ka_im.Net.Buffer.{failed, got, retrieve}
use ka_im.Net.Callback.{Callback, Callbacks, is_set, all_set, no_callbacks}
use ka_im.Net.Poller.{KaPoller}
use ka_im.Net.Connection.{
  TcpConnection, connected, Handled, Effect, connection_callback, message_callback,
  write_complete_callback, close_callback, wrote, shut_down_write, WriteResult, took, would_block,
  write_failed, handle_close, handle_error, handle_read, shutdown, force_close, send, send_string,
  send_buffer, handle_write, drained, connect_established,
}
use ka_im.Net.Connection.States.{
  Event, step, run, establishes, reads, writes, errs, closes, sends, sends_string, sends_buffer,
  shuts_down, forces_close,
}

-- The function that an effect calls, if it is a call.
abbrev pub callee : Callbacks → Effect → Option Callback
callee k e = elim e [
  | connection_callback ↦ some k.connection
  | message_callback ↦ some k.message
  | write_complete_callback ↦ some k.write_complete
  | close_callback ↦ some k.close
  | wrote bs ↦ none
  | shut_down_write ↦ none
]

-- The functions that a trace calls, in order.
unfoldable pub called : Callbacks → List Effect → List Callback
called k [] = []
called k (e ∷ es) = elim (callee k e) [ none ↦ called k es | some cb ↦ cb ∷ called k es ]

called-append :
    (k : Callbacks) (es fs : List Effect)
    → all_set (called k (es ++ fs)) ≡ (all_set (called k es) && all_set (called k fs))
unfolding called
called-append k [] fs = refl
called-append k (e ∷ es) fs = ground (arith, called-append k es fs)

-- The callbacks are set that the code calls without asking.
pub record AreSet (k : Callbacks) : Type 0 where
  pub connection : is_set k.connection ≡ true
  pub message : is_set k.message ≡ true
  pub close : is_set k.close ≡ true

abbrev StepsSet : TcpConnection → Handled → Type 0
StepsSet c h =
    (h.1.callbacks ≡ c.callbacks) × (AreSet c.callbacks → all_set (called c.callbacks h.2) ≡ true)

handle_close_set :
    (answer : Bool) (p : KaPoller) (c : TcpConnection) → StepsSet c (handle_close answer p c)
unfolding handle_close called
handle_close_set answer p c = ground arith

drained_set : (answer : Bool) (p : KaPoller) (c : TcpConnection) → StepsSet c (drained answer p c)
unfolding drained shutdown called
drained_set answer p c = ground arith

handle_write_set :
    (answer : Bool) (result : WriteResult) (p : KaPoller) (c : TcpConnection)
    → StepsSet c (handle_write answer result p c)
unfolding handle_write called
handle_write_set answer (took n) p c = ground (
  arith,
  drained_set answer p (record c { output_buffer = (retrieve c.output_buffer n).1 }),
  handle_close_set answer p c,
)
handle_write_set answer would_block p c = ground (arith, handle_close_set answer p c)
handle_write_set answer write_failed p c = ground (arith, handle_close_set answer p c)

step_set : (p : KaPoller) (c : TcpConnection) (e : Event) → StepsSet c (step p c e)
unfolding step called connect_established handle_error handle_read shutdown force_close send
    send_string send_buffer handle_close
step_set p c (establishes answer closing) = ground arith
step_set p c (reads answer (failed e)) = ground arith
step_set p c (reads answer (got [])) = ground arith
step_set p c (reads answer (got (x ∷ xs))) = ground arith
step_set p c (writes answer result) = handle_write_set answer result p c
step_set p c (errs answer) = ground arith
step_set p c (closes answer) = ground arith
step_set p c (sends (took n) bytes) = ground arith
step_set p c (sends would_block bytes) = ground arith
step_set p c (sends write_failed bytes) = ground arith
step_set p c (sends_string bytes) = ground arith
step_set p c (sends_buffer buffer) = ground arith
step_set p c shuts_down = ground arith
step_set p c (forces_close answer) = ground arith

-- The callbacks stay as they are, and no empty one is called.
pub run_set :
    (p : KaPoller) (c : TcpConnection) (es : List Event)
    → AreSet c.callbacks
    → ((run p c es).1.callbacks ≡ c.callbacks)
      × (all_set (called c.callbacks (run p c es).2) ≡ true)
unfolding run called
run_set p c [] v = (refl, refl)
run_set p c (e ∷ es) v =
    let h = step p c e in
    let (kept, set) = step_set p c e in
    let (kept', set') = run_set h.0 h.1 es (subst AreSet (sym kept) v) in
    (
      kept' ∙ kept,
      rw (called-append c.callbacks h.2 (run h.0 h.1 es).2, set v)
          (subst (λ k. all_set (called k (run h.0 h.1 es).2) ≡ true) kept set'),
    )

-- Closing a connection on which nothing was set calls an empty function.
force_close_unset :
    (answer : Bool) (p : KaPoller) (c : TcpConnection)
    → c.state ≡ connected
    → c.callbacks ≡ no_callbacks
    → all_set (called c.callbacks (force_close answer p c).2) ≡ false
unfolding force_close handle_close called
force_close_unset answer p c h e = rw (h, e) refl
