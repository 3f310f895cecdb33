-- ===== src/Net/Server/Stopping.antt =====
-- Stopping a server twice.
use ka_im.Prelude.{
  ℕ, ◌≡◌, ◌≢◌, refl, inl, inr, Bool, true, false, List, [], ◌∷◌, none, some, arith, Option-cases,
}
use ka_im.Prelude.Int.{ℤ}
use ka_im.Net.EventLoop.{ThreadCall}
use ka_im.Net.Server.{TcpServer, ConnectionMap, Pollers, reset_connections, stop, start}

reset_again :
    (m m' : ConnectionMap) → m ≢ [] → reset_connections m ≡ some m' → reset_connections m' ≡ none
unfolding reset_connections
reset_again [] m' n e = absurd (n refl)
reset_again ((key, none) ∷ rest) m' n e = absurd (ground (arith, e))
reset_again ((key, some c) ∷ rest) m' n e = elim (Option-cases (reset_connections rest)) [
  | inl gone ↦ absurd (ground (arith, gone, e))
  | inr (rest', found) ↦ ground (arith, found, e)
]

stop_lem :
    (s s' : TcpServer) (calls : List ThreadCall)
    → s.started ≡ true
    → stop s ≡ some (s', calls)
    → (reset_connections s.connections ≡ some s'.connections) × (s'.started ≡ false)
unfolding stop
stop_lem s s' calls on e = ground (arith, on, e)

stop_null :
    (s : TcpServer) → s.started ≡ true → reset_connections s.connections ≡ none → stop s ≡ none
unfolding stop
stop_null s on e = ground (arith, on, e)

-- A server that was stopped while it had a connection, and was started again, cannot be stopped any
-- more: `stop` leaves a null pointer in the map for each connection, and the next `stop` uses it.
pub stop-start-stop :
    (s s' : TcpServer) (calls : List ThreadCall) (threads : ℕ) (started_loop : ℕ → ℕ) (answer : ℤ)
    (ctl : Bool) (pollers : Pollers)
    → s.started ≡ true
    → s.connections ≢ []
    → stop s ≡ some (s', calls)
    → stop (start threads started_loop answer ctl pollers s').1.0 ≡ none
unfolding start
stop-start-stop s s' calls threads started_loop answer ctl pollers on full e =
    let (left, off) = stop_lem s s' calls on e in
    let again = reset_again s.connections s'.connections full left in
    stop_null (start threads started_loop answer ctl pollers s').1.0 (ground (arith, off))
      (ground (arith, off, again))
