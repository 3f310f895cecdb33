-- ===== src/Net/ConnectionTests.antt =====
-- Runs of Net/TcpConnection.cpp on small inputs.
use ka_im.Prelude.Int.{pos}
use ka_im.Prelude.{◌+◌, ◌≤◌, ◌≡◌, refl, true, List, [], ◌∷◌, arith}
use ka_im.Net.Buffer.{Buffer, got}
use ka_im.Net.Buffer.Inv.{IsValid}
use ka_im.Net.Channel.{KaChannel, is_writing}
use ka_im.Net.Channel
use ka_im.Net.Poller.{KaPoller}
use ka_im.Net.Poller
use ka_im.Net.Connection.{TcpConnection, connecting, connected, took}
use ka_im.Net.Callback.{no_callbacks, owners}
use ka_im.Net.Connection.States.{
  Event, establishes, reads, sends, forces_close, rank, close_count, closed, run_well,
}
use ka_im.Net.Connection.States

abbrev pair : Buffer
pair = record {
  buffer = 0 ∷ 0 ∷ 0 ∷ 0 ∷ 0 ∷ 0 ∷ 0 ∷ 0 ∷ 1 ∷ 2 ∷ [];
  read_index = 8;
  write_index = 10;
}

pair-IsValid : IsValid pair
pair-IsValid = record {
  ordered = omega arith;
  inside = omega arith;
  header = omega arith;
  bounded = omega arith;
}

-- A connecting connection whose channel has the index `KNew`.
abbrev opening : TcpConnection
opening = record {
  name = [];
  state = connecting;
  channel = record (Channel.make 50 5 7) { index = Channel.new };
  high_water_mark = 0;
  callbacks = record no_callbacks { write_complete = owners 1 };
  input_buffer = pair;
  output_buffer = pair;
}

-- A connected one that is watched for reading and writing.
abbrev opened : TcpConnection
opened = record opening { state = connected; channel = record (Channel.make 50 5 7) { events = 7 } }

abbrev events : List Event
events =
    establishes true true
    ∷ sends (took 2) (1 ∷ 2 ∷ [])
    ∷ reads true (got [])
    ∷ forces_close true
    ∷ []

run_well_example :
    (rank connecting ≤ rank (States.run (Poller.make (pos 4)) opening events).1.state)
    × (close_count (States.run (Poller.make (pos 4)) opening events).2 + 0
        ≡ closed (States.run (Poller.make (pos 4)) opening events).1.state)
run_well_example = run_well (Poller.make (pos 4)) opening events

opened_writes : is_writing opened.channel ≡ true
unfolding is_writing
opened_writes = refl
