-- ===== src/Chat/Tests.antt =====
-- Runs of ChatServer/ChatSession.cpp on small inputs.
use ka_im.Prelude.Int.{pos}
use ka_im.Prelude.{
  ℕ, ◌≡◌, refl, true, [], ◌∷◌, ◌++◌, none, Bytes, List, take, drop, length-replicate, arith,
}
use ka_im.Util.Zlib.{Zlib}
use ka_im.Net.Buffer.{Buffer, init_size}
use ka_im.Net.Buffer.Inv.{new-IsValid}
use ka_im.Net.Buffer.Contents.{contents}
use ka_im.Net.Poller
use ka_im.Net.Connection.{TcpConnection}
use ka_im.Net.Connection
use ka_im.Chat.Session.{State, make, on_read, handle_packet, read_head}
use ka_im.Chat.Fronts.{front_of}
use ka_im.Chat.Arrival.{Piece, delivered, delivered_all, arrive_all, arrive_all-joined}
use ka_im.Chat.Reading.{front, once, serve, on_read_lem}

abbrev no_codec : Zlib
no_codec = record { compress_bound = λ _. 0; compress = λ _ _. none; uncompress = λ _ _. none }

-- A plain packet with a body of one byte.
abbrev packet : Bytes
packet = 0 ∷ 0 ∷ 0 ∷ 0 ∷ 1 ∷ 0 ∷ 0 ∷ 0 ∷ 0 ∷ 0 ∷ 0 ∷ 0 ∷ 1 ∷ 0 ∷ 0 ∷ 0 ∷ 0 ∷ 0 ∷ 0 ∷ 0 ∷ 77 ∷ []

abbrev full : Buffer
full = record { buffer = 0 ∷ 0 ∷ 0 ∷ 0 ∷ 0 ∷ 0 ∷ 0 ∷ 0 ∷ packet; read_index = 8; write_index = 29 }

abbrev state : State
state = record {
  session = make 1 0;
  poller = Poller.make (pos 4);
  conn = record (Connection.make 50 5 [] 7) { state = Connection.connected; input_buffer = full };
  effects = [];
  processed = [];
}

on_read_lem_example :
    on_read no_codec (λ _. true) true 100 0 (λ n. n) state
    ≡ once (serve no_codec (λ _. true) true 0 (front full) state)
on_read_lem_example = on_read_lem no_codec (λ _. true) true 99 0 (λ n. n) state

-- A whole packet that is accepted: the loop does not end.
on_read_runs_on : once (serve no_codec (λ _. true) true 0 (front full) state) ≡ none
unfolding front handle_packet read_head
on_read_runs_on = refl

-- The same packet in three pieces, on a connection that has no bytes yet.
abbrev opened : State
opened = record state { conn = record (Connection.make 50 5 [] 7) { state = Connection.connected } }

abbrev firsts : List Piece
firsts = (take 4 packet, λ n. n) ∷ (take 9 (drop 4 packet), λ n. n) ∷ []

abbrev ended : State
ended = delivered (drop 13 packet) (delivered_all firsts opened)

arrive_all-joined_example :
    (arrive_all no_codec (λ _. true) true 1 (firsts ++ (drop 13 packet, λ n. n) ∷ []) opened
      ≡ once (serve no_codec (λ _. true) true 0 (front_of packet) ended))
    × (contents ended.conn.input_buffer ≡ packet)
unfolding front_of read_head Connection.make
arrive_all-joined_example =
    arrive_all-joined no_codec (λ _. true) true 1 firsts (drop 13 packet) (λ n. n) opened
      (omega arith) (omega arith, (omega arith, tt)) (omega arith)
      (
        new-IsValid init_size (omega arith),
        omega arith,
        omega (arith, length-replicate {A = ℕ} 1032 0),
      )
      refl
