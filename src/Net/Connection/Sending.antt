-- ===== src/Net/Connection/Sending.antt =====
-- What `send` and `handleWrite` do with the bytes.
use ka_im.Prelude.{
  ℕ, ◌≤◌, ◌<◌, ◌≡◌, refl, Bool, true, false, List, [], ◌∷◌, arith, if◌then◌else◌, length, take,
  take_all, ltb,
}
use ka_im.Net.Buffer.{Buffer, readable_bytes, retrieve, retrieve_all, peek}
use ka_im.Net.Buffer.Inv.{IsValid}
use ka_im.Net.Buffer.Contents.{contents, peek_readable, length-contents}
use ka_im.Net.Channel.{KaChannel, clear_bits, is_writing, write_event, bits_lem}
use ka_im.Net.Poller.{KaPoller, disable_writing}
use ka_im.Net.Callback.{is_set}
use ka_im.Net.Connection.{
  TcpConnection, connected, wrote, write_complete_callback, took, WriteResult, send, handle_write,
  drained,
}

-- `send` leaves the poller and the connection, its output buffer included, as they were, whatever
-- `::write` answers: what a short write leaves over is kept nowhere.
pub send_lem :
    (answer : WriteResult) (bytes : List ℕ) (p : KaPoller) (c : TcpConnection)
    → ((send answer bytes p c).0 ≡ p) × ((send answer bytes p c).1 ≡ c)
unfolding send
send_lem answer bytes p c = ground arith

-- On a connection that watches for room and has a well-formed output buffer, a write that takes
-- only a part of the readable bytes, and at least one, leaves the poller and the connection as they
-- were.
pub handle_write_partial :
    (answer : Bool) (n : ℕ) (p : KaPoller) (c : TcpConnection)
    → IsValid c.output_buffer
    → is_writing c.channel ≡ true
    → 0 < n
    → n < length (contents c.output_buffer)
    → handle_write answer (took n) p c ≡ (p, c, wrote (take n (contents c.output_buffer)) ∷ [])
unfolding handle_write retrieve
handle_write_partial answer n p c v w h k =
    ground (arith, peek_readable {b = c.output_buffer} v, length-contents {b = c.output_buffer} v)

disable_writing-events :
    (answer : Bool) (p : KaPoller) (c : KaChannel)
    → (disable_writing answer p c).2.events ≡ clear_bits c.events write_event
unfolding disable_writing
disable_writing-events answer p c = ground arith

disable_writing-is_writing :
    (answer : Bool) (p : KaPoller) (c : KaChannel)
    → c.events < 8
    → is_writing (disable_writing answer p c).2 ≡ false
unfolding is_writing
disable_writing-is_writing answer p c h =
    rw (disable_writing-events answer p c) (rw (bits_lem c.events h).1)

drained_lem :
    (answer : Bool) (p : KaPoller) (c : TcpConnection)
    → c.channel.events < 8
    → c.state ≡ connected
    → let (p', c', es) = drained answer p c in
      (c'.output_buffer ≡ c.output_buffer)
      × (is_writing c'.channel ≡ false)
      × (c'.state ≡ connected)
      × (es ≡ (if is_set c.callbacks.write_complete then write_complete_callback ∷ [] else []))
unfolding drained
drained_lem answer p c h s = ground (arith, disable_writing-is_writing answer p c.channel h)

retrieve_full :
    {b : Buffer} (n : ℕ) → IsValid b → length (contents b) ≤ n → (retrieve b n).1 ≡ retrieve_all b
unfolding retrieve
retrieve_full {b} n v h = ground (arith, length-contents {b = b} v)

handle_write-drained :
    (answer : Bool) (n : ℕ) (p : KaPoller) (c : TcpConnection)
    → is_writing c.channel ≡ true
    → ltb 0 n ≡ true
    → (retrieve c.output_buffer n).1 ≡ retrieve_all c.output_buffer
    → let d = drained answer p (record c { output_buffer = retrieve_all c.output_buffer }) in
      handle_write answer (took n) p c
      ≡ (d.0, d.1, wrote (take n (peek c.output_buffer (readable_bytes c.output_buffer))) ∷ d.2)
unfolding handle_write
handle_write-drained answer n p c w t e = rw (w, t, e)

-- A write that takes all the readable bytes of a connected connection, which watches for room and
-- has a well-formed output buffer, empties that buffer, stops watching for room, leaves the
-- connection connected, and tells the owner if it asked for that.
pub handle_write_all :
    (answer : Bool) (n : ℕ) (p : KaPoller) (c : TcpConnection)
    → IsValid c.output_buffer
    → is_writing c.channel ≡ true
    → c.channel.events < 8
    → c.state ≡ connected
    → 0 < n
    → length (contents c.output_buffer) ≤ n
    → let (p', c', es) = handle_write answer (took n) p c in
      (contents c'.output_buffer ≡ [])
      × (is_writing c'.channel ≡ false)
      × (c'.state ≡ connected)
      × (es
          ≡ wrote (contents c.output_buffer)
            ∷ (if is_set c.callbacks.write_complete then write_complete_callback ∷ [] else []))
handle_write_all answer n p c v w e s h k =
    let emptied = record c { output_buffer = retrieve_all c.output_buffer } in
    let d = drained_lem answer p emptied e s in
    rw
      (handle_write-drained answer n p c w (ground arith)
        (retrieve_full {b = c.output_buffer} n v k))
      (
        rw d.0 refl,
        d.1,
        d.2,
        ground (
          arith,
          d.3,
          peek_readable {b = c.output_buffer} v,
          take_all n (contents c.output_buffer) k,
        ),
      )
