-- ===== src/Chat/Reading.antt =====
-- What a round of `OnRead` in ChatServer/ChatSession.cpp does to the buffer, and what that makes of
-- its loop.
use ka_im.Prelude.{
  ℕ, zero, suc, ◌+◌, ◌≤◌, ◌<◌, ◌≡◌, refl, Bool, true, false, ◌||◌, [], Option, none, some, Bytes,
  ltb, ◌==◌, if◌then◌else◌, arith, sym, ap, Bool-cases, inl, inr, ◌⊎◌, ◌∙◌,
}
use ka_im.Prelude.Int.{ℤ, pos_part}
use ka_im.Util.Zlib.{Zlib, uncompress_buf}
use ka_im.Net.Buffer.{Buffer, readable_bytes, retrieve, peek}
use ka_im.Net.Connection.{force_close, handle_close}
use ka_im.Chat.Session.{
  KaHead, State, Turn, returns, again, turn, on_read, close, handle_packet, compressed_packet,
  plain_packet, take_packet, read_head, head_size, compressed_flag, is_bad_size,
}

-- The state at the end of a round.
abbrev pub state_of : Turn → State
state_of (returns s) = s
state_of (again s) = s

-- What a loop comes to that repeats a round which leaves its own input as it was.
abbrev pub once : Turn → Option State
once (returns s) = some s
once (again s) = none

abbrev pub goes_on : Turn → Bool
goes_on (returns s) = false
goes_on (again s) = true

Turn-cases : (t : Turn) → ((s : State) × (t ≡ returns s)) ⊎ ((s : State) × (t ≡ again s))
Turn-cases (returns s) = inl (s, refl)
Turn-cases (again s) = inr (s, refl)

close-input_buffer :
    (answer : Bool) (s : State) → (close answer s).conn.input_buffer ≡ s.conn.input_buffer
unfolding close force_close handle_close
close-input_buffer answer s = ground arith

size_bounds : (n : ℤ) → is_bad_size n ≡ false → 0 < pos_part n
size_bounds n h = ground arith

kept : (b : Buffer) (n : ℕ) → n < readable_bytes b → (retrieve b n).1 ≡ b
unfolding retrieve
kept b n h = ground arith

take_packet_lem :
    (size : ℕ) (s : State)
    → 0 < size
    → size + head_size ≤ readable_bytes s.conn.input_buffer
    → take_packet size s ≡ (s, peek s.conn.input_buffer size)
unfolding take_packet
take_packet_lem size s h k = rw (
  kept s.conn.input_buffer head_size (ground arith),
  kept s.conn.input_buffer size (ground arith),
)

-- What stands at the front of a buffer: the beginning of a packet, a head with a size out of bounds,
-- or the bytes that a whole packet is taken from, with the size of its text if it is compressed.
pub data Front : Type 0 where
  incomplete broken : Front
  plain : Bytes → Front
  packed : Bytes → ℕ → Front

abbrev pub front_plain : ℤ → Buffer → Front
front_plain size b =
    if is_bad_size size
    then broken
    else if ltb (readable_bytes b) (pos_part size + head_size)
    then incomplete
    else plain (peek b (pos_part size))

abbrev pub front_packed : ℤ → ℤ → Buffer → Front
front_packed size origin b =
    if is_bad_size size || is_bad_size origin
    then broken
    else if ltb (readable_bytes b) (pos_part size + head_size)
    then incomplete
    else packed (peek b (pos_part size)) (pos_part origin)

unfoldable pub front : Buffer → Front
front b =
    if ltb (readable_bytes b) head_size
    then incomplete
    else (let head = read_head (peek b head_size) in
        if head.flag == compressed_flag
        then front_packed head.compress_size head.origin_size b
        else front_plain head.origin_size b)

module _ (z : Zlib) (process : Bytes → Bool) (answer : Bool) where
  -- What is done with it.
  abbrev pub serve : ℕ → Front → State → Turn
  serve now incomplete s = returns s
  serve now broken s = returns (close answer s)
  serve now (plain bytes) s = handle_packet z process answer now bytes s
  serve now (packed bytes origin) s =
      let (done, text) = uncompress_buf z bytes [] origin in
      if done then handle_packet z process answer now text s else returns (close answer s)

  served_plain :
      (now : ℕ) (n : ℤ) (s : State)
      → ltb (readable_bytes s.conn.input_buffer) (pos_part n + head_size) ≡ false
      → is_bad_size n ≡ false
      → take_packet (pos_part n) s ≡ (s, peek s.conn.input_buffer (pos_part n))
  served_plain now n s h k = take_packet_lem (pos_part n) s (size_bounds n k) (ground arith)

  plain_lem :
      (now : ℕ) (s : State) (head : KaHead)
      → plain_packet z process answer now head s
        ≡ serve now (front_plain head.origin_size s.conn.input_buffer) s
  unfolding plain_packet
  plain_lem now s head = elim (Bool-cases (is_bad_size head.origin_size)) [
    | inl bad ↦ rw bad
    | inr good ↦
        elim (Bool-cases
          (ltb (readable_bytes s.conn.input_buffer) (pos_part head.origin_size + head_size))) [
            | inl short ↦ rw (good, short)
            | inr whole ↦ rw (good, whole, served_plain now head.origin_size s whole good)
          ]
  ]

  bad_left : (a b : Bool) → (a || b) ≡ false → a ≡ false
  bad_left a b h = ground arith

  packed_lem :
      (now : ℕ) (s : State) (head : KaHead)
      → compressed_packet z process answer now head s
        ≡ serve now (front_packed head.compress_size head.origin_size s.conn.input_buffer) s
  unfolding compressed_packet
  packed_lem now s head =
      elim (Bool-cases (is_bad_size head.compress_size || is_bad_size head.origin_size)) [
        | inl bad ↦ rw bad
        | inr good ↦
            elim (Bool-cases (
              ltb (readable_bytes s.conn.input_buffer) (pos_part head.compress_size + head_size))) [
                | inl short ↦ rw (good, short)
                | inr whole ↦ rw (
                  good,
                  whole,
                  served_plain now head.compress_size s whole (
                      bad_left (is_bad_size head.compress_size) (is_bad_size head.origin_size)
                        good),
                )
              ]
      ]

  -- A round of the loop does what the front of the input buffer asks for, and takes nothing out.
  pub turn_lem :
      (now : ℕ) (s : State) → turn z process answer now s ≡ serve now (front s.conn.input_buffer) s
  unfolding turn front
  turn_lem now s = elim (Bool-cases (ltb (readable_bytes s.conn.input_buffer) head_size)) [
    | inl short ↦ rw short
    | inr whole ↦
        elim (Bool-cases
          ((read_head (peek s.conn.input_buffer head_size)).flag == compressed_flag)) [
            | inl c ↦
                rw (whole, c, packed_lem now s (read_head (peek s.conn.input_buffer head_size)))
            | inr c ↦
                rw (whole, c, plain_lem now s (read_head (peek s.conn.input_buffer head_size)))
          ]
  ]

  handle_packet-again :
      (now then_now : ℕ) (bytes : Bytes) (s s' : State)
      → handle_packet z process answer now bytes s ≡ again s'
      → (process bytes ≡ true) × (s'.conn ≡ s.conn)
  unfolding handle_packet
  handle_packet-again now then_now bytes s s' h = ground arith

  serve-again :
      (now : ℕ) (f : Front) (s s' : State)
      → serve now f s ≡ again s'
      → (s'.conn ≡ s.conn) × ((later : ℕ) (t : State) → goes_on (serve later f t) ≡ true)
  unfolding handle_packet
  serve-again now incomplete s s' h = ground arith
  serve-again now broken s s' h = ground arith
  serve-again now (plain bytes) s s' h = ground arith
  serve-again now (packed bytes origin) s s' h = ground arith

  again-turn :
      (now later : ℕ) (s s' : State)
      → turn z process answer now s ≡ again s'
      → goes_on (turn z process answer later s') ≡ true
  again-turn now later s s' h =
      let kept = serve-again now (front s.conn.input_buffer) s s' (sym (turn_lem now s) ∙ h) in
      ap goes_on (turn_lem later s')
      ∙ ap (λ c. goes_on (serve later (front c.input_buffer) s')) kept.0
      ∙ kept.1 later s'

  runs_out :
      (fuel round : ℕ) (clock : ℕ → ℕ) (s : State)
      → goes_on (turn z process answer (clock round) s) ≡ true
      → on_read z process answer fuel round clock s ≡ none
  unfolding on_read
  runs_out zero round clock s h = refl
  runs_out (suc fuel) round clock s h = elim (Turn-cases (turn z process answer (clock round) s)) [
    | inl (s', e) ↦ absurd (ground (arith, sym (ap goes_on e) ∙ h))
    | inr (s', e) ↦
        rw (on_read, e)
          (runs_out fuel (round + 1) clock s' (again-turn (clock round) (clock (round + 1)) s s' e))
  ]

  -- `OnRead` with any fuel but none comes to what its first round comes to: it returns what that
  -- round returns, and a round that takes a packet is repeated until the fuel runs out, since the
  -- packet stays in the buffer.
  pub on_read_lem :
      (fuel round : ℕ) (clock : ℕ → ℕ) (s : State)
      → on_read z process answer (suc fuel) round clock s
        ≡ once (serve (clock round) (front s.conn.input_buffer) s)
  unfolding on_read
  on_read_lem fuel round clock s =
      let served : (t : Turn)
          → turn z process answer (clock round) s ≡ t
          → once t ≡ once (serve (clock round) (front s.conn.input_buffer) s) =
        λ t e. ap once (sym e ∙ turn_lem (clock round) s) in
      elim (Turn-cases (turn z process answer (clock round) s)) [
        | inl (s', e) ↦ rw (on_read, e) (served (returns s') e)
        | inr (s', e) ↦
            rw (on_read, e)
              (runs_out fuel (round + 1) clock s'
                  (again-turn (clock round) (clock (round + 1)) s s' e)
                ∙ served (again s') e)
      ]
