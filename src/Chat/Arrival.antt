-- ===== src/Chat/Arrival.antt =====
-- `TcpConnection::handleRead` of Net/TcpConnection.cpp with `ChatSession::OnRead` of
-- ChatServer/ChatSession.cpp as the message callback, and packets that come in pieces.
use ka_im.Prelude.{
  ℕ, zero, suc, ◌+◌, ◌≤◌, ◌<◌, ◌≡◌, refl, sym, ap, ◌∙◌, Bool, List, [], ◌∷◌, ◌++◌, true, false,
  append_assoc, Option, none, some, Bytes, length, length-append, max_size, arith, if◌then◌else◌,
}
use ka_im.Util.Zlib.{Zlib}
use ka_im.Net.Buffer.{Buffer, ReadvResult, got, read_fd, read_bytes}
use ka_im.Net.Buffer.Inv.{IsValid, IsFront}
use ka_im.Net.Buffer.Contents.{contents}
use ka_im.Net.Buffer.Growth.{read_bytes-length}
use ka_im.Net.Buffer.Reads.{contents-read_bytes}
use ka_im.Net.Buffer.Ops.{read_bytes-IsFront}
use ka_im.Net.Connection.{Effect, message_callback, handle_read}
use ka_im.Chat.Session.{State, on_read}
use ka_im.Chat.Reading.{incomplete, front, once, serve, on_read_lem}
use ka_im.Chat.Fronts.{front_of, front_lem, front_of-incomplete}

abbrev is_called : List Effect → Bool
is_called es = elim es [ message_callback ∷ more ↦ true | _ ↦ false ]

-- What comes at once, and the clock that `OnRead` looks at then.
abbrev pub Piece : Type 0
Piece = Bytes × (ℕ → ℕ)

abbrev pub joined : List Piece → Bytes
joined [] = []
joined ((bytes, clock) ∷ pieces) = bytes ++ joined pieces

abbrev pub NoneEmpty : List Piece → Type 0
NoneEmpty [] = Unit {0}
NoneEmpty ((bytes, clock) ∷ pieces) = (0 < length bytes) × NoneEmpty pieces

-- The bytes are in the input buffer, and the callback is called.
abbrev pub delivered : Bytes → State → State
delivered bytes s = record s {
  conn = record s.conn { input_buffer = read_bytes s.conn.input_buffer bytes };
  effects = s.effects ++ message_callback ∷ [];
}

abbrev pub delivered_all : List Piece → State → State
delivered_all [] s = s
delivered_all ((bytes, clock) ∷ pieces) s = delivered_all pieces (delivered bytes s)

-- A buffer that `readFd` may add `n` bytes to.
abbrev pub TakesUp : Buffer → ℕ → Type 0
TakesUp b n = IsValid b × IsFront b × (length b.buffer + n ≤ max_size)

TakesUp-first :
    (b : Buffer) (bytes : Bytes) (n : ℕ)
    → TakesUp b (length bytes + n)
    → TakesUp (read_bytes b bytes) n × (contents (read_bytes b bytes) ≡ contents b ++ bytes)
TakesUp-first b bytes n h =
    let fits : length b.buffer + length bytes ≤ max_size = omega (arith, h.2) in
    let (valid, all) = contents-read_bytes {b = b} bytes h.0 fits h.1 in
    let grown = read_bytes-length {b = b} bytes h.0 fits in
    ((valid, read_bytes-IsFront b bytes h.1, omega (arith, grown, h.2)), all)

some_same : (o : Option State) → elim o [ none ↦ none | some s ↦ some s ] ≡ o
some_same none = refl
some_same (some s) = refl

read_once :
    (z : Zlib) (process : Bytes → Bool) (answer : Bool) (fuel : ℕ) (clock : ℕ → ℕ) (s : State)
    → 0 < fuel
    → on_read z process answer fuel 0 clock s
      ≡ once (serve z process answer (clock 0) (front s.conn.input_buffer) s)
read_once z process answer zero clock s f = absurd (omega arith)
read_once z process answer (suc fuel) clock s f = on_read_lem z process answer fuel 0 clock s

module _ (z : Zlib) (process : Bytes → Bool) (answer : Bool) (fuel : ℕ) where
  -- `handleRead`; `OnRead` has the fuel.
  unfoldable pub arrive : (ℕ → ℕ) → ReadvResult → State → Option State
  unfolding handle_read on_read
  arrive clock result s =
      let (p, c, es) = handle_read answer result s.poller s.conn in
      let s' = record s { poller = p; conn = c; effects = s.effects ++ es } in
      if is_called es then on_read z process answer fuel 0 clock s' else some s'

  -- The pieces come one behind the other; none if the fuel of a call runs out.
  unfoldable pub arrive_all : List Piece → State → Option State
  unfolding arrive
  arrive_all [] s = some s
  arrive_all ((bytes, clock) ∷ pieces) s = elim (arrive clock (got bytes) s) [
    | none ↦ none
    | some s' ↦ arrive_all pieces s'
  ]

  arrive_lem :
      (clock : ℕ → ℕ) (bytes : Bytes) (s : State)
      → 0 < length bytes
      → arrive clock (got bytes) s ≡ on_read z process answer fuel 0 clock (delivered bytes s)
  unfolding arrive handle_read read_fd
  arrive_lem clock [] s h = absurd (omega arith)
  arrive_lem clock (x ∷ xs) s h = refl

  -- What comes up to a packet that is not whole yet only goes into the buffer.
  arrive_incomplete :
      (clock : ℕ → ℕ) (bytes : Bytes) (s : State)
      → 0 < fuel
      → 0 < length bytes
      → IsValid (read_bytes s.conn.input_buffer bytes)
      → front_of (contents (read_bytes s.conn.input_buffer bytes)) ≡ incomplete
      → arrive clock (got bytes) s ≡ some (delivered bytes s)
  arrive_incomplete clock bytes s f h v e =
      arrive_lem clock bytes s h
      ∙ read_once z process answer fuel clock (delivered bytes s) f
      ∙ ap (λ t. once (serve z process answer (clock 0) t (delivered bytes s)))
          (front_lem {b = read_bytes s.conn.input_buffer bytes} v ∙ e)

  last_piece :
      (clock : ℕ → ℕ) (bytes : Bytes) (s : State)
      → 0 < fuel
      → 0 < length bytes
      → IsValid (read_bytes s.conn.input_buffer bytes)
      → contents (read_bytes s.conn.input_buffer bytes) ≡ contents s.conn.input_buffer ++ bytes
      → arrive_all ((bytes, clock) ∷ []) s
        ≡ once (
            serve z process answer
              (clock 0)
              (front_of (contents s.conn.input_buffer ++ bytes))
              (delivered bytes s))
  unfolding arrive_all
  last_piece clock bytes s f h v e =
      some_same (arrive clock (got bytes) s)
      ∙ arrive_lem clock bytes s h
      ∙ read_once z process answer fuel clock (delivered bytes s) f
      ∙ ap (λ t. once (serve z process answer (clock 0) t (delivered bytes s)))
          (front_lem {b = read_bytes s.conn.input_buffer bytes} v ∙ ap front_of e)

  -- Bytes come in pieces, none empty, into a well-formed input buffer whose readable bytes begin at
  -- `Prepend` or in front of it, and which they leave within the largest size. If the bytes before the
  -- last piece make no whole packet and no head with a bad size, and there is fuel for a round,
  -- the pieces come to what one round of `OnRead` does with all the bytes, however they were cut, and
  -- the buffer holds them all then.
  pub arrive_all-joined :
      (firsts : List Piece) (last : Bytes) (clock : ℕ → ℕ) (s : State)
      → 0 < fuel
      → NoneEmpty firsts
      → 0 < length last
      → TakesUp s.conn.input_buffer (length (joined firsts) + length last)
      → front_of (contents s.conn.input_buffer ++ joined firsts) ≡ incomplete
      → let there = delivered last (delivered_all firsts s) in
        let text = contents s.conn.input_buffer ++ (joined firsts ++ last) in
        (arrive_all (firsts ++ (last, clock) ∷ []) s
          ≡ once (serve z process answer (clock 0) (front_of text) there))
        × (contents there.conn.input_buffer ≡ text)
  unfolding arrive_all
  arrive_all-joined [] last clock s f n h up e =
      let (more, all) =
        TakesUp-first s.conn.input_buffer last 0 (up.0, up.1, omega (arith, up.2)) in
      (last_piece clock last s f h more.0 all, all)
  arrive_all-joined ((bytes, t) ∷ firsts) last clock s f n h up e =
      let b = s.conn.input_buffer in
      let enough : length b.buffer + (length bytes + (length (joined firsts) + length last))
          ≤ max_size =
        omega (arith, up.2, length-append bytes (joined firsts)) in
      let (more, all) =
        TakesUp-first b bytes (length (joined firsts) + length last) (up.0, up.1, enough) in
      let part : (rest : Bytes)
          → contents (read_bytes b bytes) ++ rest ≡ contents b ++ (bytes ++ rest) =
        λ rest. ap (λ x. x ++ rest) all ∙ append_assoc (contents b) bytes rest in
      let short = ap front_of (part (joined firsts)) ∙ e in
      let (did, has) = arrive_all-joined firsts last clock (delivered bytes s) f n.1 h more short in
      let none_yet =
        arrive_incomplete t bytes s f n.0 more.0
          (front_of-incomplete (contents (read_bytes b bytes)) (joined firsts) short) in
      let text =
        part (joined firsts ++ last)
        ∙ ap (λ x. contents b ++ x) (sym (append_assoc bytes (joined firsts) last)) in
      (
        rw (arrive_all, none_yet) did
            ∙ ap
                (λ x. once (
                  serve z process answer (clock 0) (front_of x)
                    (delivered last (delivered_all firsts (delivered bytes s)))))
                text,
        has ∙ text,
      )
