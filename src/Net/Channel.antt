-- ===== src/Net/Channel.antt =====
-- Net/KaChannel.h and Net/KaChannel.cpp, the fields and the parts that do not call the poller. A
-- channel is known by its address; the loop that it belongs to also. The indices `KNew`, `KAdded`
-- and `KDeleted` are the constructors of `Index`. A callback is known by
-- whether it is set.
use Prim.Native.Nat.{bit_and, bit_or, bit_xor}
use ka_im.Prelude.{
  ℕ, ◌<◌, ◌≡◌, refl, Bool, true, false, not, ◌&&◌, arith, ◌==◌, zero, suc, ltb, if◌then◌else◌,
}

pub data Index : Type 0 where
  new added deleted : Index

-- EPOLLIN | EPOLLPRI and EPOLLOUT of <sys/epoll.h>.
abbrev pub none_event : ℕ
none_event = 0

abbrev pub read_event : ℕ
read_event = 3

abbrev pub write_event : ℕ
write_event = 4

-- Which of the four callbacks are set.
pub record Handlers : Type 0 where
  pub read : Bool
  pub write : Bool
  pub close : Bool
  pub error : Bool

abbrev pub no_handlers : Handlers
no_handlers = record { read = false; write = false; close = false; error = false }

pub record KaChannel : Type 0 where
  pub address : ℕ
  pub loop : ℕ
  pub fd : ℕ
  pub events : ℕ
  pub revents : ℕ
  pub index : Index
  pub tied : Bool
  pub handlers : Handlers

-- The constructor.
abbrev pub make : ℕ → ℕ → ℕ → KaChannel
make address loop fd = record {
  address = address;
  loop = loop;
  fd = fd;
  events = 0;
  revents = 0;
  index = added;
  tied = false;
  handlers = no_handlers;
}

-- The setters of the callbacks; what they are given may be an empty function.
abbrev pub set_read_callback : Bool → KaChannel → KaChannel
set_read_callback given c = record c { handlers = record c.handlers { read = given } }

abbrev pub set_write_callback : Bool → KaChannel → KaChannel
set_write_callback given c = record c { handlers = record c.handlers { write = given } }

abbrev pub set_close_callback : Bool → KaChannel → KaChannel
set_close_callback given c = record c { handlers = record c.handlers { close = given } }

abbrev pub set_error_callback : Bool → KaChannel → KaChannel
set_error_callback given c = record c { handlers = record c.handlers { error = given } }

-- `m_events |= mask` and `m_events &= ~mask`.
abbrev pub set_bits : ℕ → ℕ → ℕ
set_bits events mask = bit_or events mask

abbrev pub clear_bits : ℕ → ℕ → ℕ
clear_bits events mask = bit_xor events (bit_and events mask)

unfoldable pub is_writing : KaChannel → Bool
is_writing c = not (bit_and c.events write_event == 0)

abbrev pub is_non_event : KaChannel → Bool
is_non_event c = c.events == none_event

-- `remove`, of which the end is not written.
abbrev pub remove : KaChannel → KaChannel
remove c = if not (is_non_event c) then c else c

abbrev pub set_revent : KaChannel → ℕ → KaChannel
set_revent c revent = record c { revents = revent }

abbrev pub add_revent : KaChannel → ℕ → KaChannel
add_revent c revent = record c { revents = bit_or c.revents revent }

-- `tie`. The weak pointer that it stores keeps nothing alive and is read by `handleEvent` alone, where
-- whether its object still lives is an argument.
abbrev pub tie : KaChannel → KaChannel
tie c = record c { tied = true }

-- Whether `handleEvent` goes on to the handlers: a tied channel only while its owner lives.
abbrev pub handles_event : KaChannel → Bool → Bool
handles_event c owner_alive = if c.tied then owner_alive else true

every_mask : (ℕ → Bool) → ℕ → Bool
every_mask ok zero = true
every_mask ok (suc top) = every_mask ok top && ok top

every_mask_lem :
    (ok : ℕ → Bool) (top mask : ℕ) → mask < top → every_mask ok top ≡ true → ok mask ≡ true
unfolding every_mask
every_mask_lem ok zero mask below all = absurd (omega arith)
every_mask_lem ok (suc top) mask below all = ground (arith, every_mask_lem ok top mask)

-- The masks that the code uses.
abbrev bits_ok : ℕ → Bool
bits_ok e =
    (bit_and (set_bits e write_event) write_event == write_event)
    && (bit_and (clear_bits e write_event) write_event == 0)
    && (bit_and (set_bits e read_event) write_event == bit_and e write_event)
    && (bit_and (clear_bits e read_event) write_event == bit_and e write_event)
    && (bit_and (set_bits e write_event) read_event == bit_and e read_event)
    && (bit_and (clear_bits e write_event) read_event == bit_and e read_event)
    && ltb (set_bits e write_event) 8
    && ltb (set_bits e read_event) 8
    && ltb (clear_bits e write_event) 8
    && ltb (clear_bits e read_event) 8

bits_table : every_mask bits_ok 8 ≡ true
unfolding every_mask
bits_table = refl

-- The six facts about the masks, for the events that a channel can have.
pub bits_lem :
    (e : ℕ)
    → e < 8
    → (bit_and (set_bits e write_event) write_event ≡ write_event)
      × (bit_and (clear_bits e write_event) write_event ≡ 0)
      × (bit_and (set_bits e read_event) write_event ≡ bit_and e write_event)
      × (bit_and (clear_bits e read_event) write_event ≡ bit_and e write_event)
      × (bit_and (set_bits e write_event) read_event ≡ bit_and e read_event)
      × (bit_and (clear_bits e write_event) read_event ≡ bit_and e read_event)
bits_lem e h = ground (arith, every_mask_lem bits_ok 8 e h bits_table)
