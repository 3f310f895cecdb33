-- ===== src/Net/Buffer/Reads.antt =====
-- What a reader gets from the buffer, and `readFd`, `prepend` and `shrink`, by their effect on the
-- readable bytes.
use ka_im.Prelude.{
  ◌^◌, ℕ, ◌+◌, ◌-◌, ◌≤◌, ◌<◌, ◌≡◌, List, [], ◌++◌, length, arith, max_size, length-copy_to,
  length-resize, add_size, slice, copy_to, ◌∙◌, leb, ltb, ◌==◌, if◌then◌else◌, take, drop,
  slice-copy_to_self, slice-copy_to_above, slice_split, length-replicate, take-append-drop,
  take-take, take_all, length-take, length-drop, append_assoc,
}
use ka_im.Prelude.Int.{to_int32, to_unsigned}
use ka_im.Net.Buffer.{
  Buffer, new, init_size, prepend_size, readable_bytes, writable_bytes, retrieve_all, retrieve,
  retrieve_as_string, make_space, ensure_writable_bytes, prepend, shrink, received, read_bytes,
  to_string_piece,
}
use ka_im.Net.Buffer.Inv.{IsValid, IsFront}
use ka_im.Net.Buffer.Contents.{
  contents, length-contents, peek_readable, contents-append, append-IsValid, written_more,
}

-- On a well-formed buffer `retrieve` takes all or nothing: fewer bytes than are readable are
-- refused and stay, any other count empties the buffer, which stays well formed.
pub contents-retrieve :
    {b : Buffer} (len : ℕ)
    → IsValid b
    → ((retrieve b len).0 ≡ leb (length (contents b)) len)
      × (contents (retrieve b len).1 ≡ (if leb (length (contents b)) len then [] else contents b))
      × IsValid (retrieve b len).1
unfolding retrieve
contents-retrieve {b} len v = ground (arith, length-contents {b = b} v)

-- `retrieveAsString` returns the bytes asked for, but leaves them in the buffer unless they are all.
pub retrieve_as_string_lem :
    {b : Buffer} (len : ℕ)
    → IsValid b
    → (retrieve_as_string b len) ≡ (
        if ltb (length (contents b)) len
        then ([], b)
        else if len == length (contents b)
        then (contents b, retrieve_all b)
        else (take len (contents b), b))
unfolding retrieve_as_string retrieve
retrieve_as_string_lem {b} len v = ground (
  arith,
  length-contents {b = b} v,
  peek_readable {b = b} v,
  take-take len (b.write_index - b.read_index) (drop b.read_index b.buffer),
)

-- On a well-formed buffer `prepend` puts the bytes in front of the readable ones if they fit there,
-- and otherwise refuses; the buffer stays well formed.
pub contents-prepend :
    {b : Buffer} (bytes : List ℕ)
    → IsValid b
    → ((prepend b bytes).0 ≡ leb (length bytes) b.read_index)
      × (contents (prepend b bytes).1
          ≡ (if leb (length bytes) b.read_index then bytes ++ contents b else contents b))
      × IsValid (prepend b bytes).1
unfolding prepend
contents-prepend {b} bytes v =
    ground (arith, length-copy_to b.buffer (b.read_index - length bytes) bytes, prepended)
  where
    prepended :
        length bytes ≤ b.read_index
        → slice
            (b.read_index - length bytes)
            (b.write_index - (b.read_index - length bytes))
            (copy_to b.buffer (b.read_index - length bytes) bytes)
          ≡ bytes ++ contents b
    prepended h =
        slice_split (b.read_index - length bytes) (length bytes) (b.write_index - b.read_index)
          b.read_index (b.write_index - (b.read_index - length bytes))
          (copy_to b.buffer (b.read_index - length bytes) bytes) (omega arith) (omega arith)
        ∙ cc (
          slice-copy_to_self b.buffer (b.read_index - length bytes) bytes (omega arith),
          slice-copy_to_above b.read_index (b.write_index - b.read_index) b.buffer
              (b.read_index - length bytes) bytes (omega arith),
        )

-- The room that `ensureWritableBytes` leaves in a new buffer.
fresh_room :
    (n : ℕ)
    → n + prepend_size ≤ max_size
    → let r = ensure_writable_bytes (new init_size) n in
      (r.read_index ≡ prepend_size)
      × (r.write_index ≡ prepend_size)
      × (length r.buffer ≡ (if leb n init_size then prepend_size + init_size else prepend_size + n))
      × IsValid r
unfolding ensure_writable_bytes make_space
fresh_room n h = ground (
  arith,
  length-replicate {A = ℕ} (prepend_size + init_size) 0,
  length-resize (add_size prepend_size n) 0 (new init_size).buffer,
)

-- On a well-formed buffer, where the sizes stay in range and the readable bytes can be counted by an
-- `int`, `shrink` keeps the readable bytes if the
-- reserve is zero and they number `InitSize` or more, and otherwise drops them all.
pub contents-shrink :
    {b : Buffer} (reserve : ℕ)
    → IsValid b
    → length (contents b) < 2 ^ 31
    → length (contents b) + reserve + length (contents b) + prepend_size ≤ max_size
    → IsValid (shrink b reserve)
      × (contents (shrink b reserve) ≡ (
          if leb (length (contents b) + reserve) init_size
          then (if length (contents b) == init_size then contents b else [])
          else if reserve == 0
          then contents b
          else []))
unfolding shrink
contents-shrink {b} reserve v few h =
    let same : to_unsigned 64 (to_int32 (readable_bytes b)) ≡ readable_bytes b =
      ground (arith, few, length-contents {b = b} v) in
    let n = add_size (readable_bytes b) reserve in
    let room = fresh_room n (omega (arith, length-contents {b = b} v)) in
    ground (
      arith,
      length-contents {b = b} v,
      peek_readable {b = b} v,
      same,
      room,
      contents-append {b = ensure_writable_bytes (new init_size) n} (to_string_piece b) room.3
          (ground (arith, length-contents {b = b} v, peek_readable {b = b} v, same, room)),
    )

module _ {b : Buffer} (bytes : List ℕ) (v : IsValid b)
    (h : length b.buffer + length bytes ≤ max_size) where
  received_part :
      contents (record (received b bytes) {
        write_index = b.write_index + length (take (writable_bytes b) bytes);
      })
      ≡ contents b ++ take (writable_bytes b) bytes
  received_part =
      written_more {r = b} v (take (writable_bytes b) bytes)
        (omega (arith, length-take (writable_bytes b) bytes))

  received_less :
      length bytes ≤ writable_bytes b
      → contents (record (received b bytes) { write_index = b.write_index + length bytes })
        ≡ contents b ++ bytes
  received_less k = ground (arith, received_part, take_all (writable_bytes b) bytes)

  full : Buffer
  full = record (received b bytes) { write_index = length b.buffer }

  full-IsValid : IsValid full
  unfolding full
  full-IsValid =
      omega (arith, length-copy_to b.buffer b.write_index (take (writable_bytes b) bytes))

  received_more :
      writable_bytes b < length bytes → contents full ≡ contents b ++ take (writable_bytes b) bytes
  unfolding full
  received_more k = ground (arith, received_part, length-take (writable_bytes b) bytes)

  pub read_bytes-IsValid : IsValid (read_bytes b bytes)
  unfolding read_bytes full
  read_bytes-IsValid = ground (
    arith,
    full-IsValid,
    length-copy_to b.buffer b.write_index (take (writable_bytes b) bytes),
    append-IsValid {b = full} (drop (writable_bytes b) bytes) full-IsValid
        (omega (arith, length-drop (writable_bytes b) bytes)),
  )

  -- On a well-formed buffer whose readable bytes begin at `Prepend` or in front of it, and which
  -- the bytes leave within the largest size, `readFd` appends all that it received.
  pub contents-read_bytes :
      IsFront b
      → IsValid (read_bytes b bytes) × (contents (read_bytes b bytes) ≡ contents b ++ bytes)
  unfolding read_bytes full
  contents-read_bytes f = ground (
    arith,
    received_less,
    received_more,
    full-IsValid,
    length-copy_to b.buffer b.write_index (take (writable_bytes b) bytes),
    contents-append {b = full} (drop (writable_bytes b) bytes) full-IsValid
        (omega (arith, length-drop (writable_bytes b) bytes)),
    length-drop (writable_bytes b) bytes,
    append_assoc (contents b) (take (writable_bytes b) bytes) (drop (writable_bytes b) bytes),
    take-append-drop (writable_bytes b) bytes,
  )
