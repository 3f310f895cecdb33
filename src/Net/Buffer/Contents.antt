-- ===== src/Net/Buffer/Contents.antt =====
-- What the buffer holds for its reader, and what the operations that make room or write do to it.
use ka_im.Prelude.{
  ℕ, ◌+◌, ◌-◌, ◌≤◌, ◌<◌, ◌≡◌, Bool, true, List, ◌++◌, length, arith, max_size, length-copy_to,
  length-resize, add_size, slice, copy_to, ap, ◌∙◌, leb, ◌==◌, ◌&&◌, ◌||◌, if◌then◌else◌,
  slice-copy_to_self, slice-copy_to_below, slice-resize, slice_split, length-slice,
}
use ka_im.Net.Buffer.{
  Buffer, prepend_size, readable_bytes, writable_bytes, prependable_bytes, has_written, make_space,
  ensure_writable_bytes, append, peek,
}
use ka_im.Net.Buffer.Inv.{IsValid, readable_lem, ensure_writable_bytes-IsValid}

-- The bytes between the two indices.
abbrev pub contents : Buffer → List ℕ
contents b = slice b.read_index (b.write_index - b.read_index) b.buffer

pub length-contents : {b : Buffer} → IsValid b → length (contents b) ≡ b.write_index - b.read_index
length-contents {b} v =
    length-slice b.read_index (b.write_index - b.read_index) b.buffer (omega arith)

pub peek_readable : {b : Buffer} → IsValid b → peek b (readable_bytes b) ≡ contents b
peek_readable {b} v = ap (λ n. slice b.read_index n b.buffer) (readable_lem {b = b} v)

-- What `makeSpace` and `ensureWritableBytes` leave behind.
pub record HasRoom (b : Buffer) (len : ℕ) (r : Buffer) : Type 0 where
  pub valid : IsValid r
  pub same : contents r ≡ contents b
  pub room : r.write_index + len ≤ length r.buffer

module _ {b : Buffer} (len : ℕ) (v : IsValid b) (h : b.write_index + len ≤ max_size) where
  make_space-contents : writable_bytes b < len → contents (make_space b len) ≡ contents b
  unfolding make_space
  make_space-contents k = ground (
    arith,
    slice-resize b.read_index (b.write_index - b.read_index) (add_size b.write_index len) 0
        b.buffer,
    slice-copy_to_self b.buffer prepend_size (contents b),
    length-contents {b = b} v,
    peek_readable {b = b} v,
  )

  make_space-room :
      writable_bytes b < len
      → (make_space b len).write_index + len ≤ length (make_space b len).buffer
  unfolding make_space
  make_space-room k = ground (
    arith,
    length-resize (add_size b.write_index len) 0 b.buffer,
    length-copy_to b.buffer prepend_size (peek b (readable_bytes b)),
  )

  -- `ensureWritableBytes` makes room for the bytes, and changes nothing that a reader sees.
  pub ensure_writable_bytes-HasRoom : HasRoom b len (ensure_writable_bytes b len)
  unfolding ensure_writable_bytes
  ensure_writable_bytes-HasRoom = record {
    valid = ensure_writable_bytes-IsValid {b = b} len v h;
    same = ground (arith, make_space-contents);
    room = ground (arith, make_space-room);
  }

-- Whether the room that `ensureWritableBytes` leaves is exactly as long as what is appended: then
-- alone does `hasWritten` move the write index.
abbrev pub lands : Buffer → ℕ → Bool
lands b len =
    (writable_bytes b == len)
    || (leb (writable_bytes b) len
        && leb (writable_bytes b + prependable_bytes b) (len + prepend_size))

module _ {b : Buffer} (len : ℕ) (v : IsValid b) (h : b.write_index + len ≤ max_size) where
  room_lands : (writable_bytes (ensure_writable_bytes b len) == len) ≡ lands b len
  unfolding ensure_writable_bytes make_space
  room_lands = ground (
    arith,
    length-resize (add_size b.write_index len) 0 b.buffer,
    length-copy_to b.buffer prepend_size (peek b (readable_bytes b)),
  )

  room_position : lands b len ≡ true → (ensure_writable_bytes b len).read_index ≤ b.read_index
  unfolding ensure_writable_bytes make_space
  room_position e = ground arith

abbrev pub written : Buffer → List ℕ → Buffer
written r bytes = record r { buffer = copy_to r.buffer r.write_index bytes }

module _ {r : Buffer} (v : IsValid r) (bytes : List ℕ)
    (room : r.write_index + length bytes ≤ length r.buffer) where
  written-contents : contents (written r bytes) ≡ contents r
  written-contents =
      slice-copy_to_below r.read_index (r.write_index - r.read_index) r.buffer r.write_index bytes
        (omega arith)

  pub written_more :
      contents (record (written r bytes) { write_index = r.write_index + length bytes })
      ≡ contents r ++ bytes
  written_more =
      slice_split r.read_index (r.write_index - r.read_index) (length bytes) r.write_index
        (r.write_index + length bytes - r.read_index) (copy_to r.buffer r.write_index bytes)
        (omega arith) (omega arith)
      ∙ cc (slice-copy_to_self r.buffer r.write_index bytes room, written-contents)

  has_written-contents :
      contents (has_written (written r bytes) (length bytes)).1
      ≡ (if writable_bytes r == length bytes then contents r ++ bytes else contents r)
  unfolding has_written
  has_written-contents =
      ground (arith, written-contents, written_more, length-copy_to r.buffer r.write_index bytes)

  has_written-IsValid : IsValid (has_written (written r bytes) (length bytes)).1
  unfolding has_written
  has_written-IsValid = ground (arith, length-copy_to r.buffer r.write_index bytes)

module _ {b : Buffer} (bytes : List ℕ) (v : IsValid b)
    (h : b.write_index + length bytes ≤ max_size) where
  pub append-IsValid : IsValid (append b bytes)
  unfolding append
  append-IsValid =
      let r = ensure_writable_bytes-HasRoom {b = b} (length bytes) v h in
      has_written-IsValid r.valid bytes r.room

  -- On a well-formed buffer that the bytes leave within the largest size, `append` adds the bytes
  -- at the end if the room that it makes is exactly as long as they are, and otherwise changes
  -- nothing that a reader sees; the buffer stays well formed.
  pub contents-append :
      IsValid (append b bytes)
      × (contents (append b bytes)
          ≡ (if lands b (length bytes) then contents b ++ bytes else contents b))
  unfolding append
  contents-append =
      let r = ensure_writable_bytes-HasRoom {b = b} (length bytes) v h in
      (
        append-IsValid,
        has_written-contents r.valid bytes r.room
            ∙ rw (room_lands {b = b} (length bytes) v h, r.same),
      )
