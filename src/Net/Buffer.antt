-- ===== src/Net/Buffer.antt =====
-- Net/Buffer.h and Net/Buffer.cpp: the byte buffer of a connection. A method returns the new
-- buffer, behind its result where it has one. `m_buffer` is a list of bytes, and the two indices
-- are values of `size_t`.
pub mod Inv
pub mod Contents
pub mod Reads
pub mod Growth
pub mod Ops
pub mod Search
use ka_im.Prelude.{
  ℕ, ◌+◌, ◌-◌, ◌<◌, Bool, true, false, List, [], ◌∷◌, ◌++◌, length, take, drop, replicate, slice,
  copy_to, resize, add_size, sub_size, ltb, leb, if◌then◌else◌, min,
}
use ka_im.Prelude.Int.{to_int32, to_unsigned}

-- Buffer::Prepend and Buffer::InitSize.
abbrev pub prepend_size : ℕ
prepend_size = 8

abbrev pub init_size : ℕ
init_size = 1024

-- `char extrabuf[65536]` of `readFd`.
abbrev pub extra_size : ℕ
extra_size = 65536

pub record Buffer : Type 0 where
  pub buffer : List ℕ
  pub read_index : ℕ
  pub write_index : ℕ

abbrev pub new : ℕ → Buffer
new initsize = record {
  buffer = replicate (prepend_size + initsize) 0;
  read_index = prepend_size;
  write_index = prepend_size;
}

abbrev pub readable_bytes : Buffer → ℕ
readable_bytes b = sub_size b.write_index b.read_index

abbrev pub writable_bytes : Buffer → ℕ
writable_bytes b = sub_size (length b.buffer) b.write_index

abbrev pub prependable_bytes : Buffer → ℕ
prependable_bytes b = b.read_index

-- The `len` bytes at `peek()`, as a caller reads them.
abbrev pub peek : Buffer → ℕ → List ℕ
peek b len = slice b.read_index len b.buffer

unfoldable pub has_written : Buffer → ℕ → Bool × Buffer
has_written b len =
    if ltb len (writable_bytes b)
    then (false, b)
    else (true, record b { write_index = add_size b.write_index len })

abbrev pub retrieve_all : Buffer → Buffer
retrieve_all b = record b { read_index = prepend_size; write_index = prepend_size }

unfoldable pub retrieve : Buffer → ℕ → Bool × Buffer
retrieve b len =
    if ltb len (readable_bytes b)
    then (false, b)
    else if ltb len (readable_bytes b)
    then (true, record b { read_index = add_size b.read_index len })
    else (true, retrieve_all b)

-- `end` is given by its offset from `begin()`.
unfoldable pub retrieve_until : Buffer → ℕ → Bool × Buffer
unfolding retrieve
retrieve_until b end =
    if ltb b.read_index end
    then (false, b)
    else if ltb b.write_index end
    then (false, b)
    else (true, (retrieve b (sub_size end b.read_index)).1)

unfoldable pub retrieve_as_string : Buffer → ℕ → List ℕ × Buffer
unfolding retrieve
retrieve_as_string b len =
    if ltb (readable_bytes b) len then ([], b) else (peek b len, (retrieve b len).1)

unfoldable pub retrieve_all_as_string : Buffer → List ℕ × Buffer
unfolding retrieve_as_string
retrieve_all_as_string b = retrieve_as_string b (readable_bytes b)

-- The move to the front is `std::copy` of the readable bytes to `begin() + Prepend`.
unfoldable pub make_space : Buffer → ℕ → Buffer
make_space b len =
    if ltb (add_size (writable_bytes b) (prependable_bytes b)) (add_size len prepend_size)
    then record b { buffer = resize (add_size b.write_index len) 0 b.buffer }
    else if leb b.read_index prepend_size
    then b
    else record {
      buffer = copy_to b.buffer prepend_size (peek b (sub_size b.write_index b.read_index));
      read_index = prepend_size;
      write_index = add_size prepend_size (readable_bytes b);
    }

-- `ensureWritableBytes`, which always returns true.
unfoldable pub ensure_writable_bytes : Buffer → ℕ → Buffer
unfolding make_space
ensure_writable_bytes b len = if ltb (writable_bytes b) len then make_space b len else b

-- `append(const char*, size_t)`, to which the other two overloads delegate. What `hasWritten`
-- returns is dropped, as in the source.
unfoldable pub append : Buffer → List ℕ → Buffer
unfolding ensure_writable_bytes has_written
append b bytes =
    let room = ensure_writable_bytes b (length bytes) in
    let copied = record room { buffer = copy_to room.buffer room.write_index bytes } in
    (has_written copied (length bytes)).1

unfoldable pub prepend : Buffer → List ℕ → Bool × Buffer
prepend b bytes = if ltb (prependable_bytes b) (length bytes) then (false, b) else (
  true,
  record b {
    buffer = copy_to b.buffer (b.read_index - length bytes) bytes;
    read_index = b.read_index - length bytes;
  },
)

-- `toStringPiece`, which casts the size to an `int`; the string takes it as a `size_t` again.
abbrev pub to_string_piece : Buffer → List ℕ
to_string_piece b = peek b (to_unsigned 64 (to_int32 (readable_bytes b)))

unfoldable pub shrink : Buffer → ℕ → Buffer
shrink b reserve =
    append (ensure_writable_bytes (new init_size) (add_size (readable_bytes b) reserve))
      (to_string_piece b)

-- What `::readv` answers: it fails with an errno, or has filled the two blocks with the bytes.
pub data ReadvResult : Type 0 where
  failed : ℕ → ReadvResult
  got : List ℕ → ReadvResult

-- The bytes that the call offers room for: `iovcnt` is 2 if the writable part is shorter than
-- `extrabuf`.
abbrev pub readv_room : Buffer → ℕ
readv_room b =
    if ltb (writable_bytes b) extra_size then writable_bytes b + extra_size else writable_bytes b

-- The buffer after `::readv` has written its first block.
abbrev pub received : Buffer → List ℕ → Buffer
received b bytes = record b {
  buffer = copy_to b.buffer b.write_index (take (writable_bytes b) bytes);
}

unfoldable pub read_bytes : Buffer → List ℕ → Buffer
read_bytes b bytes =
    if leb (length bytes) (writable_bytes b)
    then record (received b bytes) { write_index = add_size b.write_index (length bytes) }
    else append (record (received b bytes) { write_index = length b.buffer })
        (drop (writable_bytes b) bytes)

-- `readFd`, which returns the count that `::readv` gave it (none for -1, with the errno set).
-- A count of zero leaves the buffer as it is.
unfoldable pub read_fd : Buffer → ReadvResult → ReadvResult × Buffer
unfolding read_bytes
read_fd b (failed errno) = (failed errno, b)
read_fd b (got []) = (got [], b)
read_fd b (got (x ∷ xs)) = (got (x ∷ xs), read_bytes b (x ∷ xs))
