-- ===== src/Net/Buffer/Growth.antt =====
-- How far the array of Net/Buffer.h grows.
use ka_im.Prelude.{
  ℕ, ◌+◌, ◌≤◌, List, length, take, drop, length-copy_to, length-resize, length-drop, add_size,
  sub_size, max_size, arith,
}
use ka_im.Net.Buffer.{
  Buffer, writable_bytes, peek, prepend_size, make_space, ensure_writable_bytes, has_written,
  append, received, read_bytes,
}
use ka_im.Net.Buffer.Inv.{IsValid}

pub ensure_writable_bytes-length :
    {b : Buffer} (len : ℕ)
    → IsValid b
    → length b.buffer + len ≤ max_size
    → length (ensure_writable_bytes b len).buffer ≤ length b.buffer + len
unfolding ensure_writable_bytes make_space
ensure_writable_bytes-length {b} len v h = ground (
  arith,
  length-resize (add_size b.write_index len) 0 b.buffer,
  length-copy_to b.buffer prepend_size (peek b (sub_size b.write_index b.read_index)),
)

pub append-length :
    {b : Buffer} (bytes : List ℕ)
    → IsValid b
    → length b.buffer + length bytes ≤ max_size
    → length (append b bytes).buffer ≤ length b.buffer + length bytes
unfolding append has_written
append-length {b} bytes v h =
    let room = ensure_writable_bytes b (length bytes) in
    ground (
      arith,
      ensure_writable_bytes-length {b = b} (length bytes) v h,
      length-copy_to room.buffer room.write_index bytes,
    )

-- `readFd` adds to the array no more than it received.
pub read_bytes-length :
    {b : Buffer} (bytes : List ℕ)
    → IsValid b
    → length b.buffer + length bytes ≤ max_size
    → length (read_bytes b bytes).buffer ≤ length b.buffer + length bytes
unfolding read_bytes
read_bytes-length {b} bytes v h =
    let full = record (received b bytes) { write_index = length b.buffer } in
    let same = length-copy_to b.buffer b.write_index (take (writable_bytes b) bytes) in
    let fits : length full.buffer + length (drop (writable_bytes b) bytes) ≤ max_size =
      omega (arith, same, length-drop (writable_bytes b) bytes) in
    let valid : IsValid full = omega (arith, same) in
    ground (
      arith,
      same,
      length-drop (writable_bytes b) bytes,
      append-length {b = full} (drop (writable_bytes b) bytes) valid fits,
    )
