-- ===== src/Net/Buffer/Inv.antt =====
-- The representation invariant of Net/Buffer.h: the indices lie in order inside the array.
use ka_im.Prelude.{
  ℕ, ◌+◌, ◌-◌, ◌≤◌, ◌<◌, ◌≡◌, length, arith, max_size, length-copy_to, length-resize,
  length-replicate, add_size,
}
use ka_im.Net.Buffer.{
  Buffer, new, prepend_size, readable_bytes, writable_bytes, make_space, ensure_writable_bytes,
  peek,
}

pub record IsValid (b : Buffer) : Type 0 where
  pub ordered : b.read_index ≤ b.write_index
  pub inside : b.write_index ≤ length b.buffer
  pub header : prepend_size ≤ length b.buffer
  pub bounded : length b.buffer ≤ max_size

-- The readable bytes begin at `Prepend` or in front of it.
abbrev pub IsFront : Buffer → Type 0
IsFront b = b.read_index ≤ prepend_size

pub readable_lem : {b : Buffer} → IsValid b → readable_bytes b ≡ b.write_index - b.read_index
readable_lem v = omega arith

pub writable_lem : {b : Buffer} → IsValid b → writable_bytes b ≡ length b.buffer - b.write_index
writable_lem v = omega arith

pub new-IsValid : (n : ℕ) → n + prepend_size ≤ max_size → IsValid (new n)
new-IsValid n h = omega (arith, length-replicate {A = ℕ} (prepend_size + n) 0)

pub make_space-IsValid :
    {b : Buffer} (len : ℕ)
    → IsValid b
    → b.write_index + len ≤ max_size
    → writable_bytes b < len
    → IsValid (make_space b len)
unfolding make_space
make_space-IsValid {b} len v h k = ground (
  arith,
  length-resize (add_size b.write_index len) 0 b.buffer,
  length-copy_to b.buffer prepend_size (peek b (readable_bytes b)),
)

pub ensure_writable_bytes-IsValid :
    {b : Buffer} (len : ℕ)
    → IsValid b
    → b.write_index + len ≤ max_size
    → IsValid (ensure_writable_bytes b len)
unfolding ensure_writable_bytes
ensure_writable_bytes-IsValid {b} len v h = ground (arith, make_space-IsValid {b = b} len v h)
