-- ===== src/Net/Buffer/Ops.antt =====
-- Sequences of calls of the methods of Net/Buffer.h.
use ka_im.Prelude.{◌^◌, ◌<◌, ℕ, sub_size, ◌+◌, ◌≤◌, List, [], ◌∷◌, length, arith, max_size, drop}
use ka_im.Net.Buffer.{
  Buffer, new, init_size, prepend_size, writable_bytes, retrieve, retrieve_until,
  retrieve_as_string, make_space, ensure_writable_bytes, append, prepend, shrink, got, received,
  read_bytes, read_fd,
}
use ka_im.Net.Buffer.Inv.{IsValid, IsFront}
use ka_im.Net.Buffer.Contents.{contents, contents-append, ensure_writable_bytes-HasRoom}
use ka_im.Net.Buffer.Reads.{
  contents-retrieve, contents-prepend, contents-shrink, read_bytes-IsValid,
}

pub data Op : Type 0 where
  appends prepends receives : List ℕ → Op
  retrieves retrieves_until retrieves_string ensures shrinks : ℕ → Op

unfoldable pub step : Buffer → Op → Buffer
step b (appends bytes) = append b bytes
step b (prepends bytes) = (prepend b bytes).1
step b (receives bytes) = (read_fd b (got bytes)).1
step b (retrieves n) = (retrieve b n).1
step b (retrieves_until n) = (retrieve_until b n).1
step b (retrieves_string n) = (retrieve_as_string b n).1
step b (ensures n) = ensure_writable_bytes b n
step b (shrinks n) = shrink b n

unfoldable pub run : Buffer → List Op → Buffer
run b [] = b
run b (o ∷ os) = run (step b o) os

append-IsFront : (b : Buffer) (bytes : List ℕ) → IsFront b → IsFront (append b bytes)
unfolding append make_space
append-IsFront b bytes f = ground arith

ensure_writable_bytes-IsFront :
    (b : Buffer) (n : ℕ) → IsFront b → IsFront (ensure_writable_bytes b n)
unfolding ensure_writable_bytes
ensure_writable_bytes-IsFront b n f = ground arith

pub read_bytes-IsFront : (b : Buffer) (bytes : List ℕ) → IsFront b → IsFront (read_bytes b bytes)
unfolding read_bytes
read_bytes-IsFront b bytes f = ground (
  arith,
  append-IsFront (record (received b bytes) { write_index = length b.buffer })
      (drop (writable_bytes b) bytes),
)

step-IsFront : (b : Buffer) (o : Op) → IsFront b → IsFront (step b o)
unfolding step prepend retrieve retrieve_until retrieve_as_string shrink read_fd
step-IsFront b (appends bytes) f = append-IsFront b bytes f
step-IsFront b (prepends bytes) f = ground arith
step-IsFront b (receives []) f = f
step-IsFront b (receives (x ∷ xs)) f = read_bytes-IsFront b (x ∷ xs) f
step-IsFront b (retrieves n) f = ground arith
step-IsFront b (retrieves_until n) f = ground arith
step-IsFront b (retrieves_string n) f = ground arith
step-IsFront b (ensures n) f = ensure_writable_bytes-IsFront b n f
step-IsFront b (shrinks n) f =
    append-IsFront _ _ (ensure_writable_bytes-IsFront (new init_size) _ (omega arith))

-- No sequence of calls moves the start of the readable bytes behind `Prepend`, if it does not stand
-- behind it before.
pub run-IsFront : (b : Buffer) (os : List Op) → IsFront b → IsFront (run b os)
unfolding run
run-IsFront b [] f = f
run-IsFront b (o ∷ os) f = run-IsFront (step b o) os (step-IsFront b o f)

-- The array that the call needs is no longer than a vector can be.
abbrev pub Fits : Buffer → Op → Type 0
Fits b (appends bytes) = length b.buffer + length bytes ≤ max_size
Fits b (prepends bytes) = Unit
Fits b (receives bytes) = length b.buffer + length bytes ≤ max_size
Fits b (retrieves n) = Unit
Fits b (retrieves_until n) = Unit
Fits b (retrieves_string n) = Unit
Fits b (ensures n) = b.write_index + n ≤ max_size
Fits b (shrinks n) =
    (length (contents b) < 2 ^ 31)
    × (length (contents b) + n + length (contents b) + prepend_size ≤ max_size)

-- Every method keeps the buffer well formed, so none of them reads or writes outside the array.
pub step-IsValid : (b : Buffer) (o : Op) → Fits b o → IsValid b → IsValid (step b o)
unfolding step retrieve_until retrieve_as_string read_fd
step-IsValid b (appends bytes) f v = (contents-append {b = b} bytes v (omega arith)).0
step-IsValid b (prepends bytes) f v = (contents-prepend {b = b} bytes v).2
step-IsValid b (receives []) f v = v
step-IsValid b (receives (x ∷ xs)) f v = read_bytes-IsValid {b = b} (x ∷ xs) v f
step-IsValid b (retrieves n) f v = (contents-retrieve {b = b} n v).2
step-IsValid b (retrieves_until n) f v =
    ground (arith, contents-retrieve {b = b} (sub_size n b.read_index) v)
step-IsValid b (retrieves_string n) f v = ground (arith, contents-retrieve {b = b} n v)
step-IsValid b (ensures n) f v = (ensure_writable_bytes-HasRoom {b = b} n v f).valid
step-IsValid b (shrinks n) f v = (contents-shrink {b = b} n v f.0 f.1).0
