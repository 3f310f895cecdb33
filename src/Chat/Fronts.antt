-- ===== src/Chat/Fronts.antt =====
-- The front of an input buffer in ChatServer/ChatSession.cpp as a function of the readable bytes alone.
use ka_im.Prelude.{
  ℕ, ◌+◌, ◌-◌, ◌≤◌, ◌≡◌, refl, sym, ◌||◌, ◌++◌, Bytes, take, drop, length, length-append, take-take,
  take-append_left, ltb, ◌==◌, if◌then◌else◌, arith, Bool-cases, inl, inr,
}
use ka_im.Prelude.Int.{ℤ, pos_part}
use ka_im.Net.Buffer.{Buffer, readable_bytes, peek}
use ka_im.Net.Buffer.Inv.{IsValid}
use ka_im.Net.Buffer.Contents.{contents, length-contents}
use ka_im.Chat.Session.{KaHead, read_head, head_size, compressed_flag, is_bad_size}
use ka_im.Chat.Reading.{Front, incomplete, broken, plain, packed, front, front_plain, front_packed}

abbrev plain_of : ℤ → Bytes → Front
plain_of size text =
    if is_bad_size size
    then broken
    else if ltb (length text) (pos_part size + head_size)
    then incomplete
    else plain (take (pos_part size) text)

abbrev packed_of : ℤ → ℤ → Bytes → Front
packed_of size origin text =
    if is_bad_size size || is_bad_size origin
    then broken
    else if ltb (length text) (pos_part size + head_size)
    then incomplete
    else packed (take (pos_part size) text) (pos_part origin)

abbrev head_of : Bytes → KaHead
head_of text = read_head (take head_size text)

abbrev body_of : KaHead → Bytes → Front
body_of head text =
    if head.flag == compressed_flag
    then packed_of head.compress_size head.origin_size text
    else plain_of head.origin_size text

unfoldable pub front_of : Bytes → Front
front_of text = if ltb (length text) head_size then incomplete else body_of (head_of text) text

module _ {b : Buffer} (v : IsValid b) where
  peek_front : (n : ℕ) → n ≤ readable_bytes b → peek b n ≡ take n (contents b)
  peek_front n h =
      sym (take-take n (b.write_index - b.read_index) (drop b.read_index b.buffer) (omega arith))

  plain_front : (size : ℤ) → front_plain size b ≡ plain_of size (contents b)
  plain_front size = ground (arith, length-contents {b = b} v, peek_front (pos_part size))

  packed_front : (size origin : ℤ) → front_packed size origin b ≡ packed_of size origin (contents b)
  packed_front size origin = ground (arith, length-contents {b = b} v, peek_front (pos_part size))

  -- The front of a well-formed buffer is that of its readable bytes.
  pub front_lem : front b ≡ front_of (contents b)
  unfolding front front_of
  front_lem = ground (
    arith,
    length-contents {b = b} v,
    peek_front head_size,
    plain_front (head_of (contents b)).origin_size,
    packed_front (head_of (contents b)).compress_size (head_of (contents b)).origin_size,
  )

-- As long as a packet is incomplete, so is its beginning.
pub front_of-incomplete :
    (text more : Bytes) → front_of (text ++ more) ≡ incomplete → front_of text ≡ incomplete
unfolding front_of
front_of-incomplete text more h = elim (Bool-cases (ltb (length text) head_size)) [
  | inl short ↦ rw short refl
  | inr whole ↦
      ground (arith, h, whole, length-append text more, take-append_left head_size text more)
]
