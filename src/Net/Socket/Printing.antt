-- ===== src/Net/Socket/Printing.antt =====
-- What `KaNetAddr::ToString` tells of an address.
use ka_im.Prelude.{
  ℕ, ◌+◌, ◌%◌, ◌/◌, ◌^◌, ◌<◌, ◌≤◌, ◌≡◌, ◌↔◌, refl, sym, ap, ◌∙◌, [], ◌∷◌, ◌++◌, Bytes, bytes, arith,
  length, length-append, drop, take_all,
}
use ka_im.Prelude.Int.{ℤ, pos, negsuc, to_int32}
use ka_im.Prelude.Decimal.{
  show_int, digits, length-digits, read_signed, read_digits-front, digits_injective,
  read_signed-digits,
}
use ka_im.Net.Socket.{SockAddr, host_port_text, to_string, addr_of, htons}

abbrev IsInt32 : ℤ → Type 0
IsInt32 (pos n) = n < 2 ^ 31
IsInt32 (negsuc n) = n < 2 ^ 31

to_int32-IsInt32 : (n : ℕ) → IsInt32 (to_int32 n)
to_int32-IsInt32 n = ground arith

to_int32_injective : (a b : ℕ) → a < 2 ^ 32 → b < 2 ^ 32 → to_int32 a ≡ to_int32 b → a ≡ b
to_int32_injective a b h k e = ground arith

-- At most ten digits and a sign.
length-show_int : (z : ℤ) → IsInt32 z → length (show_int z) ≤ 11
length-show_int (pos n) h = omega (arith, length-digits n 9 (omega arith))
length-show_int (negsuc n) h = omega (arith, length-digits (n + 1) 9 (omega arith))

-- The number is read back up to the comma.
read_signed-show_int : (z : ℤ) (ys : Bytes) → IsInt32 z → read_signed (show_int z ++ 44 ∷ ys) ≡ z
read_signed-show_int (pos n) ys h =
    read_signed-digits n (44 ∷ ys) ∙ rw (read_digits-front n (44 ∷ ys)) (ground arith)
read_signed-show_int (negsuc n) ys h = rw (read_digits-front (n + 1) (44 ∷ ys)) (ground arith)

drop-append : (xs ys : Bytes) → drop (length xs) (xs ++ ys) ≡ ys
drop-append [] ys = refl
drop-append (x ∷ xs) ys = drop-append xs ys

pub append_cancel : (xs ys zs : Bytes) → xs ++ ys ≡ xs ++ zs → ys ≡ zs
append_cancel xs ys zs e = sym (drop-append xs ys) ∙ ap (drop (length xs)) e ∙ drop-append xs zs

length-host_port_text : (a p : ℕ) → p < 2 ^ 16 → length (host_port_text a p) ≤ 25
length-host_port_text a p h = omega (
  arith,
  length-append (show_int (to_int32 a)) (bytes ",Port=" ++ digits p),
  length-show_int (to_int32 a) (to_int32-IsInt32 a),
  length-digits p 4 (omega arith),
)

-- The array of 512 bytes is long enough.
to_string-text :
    (a : SockAddr) → a.sin_port < 2 ^ 16 → to_string a ≡ host_port_text a.s_addr a.sin_port
unfolding to_string
to_string-text a h =
    take_all 511 (host_port_text a.s_addr a.sin_port)
      (omega (arith, length-host_port_text a.s_addr a.sin_port h))

pub length-to_string : (a : SockAddr) → a.sin_port < 2 ^ 16 → length (to_string a) ≤ 25
length-to_string a h = rw (to_string-text a h) (length-host_port_text a.s_addr a.sin_port h)

text_addr :
    (a b p q : ℕ) → a < 2 ^ 32 → b < 2 ^ 32 → host_port_text a p ≡ host_port_text b q → a ≡ b
text_addr a b p q h k e = to_int32_injective a b h k (
    sym (read_signed-show_int (to_int32 a) (bytes "Port=" ++ digits p) (to_int32-IsInt32 a))
    ∙ ap (λ s. read_signed (drop 3 s)) e
    ∙ read_signed-show_int (to_int32 b) (bytes "Port=" ++ digits q) (to_int32-IsInt32 b))

text_port : (a p q : ℕ) → host_port_text a p ≡ host_port_text a q → p ≡ q
text_port a p q e = digits_injective p q (
    ap (drop 6) (
      append_cancel (show_int (to_int32 a)) (bytes ",Port=" ++ digits p)
        (bytes ",Port=" ++ digits q) (ap (drop 3) e)))

text_injective :
    (a b p q : ℕ)
    → a < 2 ^ 32
    → b < 2 ^ 32
    → host_port_text a p ≡ host_port_text b q
    → (a ≡ b) × (p ≡ q)
text_injective a b p q h k e =
    let same = text_addr a b p q h k e in
    (same, text_port b p q (ap (λ x. host_port_text x p) (sym same) ∙ e))

-- Two addresses whose fields fit 32 and 16 bits and whose `ToString` is the same have the same IP
-- and the same port.
pub to_string_injective :
    (a b : SockAddr)
    → a.s_addr < 2 ^ 32
    → b.s_addr < 2 ^ 32
    → a.sin_port < 2 ^ 16
    → b.sin_port < 2 ^ 16
    → to_string a ≡ to_string b
    → (a.s_addr ≡ b.s_addr) × (a.sin_port ≡ b.sin_port)
to_string_injective a b h k m n e =
    text_injective a.s_addr b.s_addr a.sin_port b.sin_port h k
      (sym (to_string-text a m) ∙ e ∙ to_string-text b n)

-- The `ToString` of an address that was made with a port shows that port exactly when the two bytes
-- of the port are the same: it prints the number as it lies in memory.
pub to_string-port :
    (inet_addr : Bytes → ℕ) (ip : Bytes) (port : ℕ)
    → inet_addr ip < 2 ^ 32
    → port < 2 ^ 16
    → (to_string (addr_of inet_addr ip port) ≡ host_port_text (inet_addr ip) port)
      ↔ (port % 256 ≡ port / 256)
unfolding addr_of
to_string-port inet_addr ip port h k =
    let made = addr_of inet_addr ip port in
    let text = to_string-text made (omega arith) in
    (
      λ e. let same = text_port (inet_addr ip) (htons port) port (sym text ∙ e) in omega arith,
      λ e.
          let same : htons port ≡ port = omega arith in
          text ∙ ap (host_port_text (inet_addr ip)) same,
    )
