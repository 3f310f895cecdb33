-- ===== src/Net/Server/Names.antt =====
-- The names under which `TcpServer` keeps its connections.
use ka_im.Prelude.{
  ℕ, ◌+◌, ◌%◌, ◌/◌, ◌^◌, ◌<◌, ◌≤◌, ◌≡◌, ◌≢◌, sym, ap, ◌∙◌, false, [], ◌∷◌, ◌++◌, append_assoc,
  Bytes, bytes, arith, length, length-append, take, take_all, take-append_left, ltb,
}
use ka_im.Prelude.Decimal.{digits, length-digits, digits_injective, digits_split}
use ka_im.Net.Socket.{SockAddr, to_string}
use ka_im.Net.Socket.Printing.{length-to_string, append_cancel}
use ka_im.Net.Server.{TcpServer, conn_tag, conn_name}

abbrev whole_tag : Bytes → ℕ → Bytes
whole_tag host_port id = bytes ":" ++ (host_port ++ (bytes "#" ++ digits id))

length-whole_tag :
    (host_port : Bytes) (id : ℕ)
    → length (whole_tag host_port id) ≡ length host_port + length (digits id) + 2
length-whole_tag host_port id = omega (arith, length-append host_port (bytes "#" ++ digits id))

conn_tag_fits :
    (host_port : Bytes) (id : ℕ)
    → length host_port ≤ 25
    → id < 10000
    → conn_tag host_port id ≡ whole_tag host_port id
unfolding conn_tag
conn_tag_fits host_port id h k =
    take_all 31 (whole_tag host_port id)
      (omega (arith, length-whole_tag host_port id, length-digits id 3 k))

whole_tag_injective :
    (host_port : Bytes) (a b : ℕ) → whole_tag host_port a ≡ whole_tag host_port b → a ≡ b
whole_tag_injective host_port a b e = digits_injective a b (
    append_cancel (bytes "#") (digits a) (digits b) (
      append_cancel host_port (bytes "#" ++ digits a) (bytes "#" ++ digits b) (
        append_cancel (bytes ":") (host_port ++ (bytes "#" ++ digits a))
          (host_port ++ (bytes "#" ++ digits b)) e)))

-- On a server whose address has a port of 16 bits, the first 9999 connections get different names.
pub conn_name_distinct :
    (s : TcpServer) (addr : SockAddr) (a b : ℕ)
    → s.host_port ≡ to_string addr
    → addr.sin_port < 2 ^ 16
    → a < 10000
    → b < 10000
    → a ≢ b
    → conn_name (record s { next_conn_id = a }) ≢ conn_name (record s { next_conn_id = b })
unfolding conn_name
conn_name_distinct s addr a b host port h k apart e =
    let short : length s.host_port ≤ 25 = rw host (length-to_string addr port) in
    apart (
      whole_tag_injective s.host_port a b (
        sym (conn_tag_fits s.host_port a short h)
        ∙ append_cancel s.name (conn_tag s.host_port a) (conn_tag s.host_port b) e
        ∙ conn_tag_fits s.host_port b short k))

whole_tag_split :
    (host_port : Bytes) (id : ℕ)
    → ltb id 10 ≡ false
    → whole_tag host_port id ≡ whole_tag host_port (id / 10) ++ (48 + id % 10) ∷ []
whole_tag_split host_port id big = rw (digits_split id big) (
    ap (λ t. bytes ":" ++ t)
      (sym (append_assoc host_port (bytes "#" ++ digits (id / 10)) ((48 + id % 10) ∷ []))))

-- Where the address of the server and a number without its last digit fill the array of 32 bytes
-- together, the number's connection gets the name of the earlier connection that has the number
-- without that digit.
pub conn_name_collides :
    (s : TcpServer) (id : ℕ)
    → ltb id 10 ≡ false
    → length s.host_port + length (digits (id / 10)) ≡ 29
    → conn_name (record s { next_conn_id = id }) ≡ conn_name (record s { next_conn_id = id / 10 })
unfolding conn_name conn_tag
conn_name_collides s id big full =
    let fits : 31 ≤ length (whole_tag s.host_port (id / 10)) =
      omega (arith, length-whole_tag s.host_port (id / 10)) in
    ap (λ t. s.name ++ t)
      (ap (take 31) (whole_tag_split s.host_port id big)
        ∙ take-append_left 31 (whole_tag s.host_port (id / 10)) ((48 + id % 10) ∷ []) fits)
