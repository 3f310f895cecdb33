-- ===== src/Net/Server/Table.antt =====
-- The map of a server's connections, in the order of the names, as a function from names: what
-- `newConnection` and `removeConnection` do to it.
use mathlib.Core.Path.{fun_ext}
use ka_im.Prelude.{
  ◌≡◌, refl, sym, ap, true, [], ◌∷◌, Option, none, some, Bytes, bytes_eq, bytes_lt, bytes_eq_sound,
  bytes_eq_same, bytes_eq_differs, comes_before, ascends, comes_before_trans, bytes_lt_total,
  bytes_lt_differs, arith, if◌then◌else◌,
}
use ka_im.Net.Connection.{TcpConnection}
use ka_im.Net.Server.{ConnectionMap, put_connection, erase_connection}

abbrev pub Table : Type 0
Table = Bytes → Option (Option TcpConnection)

abbrev pub find_connection : Bytes → ConnectionMap → Option (Option TcpConnection)
find_connection n [] = none
find_connection n ((key, c) ∷ rest) = if bytes_eq key n then some c else find_connection n rest

unfoldable pub table_of : ConnectionMap → Table
table_of m n = find_connection n m

abbrev pub set_entry : Bytes → Option (Option TcpConnection) → Table → Table
set_entry name entry t n = if bytes_eq name n then entry else t n

comes_before-put :
    (a name : Bytes) (c : Option TcpConnection) (m : ConnectionMap)
    → bytes_lt a name ≡ true
    → comes_before a m ≡ true
    → comes_before a (put_connection name c m) ≡ true
unfolding put_connection
comes_before-put a name c [] h k = ground (arith, h)
comes_before-put a name c ((key, d) ∷ rest) h k = ground (arith, comes_before-put a name c rest)

pub ascends-put :
    (name : Bytes) (c : Option TcpConnection) (m : ConnectionMap)
    → ascends m ≡ true
    → ascends (put_connection name c m) ≡ true
unfolding put_connection
ascends-put name c [] h = refl
ascends-put name c ((key, d) ∷ rest) h = ground (
  arith,
  ascends-put name c rest,
  bytes_lt_total key name,
  bytes_lt_total name key,
  comes_before_trans name key rest,
  comes_before-put key name c rest,
)

comes_before-erase :
    (a name : Bytes) (m : ConnectionMap)
    → comes_before a m ≡ true
    → comes_before a (erase_connection name m) ≡ true
unfolding erase_connection
comes_before-erase a name [] k = refl
comes_before-erase a name ((key, d) ∷ rest) k = ground (arith, comes_before-erase a name rest)

pub ascends-erase :
    (name : Bytes) (m : ConnectionMap) → ascends m ≡ true → ascends (erase_connection name m) ≡ true
unfolding erase_connection
ascends-erase name [] h = refl
ascends-erase name ((key, d) ∷ rest) h =
    ground (arith, ascends-erase name rest, comes_before-erase key name rest)

find-comes_before :
    (name : Bytes) (m : ConnectionMap) → comes_before name m ≡ true → find_connection name m ≡ none
find-comes_before name [] h = refl
find-comes_before name ((key, c) ∷ rest) h =
    ground (arith, bytes_lt_differs name key, find-comes_before name rest)

find-put :
    (name n : Bytes) (c : Option TcpConnection) (m : ConnectionMap)
    → find_connection n (put_connection name c m)
      ≡ (if bytes_eq name n then some c else find_connection n m)
unfolding put_connection
find-put name n c [] = refl
find-put name n c ((key, d) ∷ rest) =
    ground (arith, find-put name n c rest, bytes_eq_same key name n, bytes_eq_differs key name n)

find_same :
    (key n : Bytes) (m : ConnectionMap)
    → bytes_eq key n ≡ true
    → find_connection n m ≡ find_connection key m
find_same key n m h = ap (λ k. find_connection k m) (sym (bytes_eq_sound key n h))

find-erase :
    (name n : Bytes) (m : ConnectionMap)
    → ascends m ≡ true
    → find_connection n (erase_connection name m)
      ≡ (if bytes_eq name n then none else find_connection n m)
unfolding erase_connection
find-erase name n [] h = ground arith
find-erase name n ((key, d) ∷ rest) h = ground (
  arith,
  find-erase name n rest,
  find_same key n rest,
  find-comes_before key rest,
  bytes_eq_same key name n,
  bytes_eq_differs key name n,
)

pub table-put :
    (name : Bytes) (c : Option TcpConnection) (m : ConnectionMap)
    → table_of (put_connection name c m) ≡ set_entry name (some c) (table_of m)
unfolding table_of
table-put name c m = fun_ext λ n. find-put name n c m

pub table-erase :
    (name : Bytes) (m : ConnectionMap)
    → ascends m ≡ true
    → table_of (erase_connection name m) ≡ set_entry name none (table_of m)
unfolding table_of
table-erase name m h = fun_ext λ n. find-erase name n m h

pub set_entry_twice :
    (name : Bytes) (a b : Option (Option TcpConnection)) (t : Table)
    → set_entry name a (set_entry name b t) ≡ set_entry name a t
set_entry_twice name a b t = fun_ext λ n. ground arith
