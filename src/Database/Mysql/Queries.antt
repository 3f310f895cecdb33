-- ===== src/Database/Mysql/Queries.antt =====
-- What `KaDBConn::query` sends.
use ka_im.Prelude.{ℕ, ◌≡◌, ◌≢◌, refl, false, List, [], ◌∷◌, ◌++◌, Option, none, some, Bytes, arith}
use ka_im.Database.Mysql.{
  KaDbConn, Call, opens, connects, sends, Opening, Answer, accepted, gone, refused, ready,
  real_query, again, query, make,
}

abbrev pub Sent : Bytes → KaDbConn → Type 0
Sent sql c =
    (h : ℕ) × (before : List Call) × (c.mysql ≡ some h) × (c.calls ≡ before ++ sends h sql ∷ [])

real_query-Sent :
    (sql : Bytes) (h : ℕ) (c : KaDbConn) → c.mysql ≡ some h → Sent sql (real_query sql h c)
real_query-Sent sql h c e = (h, c.calls, e, refl)

ready_lem :
    (o : Opening) (c : KaDbConn) (x : ℕ) → (ready o c).0 ≡ some x → (ready o c).1.mysql ≡ some x
unfolding ready
ready_lem o c x h = ground arith

abbrev unconnected : ℕ → KaDbConn
unconnected h = record { mysql = some h; calls = opens ∷ connects h ∷ [] }

ready_failed :
    (o : Opening) (h : ℕ)
    → o.handle ≡ some h
    → o.connected ≡ false
    → ready o make ≡ (none, unconnected h)
unfolding ready
ready_failed o h e f = ground (arith, e, f)

module _ {ℓ} {R : Type ℓ} where
  again-Sent :
      (o : Opening) (handle : Option ℕ) (answer : Answer) (result : Option R) (sql : Bytes)
      (c : KaDbConn) (r : R)
      → o.handle ≡ handle
      → (again o answer result sql c).0 ≡ some r
      → (result ≡ some r) × Sent sql (again o answer result sql c).1
  unfolding again
  again-Sent o none answer result sql c r e h = absurd (ground (arith, e))
  again-Sent o (some x) accepted result sql c r e h = (
    ground (arith, e),
    (x, c.calls ++ opens ∷ connects x ∷ [], ground (arith, e), ground (arith, e)),
  )
  again-Sent o (some x) gone result sql c r e h = absurd (ground (arith, e))
  again-Sent o (some x) refused result sql c r e h = absurd (ground (arith, e))

  query_at :
      (o o' : Opening) (handle : Option ℕ) (first second : Answer) (result : Option R) (sql : Bytes)
      (c : KaDbConn) (r : R)
      → (ready o c).0 ≡ handle
      → (query o o' first second result sql c).0 ≡ some r
      → (result ≡ some r) × Sent sql (query o o' first second result sql c).1
  unfolding query
  query_at o o' none first second result sql c r e = rw (query, e) (λ h. absurd (ground (arith, h)))
  query_at o o' (some x) accepted second result sql c r e =
      rw (query, e) (λ h. (h, real_query-Sent sql x (ready o c).1 (ready_lem o c x e)))
  query_at o o' (some x) gone second result sql c r e =
      rw (query, e)
        (λ h. again-Sent o' o'.handle second result sql (real_query sql x (ready o c).1) r refl h)
  query_at o o' (some x) refused second result sql c r e =
      rw (query, e) (λ h. absurd (ground (arith, h)))

  -- A result that `query` returns is the one the library stored, and the last thing that the library
  -- was asked is the statement, on the handle that the connection has.
  pub query_lem :
      (o o' : Opening) (first second : Answer) (result : Option R) (sql : Bytes) (c : KaDbConn)
      (r : R)
      → (query o o' first second result sql c).0 ≡ some r
      → (result ≡ some r) × Sent sql (query o o' first second result sql c).1
  query_lem o o' first second result sql c r h =
      query_at o o' (ready o c).0 first second result sql c r refl h

  query_failed :
      (o o' : Opening) (first second : Answer) (result : Option R) (sql : Bytes) (h : ℕ)
      → o.handle ≡ some h
      → o.connected ≡ false
      → query o o' first second result sql make ≡ (none, unconnected h)
  unfolding query
  query_failed o o' first second result sql h e f =
      rw (query, ready_failed o h e f, ready_failed o h e f)

  -- After the first query of a new connection got a handle that did not connect, the next query is
  -- sent on that handle without another attempt to connect, unless the server is gone.
  pub query_unconnected :
      (o o' o2 o2' : Opening) (a b a2 b2 : Answer) (result result2 : Option R) (sql sql2 : Bytes)
      (h : ℕ)
      → o.handle ≡ some h
      → o.connected ≡ false
      → a2 ≢ gone
      → (query o2 o2' a2 b2 result2 sql2 (query o o' a b result sql make).1).1.calls
        ≡ opens ∷ connects h ∷ sends h sql2 ∷ []
  unfolding query ready
  query_unconnected o o' o2 o2' a b accepted b2 result result2 sql sql2 h e f g =
      rw (query_failed o o' a b result sql h e f) refl
  query_unconnected o o' o2 o2' a b gone b2 result result2 sql sql2 h e f g = absurd (g refl)
  query_unconnected o o' o2 o2' a b refused b2 result result2 sql sql2 h e f g =
      rw (query_failed o o' a b result sql h e f) refl
