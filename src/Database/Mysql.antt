-- ===== src/Database/Mysql.antt =====
-- The MySQL client, DataBase/KaMysql/: `KaDBConn` here, in the children `KaDBManager` with `KaDBPool`,
-- and what a client gets from the manager. libmysqlclient is not part of the repository: what its
-- calls answer is an argument of each method.
pub mod Manager
pub mod Queries
pub mod Results
pub mod Setup
use ka_im.Prelude.{
  ℕ, ◌≡◌, Bool, true, false, List, [], ◌∷◌, ◌++◌, Option, none, some, Bytes, if◌then◌else◌,
}
use ka_im.Prelude.Int.{ℤ, pos, negsuc, ◌==ℤ◌}

-- `m_mysql`, the handle by its address. `calls` is what the client library was asked for.
pub data Call : Type 0 where
  opens : Call
  connects : ℕ → Call
  sends : ℕ → Bytes → Call

pub record KaDbConn : Type 0 where
  pub mysql : Option ℕ
  pub calls : List Call

-- The constructor.
abbrev pub make : KaDbConn
make = record { mysql = none; calls = [] }

-- What `mysql_init` and `mysql_real_connect` answer.
pub record Opening : Type 0 where
  pub handle : Option ℕ
  pub connected : Bool

-- `Init`. The old handle is overwritten, not closed, and a handle that does not connect is kept.
unfoldable pub init : Opening → KaDbConn → ℤ × KaDbConn
init o c = elim o.handle [
  | none ↦ (negsuc 0, record { mysql = none; calls = c.calls ++ opens ∷ [] })
  | some h ↦ (
    if o.connected then pos 0 else negsuc 1,
    record { mysql = some h; calls = c.calls ++ opens ∷ connects h ∷ [] },
  )
]

-- What `mysql_real_query` comes to: success, CR_SERVER_GONE_ERROR, another error.
pub data Answer : Type 0 where
  accepted gone refused : Answer

-- `mysql_real_query` on the connection's handle.
abbrev pub real_query : Bytes → ℕ → KaDbConn → KaDbConn
real_query sql h c = record c { calls = c.calls ++ sends h sql ∷ [] }

-- `if(!m_mysql) { if(0 != Init()) return NULL; } if(!m_mysql) return NULL;`
unfoldable pub ready : Opening → KaDbConn → Option ℕ × KaDbConn
unfolding init
ready o c = elim c.mysql [
  | some h ↦ (some h, c)
  | none ↦ let (code, c') = init o c in if code ==ℤ pos 0 then (c'.mysql, c') else (none, c')
]

module _ {ℓ} {R : Type ℓ} where
  -- The second attempt, after the server was gone.
  unfoldable pub again : Opening → Answer → Option R → Bytes → KaDbConn → Option R × KaDbConn
  unfolding init
  again o answer result sql c =
      let (code, c') = init o c in
      if code ==ℤ pos 0
      then elim c'.mysql [
        | none ↦ (none, c')
        | some h ↦ elim answer [
          | accepted ↦ (result, real_query sql h c')
          | gone ↦ (none, real_query sql h c')
          | refused ↦ (none, real_query sql h c')
        ]
      ]
      else (none, c')

  -- `query`: openings for a connection that has none and for one whose server is gone, the answers to
  -- both attempts, and what `mysql_store_result` gives.
  unfoldable pub query :
      Opening → Opening → Answer → Answer → Option R → Bytes → KaDbConn → Option R × KaDbConn
  query o o' first second result sql c =
      let (handle, c') = ready o c in
      elim handle [
        | none ↦ (none, c')
        | some h ↦ elim first [
          | accepted ↦ (result, real_query sql h c')
          | gone ↦ again o' second result sql (real_query sql h c')
          | refused ↦ (none, real_query sql h c')
        ]
      ]

-- `execute`
unfoldable pub execute : Answer → Bytes → KaDbConn → Bool × KaDbConn
execute answer sql c = elim c.mysql [
  | none ↦ (false, c)
  | some h ↦ elim answer [
    | accepted ↦ (true, real_query sql h c)
    | gone ↦ (false, real_query sql h c)
    | refused ↦ (false, real_query sql h c)
  ]
]
