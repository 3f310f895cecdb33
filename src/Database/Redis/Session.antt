-- ===== src/Database/Redis/Session.antt =====
-- `CacheConn` of DataBase/KaRedis/KaCachePool.h and KaCachePool.cpp: the connection, `Init`, and the
-- frame that its commands share. hiredis is not part of the repository: what its calls answer is an
-- argument of each method. A use of a freed context is a fault.
use ka_im.Prelude.{
  ℕ, ◌+◌, Bool, false, List, [], ◌∷◌, ◌++◌, Option, none, some, Bytes, bytes, bytes_eq, take, ltb,
  if◌then◌else◌, ◌==◌,
}
use ka_im.Prelude.Int.{ℤ, pos}

-- A `redisReply`, by its type. hiredis leaves the fields that a type does not use at zero.
pub record Element : Type 0 where
  pub is_string : Bool
  pub str : Bytes

pub data Reply : Type 0 where
  status_reply string_reply error_reply : Bytes → Reply
  integer_reply : ℤ → Reply
  array_reply : List Element → Reply
  nil_reply : Reply

-- `reply->str` with `reply->len`, and `reply->integer`.
abbrev pub str_of : Reply → Bytes
str_of (status_reply s) = s
str_of (string_reply s) = s
str_of (error_reply s) = s
str_of (integer_reply n) = []
str_of (array_reply es) = []
str_of nil_reply = []

abbrev pub integer_of : Reply → ℤ
integer_of (integer_reply n) = n
integer_of r = pos 0

-- What is sent: a format with its arguments, by `redisCommand`, or words, by `redisCommandArgv`.
pub data Command : Type 0 where
  connects : Command
  formatted : Bytes → List Bytes → Command
  words : List Bytes → Command

-- `m_pContext`: NULL, a context that can be used, or a pointer to one that was freed.
pub data Context : Type 0 where
  no_context live dangling : Context

pub record CacheConn : Type 0 where
  pub context : Context
  pub last_connect_time : ℕ

-- The constructor.
abbrev pub make : CacheConn
make = record { context = no_context; last_connect_time = 0 }

-- The destructor, which frees a context that is there. None: it frees one that was freed before.
unfoldable pub destroy : CacheConn → Option CacheConn
destroy c = elim c.context [
  | no_context ↦ some c
  | live ↦ some (record c { context = no_context })
  | dangling ↦ none
]

-- `redisConnectWithTimeout`: no context, one with its error set, or a usable one.
pub data Connect : Type 0 where
  refused with_error connected : Connect

-- What the outside answers to one call of a method: `time`, the connect, the "select", the command.
pub record Answers : Type 0 where
  pub cur_time : ℕ
  pub connect : Connect
  pub select : Option Reply
  pub reply : Option Reply

-- `reply && reply->type == REDIS_REPLY_STATUS && strncmp(reply->str, "OK", 2) == 0`
abbrev pub select_ok : Option Reply → Bool
select_ok none = false
select_ok (some r) = elim r [ status_reply s ↦ bytes_eq (take 2 s) (bytes "OK") | _ ↦ false ]

abbrev pub select_command : Bytes → Command
select_command db = formatted (bytes "select %d") (db ∷ [])

open_context : Bytes → Answers → CacheConn → ℕ × CacheConn × List Command
open_context db a c = elim a.connect [
  | refused ↦ (1, c, connects ∷ [])
  | with_error ↦ (1, c, connects ∷ [])
  | connected ↦ (
    if select_ok a.select then 0 else 2,
    record c { context = live },
    connects ∷ select_command db ∷ [],
  )
]

-- `Init`: its result, the connection afterwards, and what was sent. `db` is `getDBNum()` in print.
-- An existing context is not looked at, so a freed one passes.
unfoldable pub init : Bytes → Answers → CacheConn → ℕ × CacheConn × List Command
unfolding open_context
init db a c = elim c.context [
  | live ↦ (0, c, [])
  | dangling ↦ (0, c, [])
  | no_context ↦
      if ltb a.cur_time (c.last_connect_time + 4)
      then (1, c, [])
      else open_context db a (record c { last_connect_time = a.cur_time })
]

-- A method's end: its result, the connection and what was sent; or a use of freed memory, or of
-- memory past the end of a text.
pub data Outcome {ℓ} (A : Type ℓ) : Type ℓ where
  done : A → CacheConn → List Command → Outcome A
  fault : Outcome A

-- `m_pContext = NULL` after `redisFree`.
abbrev pub dropped : CacheConn → CacheConn
dropped c = record c { context = no_context }

module _ {ℓ} {A : Type ℓ} (failure : A) (command : Command) (use_reply : Reply → Option A) where
  -- `redisCommand` on the context, and what follows it: without a reply the context is freed.
  unfoldable pub sent : Answers → CacheConn → List Command → Outcome A
  sent a c before = elim c.context [
    | dangling ↦ fault
    | no_context ↦ fault
    | live ↦ elim a.reply [
      | none ↦ done failure (dropped c) (before ++ command ∷ [])
      | some r ↦ elim (use_reply r) [ none ↦ fault | some v ↦ done v c (before ++ command ∷ []) ]
    ]
  ]

  -- The shape of a command: `if (Init()) return failure;`, the call, the test of the reply.
  unfoldable pub execute : Bytes → Answers → CacheConn → Outcome A
  unfolding sent init
  execute db a c =
      let (code, c', before) = init db a c in
      if code == 0 then sent a c' before else done failure c' before
