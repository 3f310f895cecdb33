-- ===== src/Database/Redis/Commands.antt =====
-- The commands of `CacheConn`, each by its failure value, the command that it sends, and what it
-- makes of a reply.
use ka_im.Prelude.{
  Bool, false, not, List, [], ◌∷◌, ◌++◌, none, some, Bytes, bytes, if◌then◌else◌, ◌==◌,
}
use ka_im.Prelude.Int.{ℤ, pos, negsuc, ◌==ℤ◌}
use ka_im.Database.Redis.Session.{
  Reply, string_reply, str_of, integer_of, Command, formatted, Answers, CacheConn, Outcome, done,
  fault, execute, init, dangling, no_context, live,
}

-- What `get` takes from a reply: the text, if it is a string.
abbrev pub string_of : Reply → Bytes
string_of r = elim r [ string_reply s ↦ s | _ ↦ [] ]

module _ (db : Bytes) (a : Answers) (c : CacheConn) where
  unfoldable pub get : Bytes → Outcome Bytes
  unfolding execute
  get key = execute [] (formatted (bytes "GET %s") (key ∷ [])) (λ r. some (string_of r)) db a c

  -- `timeout` in print.
  unfoldable pub set_expire : Bytes → Bytes → Bytes → Outcome Bytes
  unfolding execute
  set_expire key timeout value =
      execute [] (formatted (bytes "SETEX %s %d %s") (key ∷ timeout ∷ value ∷ []))
        (λ r. some (str_of r)) db a c

  unfoldable pub set : Bytes → Bytes → Outcome Bytes
  unfolding execute
  set key value =
      execute [] (formatted (bytes "SET %s %s") (key ∷ value ∷ [])) (λ r. some (str_of r)) db a c

  unfoldable pub incr_by : Bytes → Bytes → Outcome ℤ
  unfolding execute
  incr_by key value =
      execute (negsuc 0) (formatted (bytes "INCRBY %s %ld") (key ∷ value ∷ []))
        (λ r. some (integer_of r)) db a c

  unfoldable pub incr : Bytes → Outcome ℤ
  unfolding execute
  incr key =
      execute (negsuc 0) (formatted (bytes "INCR %s") (key ∷ [])) (λ r. some (integer_of r)) db a c

  unfoldable pub decr : Bytes → Outcome ℤ
  unfolding execute
  decr key =
      execute (negsuc 0) (formatted (bytes "DECR %s") (key ∷ [])) (λ r. some (integer_of r)) db a c

  unfoldable pub hdel : Bytes → Bytes → Outcome ℤ
  unfolding execute
  hdel key field =
      execute (pos 0) (formatted (bytes "HDEL %s %s") (key ∷ field ∷ [])) (λ r. some (integer_of r))
        db a c

  -- The text of the command is "GET", with two arguments.
  unfoldable pub hget : Bytes → Bytes → Outcome Bytes
  unfolding execute
  hget key field =
      execute [] (formatted (bytes "GET %s %s") (key ∷ field ∷ [])) (λ r. some (str_of r)) db a c

  unfoldable pub hset : Bytes → Bytes → Bytes → Outcome ℤ
  unfolding execute
  hset key field value =
      execute (negsuc 0) (formatted (bytes "HSET %s %s %s") (key ∷ field ∷ value ∷ []))
        (λ r. some (integer_of r)) db a c

  unfoldable pub hincr_by : Bytes → Bytes → Bytes → Outcome ℤ
  unfolding execute
  hincr_by key field value =
      execute (negsuc 0) (formatted (bytes "HINCRBY %s %s %ld") (key ∷ field ∷ value ∷ []))
        (λ r. some (integer_of r)) db a c

  unfoldable pub lpush : Bytes → Bytes → Outcome ℤ
  unfolding execute
  lpush key value =
      execute (negsuc 0) (formatted (bytes "LPUSH %s %s") (key ∷ value ∷ []))
        (λ r. some (integer_of r)) db a c

  unfoldable pub rpush : Bytes → Bytes → Outcome ℤ
  unfolding execute
  rpush key value =
      execute (negsuc 0) (formatted (bytes "RPUSH %s %s") (key ∷ value ∷ []))
        (λ r. some (integer_of r)) db a c

  unfoldable pub llen : Bytes → Outcome ℤ
  unfolding execute
  llen key =
      execute (negsuc 0) (formatted (bytes "LLEN %s") (key ∷ [])) (λ r. some (integer_of r)) db a c

  -- Unlike the others it frees the context and keeps the pointer.
  exist_sent : Bytes → CacheConn → List Command → Outcome Bool
  exist_sent key c' before =
      let command = formatted (bytes "EXISTS %s") (key ∷ []) in
      elim c'.context [
        | dangling ↦ fault
        | no_context ↦ fault
        | live ↦ elim a.reply [
          | none ↦ done false (record c' { context = dangling }) (before ++ command ∷ [])
          | some r ↦ done (not (integer_of r ==ℤ pos 0)) c' (before ++ command ∷ [])
        ]
      ]

  unfoldable pub is_exist : Bytes → Outcome Bool
  unfolding exist_sent init
  is_exist key =
      let (code, c', before) = init db a c in
      if code == 0 then exist_sent key c' before else done false c' before
