-- ===== src/Database/Redis/Safety.antt =====
-- Sequences of commands on one connection, and `isExist` by itself.
use ka_im.Prelude.{
  ℕ, ◌≡◌, ◌≢◌, refl, List, [], ◌∷◌, Option, none, some, Bytes, arith, Option-cases, Bool-cases, inl,
  inr, ◌==◌,
}
use ka_im.Database.Redis.Session.{
  Reply, Command, Answers, CacheConn, live, dangling, Outcome, done, fault, execute, sent, init,
  destroy,
}
use ka_im.Database.Redis.Commands.{
  get, set_expire, set, incr_by, incr, decr, hdel, hget, hset, hincr_by, lpush, rpush, llen,
  is_exist,
}
use ka_im.Database.Redis.Maps.{hmset, hmget, lrange}

abbrev pub IsSafe {ℓ} : {A : Type ℓ} → Outcome A → Type 0
IsSafe (done v c sent) = c.context ≢ dangling
IsSafe fault = ⊥

-- The context after an `Init` that returned zero.
init-live :
    (db : Bytes) (a : Answers) (c : CacheConn)
    → c.context ≢ dangling
    → ((init db a c).0 ≡ 0 → (init db a c).1.context ≡ live) × ((init db a c).1.context ≢ dangling)
unfolding init
init-live db a c h = ground arith

module _ {ℓ} {A : Type ℓ} (failure : A) (command : Command) (use_reply : Reply → Option A) where
  sent_at :
      (o : Option Reply) (a : Answers) (c : CacheConn) (before : List Command)
      → a.reply ≡ o
      → ((r : Reply) → use_reply r ≢ none)
      → c.context ≡ live
      → IsSafe (sent failure command use_reply a c before)
  unfolding sent
  sent_at none a c before e total h = rw (h, e) (λ p. cc)
  sent_at (some r) a c before e total h = elim (Option-cases (use_reply r)) [
    | inl n ↦ absurd (total r n)
    | inr (v, q) ↦ rw (h, e, sent, q) (λ p. cc)
  ]

  execute-IsSafe :
      (db : Bytes) (a : Answers) (c : CacheConn)
      → ((r : Reply) → use_reply r ≢ none)
      → c.context ≢ dangling
      → IsSafe (execute failure command use_reply db a c)
  unfolding execute
  execute-IsSafe db a c total h = elim (Bool-cases ((init db a c).0 == 0)) [
    | inl z ↦ rw z (
        sent_at a.reply a (init db a c).1 (init db a c).2 refl total
          ((init-live db a c h).0 (ground arith)))
    | inr nz ↦ rw nz (init-live db a c h).1
  ]

-- The commands that read no further than a reply goes.
pub data Op : Type 0 where
  gets incrs decrs llens : Bytes → Op
  sets incr_bys hdels hgets lpushes rpushes : Bytes → Bytes → Op
  set_expires hsets hincr_bys lranges : Bytes → Bytes → Bytes → Op
  hmsets : Bytes → List (Bytes × Bytes) → Op
  hmgets : Bytes → List Bytes → Op

-- The connection that a call leaves, or none after a fault.
abbrev pub left {ℓ} : {A : Type ℓ} → Outcome A → Option CacheConn
left (done v c sent) = some c
left fault = none

unfoldable pub step : Bytes → Answers → CacheConn → Op → Option CacheConn
step db a c (gets k) = left (get db a c k)
step db a c (incrs k) = left (incr db a c k)
step db a c (decrs k) = left (decr db a c k)
step db a c (llens k) = left (llen db a c k)
step db a c (sets k v) = left (set db a c k v)
step db a c (incr_bys k v) = left (incr_by db a c k v)
step db a c (hdels k f) = left (hdel db a c k f)
step db a c (hgets k f) = left (hget db a c k f)
step db a c (lpushes k v) = left (lpush db a c k v)
step db a c (rpushes k v) = left (rpush db a c k v)
step db a c (set_expires k t v) = left (set_expire db a c k t v)
step db a c (hsets k f v) = left (hset db a c k f v)
step db a c (hincr_bys k f v) = left (hincr_by db a c k f v)
step db a c (lranges k s e) = left (lrange db a c k s e)
step db a c (hmsets k m) = left (hmset db a c k m)
step db a c (hmgets k fs) = left (hmget db a c k fs)

unfoldable pub run : Bytes → CacheConn → List (Answers × Op) → Option CacheConn
run db c [] = some c
run db c ((a, op) ∷ ops) = elim (step db a c op) [ none ↦ none | some c' ↦ run db c' ops ]

left-IsSafe {ℓ} :
    {A : Type ℓ} (o : Outcome A)
    → IsSafe o
    → (d : CacheConn) × (left o ≡ some d) × (d.context ≢ dangling)
left-IsSafe (done v c sent) h = (c, refl, h)
left-IsSafe fault h = absurd h

some-ne-none {ℓ} : {A : Type ℓ} (f : Reply → A) (r : Reply) → some (f r) ≢ none
some-ne-none f r e = cc

step-IsSafe :
    (db : Bytes) (a : Answers) (c : CacheConn) (op : Op)
    → c.context ≢ dangling
    → (d : CacheConn) × (step db a c op ≡ some d) × (d.context ≢ dangling)
unfolding step get set_expire set incr_by incr decr hdel hget hset hincr_by lpush rpush llen hmset
    hmget lrange
step-IsSafe db a c (gets k) h = left-IsSafe _ (execute-IsSafe _ _ _ db a c (some-ne-none _) h)
step-IsSafe db a c (incrs k) h = left-IsSafe _ (execute-IsSafe _ _ _ db a c (some-ne-none _) h)
step-IsSafe db a c (decrs k) h = left-IsSafe _ (execute-IsSafe _ _ _ db a c (some-ne-none _) h)
step-IsSafe db a c (llens k) h = left-IsSafe _ (execute-IsSafe _ _ _ db a c (some-ne-none _) h)
step-IsSafe db a c (sets k v) h = left-IsSafe _ (execute-IsSafe _ _ _ db a c (some-ne-none _) h)
step-IsSafe db a c (incr_bys k v) h = left-IsSafe _ (execute-IsSafe _ _ _ db a c (some-ne-none _) h)
step-IsSafe db a c (hdels k f) h = left-IsSafe _ (execute-IsSafe _ _ _ db a c (some-ne-none _) h)
step-IsSafe db a c (hgets k f) h = left-IsSafe _ (execute-IsSafe _ _ _ db a c (some-ne-none _) h)
step-IsSafe db a c (lpushes k v) h = left-IsSafe _ (execute-IsSafe _ _ _ db a c (some-ne-none _) h)
step-IsSafe db a c (rpushes k v) h = left-IsSafe _ (execute-IsSafe _ _ _ db a c (some-ne-none _) h)
step-IsSafe db a c (set_expires k t v) h =
    left-IsSafe _ (execute-IsSafe _ _ _ db a c (some-ne-none _) h)
step-IsSafe db a c (hsets k f v) h = left-IsSafe _ (execute-IsSafe _ _ _ db a c (some-ne-none _) h)
step-IsSafe db a c (hincr_bys k f v) h =
    left-IsSafe _ (execute-IsSafe _ _ _ db a c (some-ne-none _) h)
step-IsSafe db a c (lranges k s e) h =
    left-IsSafe _ (execute-IsSafe _ _ _ db a c (some-ne-none _) h)
step-IsSafe db a c (hmsets k m) h = left-IsSafe _ (execute-IsSafe _ _ _ db a c (some-ne-none _) h)
step-IsSafe db a c (hmgets k fs) h = left-IsSafe _ (execute-IsSafe _ _ _ db a c (some-ne-none _) h)

-- From a connection whose context is not a freed one, no sequence of the commands of `Op`, whatever
-- Redis answers, uses a freed context: each ends, and leaves the pointer NULL or usable.
pub run-IsSafe :
    (db : Bytes) (c : CacheConn) (ops : List (Answers × Op))
    → c.context ≢ dangling
    → (d : CacheConn) × (run db c ops ≡ some d) × (d.context ≢ dangling)
unfolding run
run-IsSafe db c [] h = (c, refl, h)
run-IsSafe db c ((a, op) ∷ ops) h =
    let s = step-IsSafe db a c op h in
    let r = run-IsSafe db s.0 ops s.2 in (r.0, rw (s.1, run) r.1, r.2)

step_dangling :
    (db : Bytes) (b : Answers) (time : ℕ) (op : Op)
    → step db b (record { context = dangling; last_connect_time = time }) op ≡ none
unfolding step get set_expire set incr_by incr decr hdel hget hset hincr_by lpush rpush llen hmset
    hmget lrange
step_dangling db b time (gets k) = refl
step_dangling db b time _ = refl

-- After `isExist` on a usable context got no reply, the pointer to the freed context is kept, and
-- every command of `Op` that follows uses it, `isExist` too; the destructor frees it again.
pub is_exist_dangles :
    (db : Bytes) (a b : Answers) (c : CacheConn) (key : Bytes) (op : Op)
    → c.context ≡ live
    → a.reply ≡ none
    → (d : CacheConn) × (left (is_exist db a c key) ≡ some d)
      × (step db b d op ≡ none)
      × (is_exist db b d key ≡ fault)
      × (destroy d ≡ none)
unfolding is_exist destroy
is_exist_dangles db a b c key op h r = (
  record c { context = dangling },
  ground arith,
  step_dangling db b c.last_connect_time op,
  ground arith,
  refl,
)
