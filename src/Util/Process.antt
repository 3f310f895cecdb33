-- ===== src/Util/Process.antt =====
-- Util/DaemonRun.cpp and Util/KaSingleton.h. A process is its open descriptors and what it did on the
-- way; a file is known by a number. What `fork` and `open` answer is an argument.
use mathlib.Core.Path.{fun_ext}
use ka_im.Prelude.{
  ℕ, ◌+◌, ◌≡◌, Bool, true, List, ◌∷◌, Option, none, some, arith, ltb, leb, ◌==◌, if◌then◌else◌,
}
use ka_im.Prelude.Int.{ℤ, pos, negsuc}

pub record Process : Type 0 where
  pub ignores_children : Bool
  pub leads_session : Bool
  pub files : ℕ → Option ℕ

pub data Ended : Type 0 where
  exits : ℤ → Ended
  goes_on : Process → Ended

-- `::dup2(from, to)` and `::close(fd)`, on descriptors that are open.
abbrev pub dup2 : ℕ → ℕ → Process → Process
dup2 from to p = record p { files = λ n. if n == to then p.files from else p.files n }

abbrev pub close : ℕ → Process → Process
close fd p = record p { files = λ n. if n == fd then none else p.files n }

-- What `open` does where it gives `fd`.
abbrev pub opened : ℕ → ℕ → Process → Process
opened fd file p = record p { files = λ n. if n == fd then some file else p.files n }

-- The child after `::setsid`: `null` is the file /dev/null, and `open` gives a descriptor or fails.
unfoldable pub redirect : ℕ → Option ℕ → Process → Process
redirect null none p = p
redirect null (some fd) p =
    let q = dup2 fd 2 (dup2 fd 1 (dup2 fd 0 (opened fd null p))) in
    if ltb 2 fd then close fd q else q

-- `daemon_run`, in the process that `fork` returns to with `pid`.
unfoldable pub daemon_run : ℕ → ℤ → Option ℕ → Process → Ended
unfolding redirect
daemon_run null pid answer p =
    let quiet = record p { ignores_children = true } in
    elim pid [
      | negsuc n ↦ exits (negsuc 0)
      | pos n ↦
          if ltb 0 n
          then exits (pos 0)
          else goes_on (redirect null answer (record quiet { leads_session = true }))
    ]

-- The descriptors of a daemon: /dev/null on the first three, the others as they were.
abbrev redirected : ℕ → Process → ℕ → Option ℕ
redirected null p n = if leb n 2 then some null else p.files n

redirect_files :
    (null fd : ℕ) (p : Process) (n : ℕ)
    → p.files fd ≡ none
    → (redirect null (some fd) p).files n ≡ redirected null p n
unfolding redirect
redirect_files null fd p n h = ground (arith, h)

-- In the child, where `open` gives a descriptor that was not open before, the daemon goes on as the
-- leader of its session with /dev/null for its input, output and errors, and with no descriptor
-- opened or closed beside these three.
pub daemon_run-child :
    (null fd : ℕ) (p : Process)
    → p.files fd ≡ none
    → daemon_run null (pos 0) (some fd) p
      ≡ goes_on
          (record { ignores_children = true; leads_session = true; files = redirected null p })
unfolding daemon_run
daemon_run-child null fd p h =
    let child = record p { ignores_children = true; leads_session = true } in
    let same : (redirect null (some fd) child).files ≡ redirected null p =
      fun_ext λ n. redirect_files null fd child n h in
    let led : (redirect null (some fd) child).leads_session ≡ true =
      unfold redirect in ground arith in
    let quiet : (redirect null (some fd) child).ignores_children ≡ true =
      unfold redirect in ground arith in
    λ i. goes_on (record { ignores_children = quiet i; leads_session = led i; files = same i })

-- `KaSingleton<T>`: `m_value`, and how many objects were made. A pointer that was deleted is kept.
pub record KaSingleton : Type 0 where
  pub value : Option ℕ
  pub made : ℕ
  pub deleted : List ℕ

-- `init`
unfoldable pub init : KaSingleton → KaSingleton
init s = record s { value = some s.made; made = s.made + 1 }

-- `Instance`: the object that it gives.
unfoldable pub instance_of : KaSingleton → Option ℕ × KaSingleton
unfolding init
instance_of s = elim s.value [ some v ↦ (some v, s) | none ↦ ((init s).value, init s) ]

-- `destory`, which leaves the pointer as it is; deleting a null pointer does nothing.
unfoldable pub destory : KaSingleton → KaSingleton
destory s = elim s.value [ none ↦ s | some v ↦ record s { deleted = v ∷ s.deleted } ]

instance_at :
    (s : KaSingleton) (v : ℕ) → (instance_of s).0 ≡ some v → (instance_of s).1.value ≡ some v
unfolding instance_of init
instance_at s v h = ground (arith, h)

-- After an object was given out and deleted, `Instance` gives the deleted object again.
pub instance_of-destory :
    (s : KaSingleton) (v : ℕ)
    → (instance_of s).0 ≡ some v
    → let (again, s') = instance_of (destory (instance_of s).1) in
      (again ≡ some v) × (s'.deleted ≡ v ∷ (instance_of s).1.deleted)
unfolding destory
instance_of-destory s v h = unfold instance_of in ground (arith, instance_at s v h)
