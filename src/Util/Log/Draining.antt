-- ===== src/Util/Log/Draining.antt =====
-- The lines of a log whose threads take turns, up to the end of the writing thread.
use mathlib.Core.Path.{subst}
use ka_im.Prelude.{
  ℕ, zero, suc, ◌+◌, ◌≡◌, refl, sym, ap, ◌∙◌, true, false, List, [], ◌∷◌, ◌++◌, append_assoc,
  append-nil, Bytes, length, ltb, inl, inr, Bool-cases, if◌then◌else◌, arith,
}
use ka_im.Util.Log.{KaLog, Outside, is_empty}
use ka_im.Util.Log.Writing.{Works, NoneEmpty, joined, text_of}
use ka_im.Util.Log.Logging.{made}
use ka_im.Util.Log.Turns.{
  Running, Turn, outputs, runs, step, run, begins, tell_exit, alone, begun_lem,
}
use ka_im.Util.Log.Order.{
  calls_of, GoWell, InOrder, runs_over, runs_idle, runs_busy, output-InOrder, idle-InOrder,
  busy-InOrder,
}

at_rest :
    (first : KaLog) (lines : List Bytes) (t : Running) (o : Outside) (queue : List Bytes)
    → Works o
    → InOrder first lines t
    → t.ended ≡ false
    → t.log.lines ≡ queue
    → InOrder first lines (step (runs o) t)
at_rest first lines t o [] w v e q =
    subst (InOrder first lines) (sym (runs_idle t o t.log.exit w v.named e refl q)) (
      idle-InOrder first lines t o (if t.log.exit then t.waiting else true) t.log.exit w v (λ x. x))
at_rest first lines t o (line ∷ rest) w v e q =
    let (written, es, f, g) =
      runs_busy t o line rest w v.named e q (subst NoneEmpty q v.filled).0 in
    subst (InOrder first lines) (sym f)
      (busy-InOrder first lines t o line rest written es w v q g e)

runs-InOrder :
    (first : KaLog) (lines : List Bytes) (t : Running) (o : Outside)
    → Works o
    → InOrder first lines t
    → InOrder first lines (step (runs o) t)
runs-InOrder first lines t o w v = elim (Bool-cases t.ended) [
  | inl e ↦ subst (InOrder first lines) (sym (runs_over t o e)) v
  | inr e ↦ at_rest first lines t o t.log.lines w v e refl
]

made_cons :
    (n : ℕ) (o : Outside) (calls : List (ℕ × Outside)) (l : KaLog)
    → made ((n, o) ∷ calls) l ≡ made ((n, o) ∷ []) l ++ made calls l
made_cons n o calls l = elim (Bool-cases (ltb n l.current_level)) [
  | inl below ↦ rw below refl
  | inr kept ↦ rw kept refl
]

run-InOrder :
    (turns : List Turn) (first : KaLog) (lines : List Bytes) (t : Running)
    → GoWell turns
    → InOrder first lines t
    → InOrder first (lines ++ made (calls_of turns) first) (run turns t)
unfolding run
run-InOrder [] first lines t h v = subst (λ ls. InOrder first ls t) (sym (append-nil lines)) v
run-InOrder (outputs n o ∷ turns) first lines t h v =
    subst (λ ls. InOrder first ls (run turns (step (outputs n o) t)))
      (append_assoc lines (made ((n, o) ∷ []) first) (made (calls_of turns) first)
        ∙ ap (λ ls. lines ++ ls) (sym (made_cons n o (calls_of turns) first)))
      (run-InOrder turns first (lines ++ made ((n, o) ∷ []) first) (step (outputs n o) t) h.1
        (output-InOrder first lines t n o h.0 v))
run-InOrder (runs o ∷ turns) first lines t h v =
    run-InOrder turns first lines (step (runs o) t) h.1 (runs-InOrder first lines t o h.0 v)

-- The thread alone, told to end, takes the queue to its end.
drained :
    (queue : List Bytes) (first : KaLog) (lines : List Bytes) (t : Running) (outs : ℕ → Outside)
    (round : ℕ)
    → ((r : ℕ) → Works (outs r))
    → InOrder first lines t
    → t.log.exit ≡ true
    → t.ended ≡ false
    → t.log.lines ≡ queue
    → ((run (alone (suc (length queue)) outs round) t).ended ≡ true)
      × ((run (alone (suc (length queue)) outs round) t).log.lines ≡ [])
unfolding run alone
drained [] first lines t outs round w v x e q =
    let f = runs_idle t (outs round) true (w round) v.named e x q in
    (
      ap (λ u. u.ended) f,
      ap (λ u. u.log.lines) f ∙ (begun_lem t.waiting (outs round) t.log (w round) v.named).0 ∙ q,
    )
drained (line ∷ rest) first lines t outs round w v x e q =
    let (written, es, f, g) =
      runs_busy t (outs round) line rest (w round) v.named e q (subst NoneEmpty q v.filled).0 in
    drained rest first lines (step (runs (outs round)) t) outs (round + 1) w
      (runs-InOrder first lines t (outs round) (w round) v)
      (ap (λ u. u.log.exit) f ∙ (begun_lem t.waiting (outs round) t.log (w round) v.named).1 ∙ x)
      (ap (λ u. u.ended) f ∙ e) (ap (λ u. u.log.lines) f)

alone-GoWell :
    (n : ℕ) (outs : ℕ → Outside) (round : ℕ)
    → ((r : ℕ) → Works (outs r))
    → GoWell (alone n outs round)
unfolding alone
alone-GoWell zero outs round w = tt
alone-GoWell (suc n) outs round w = (w round, alone-GoWell n outs (round + 1) w)

calls_of-alone : (n : ℕ) (outs : ℕ → Outside) (round : ℕ) → calls_of (alone n outs round) ≡ []
unfolding alone
calls_of-alone zero outs round = refl
calls_of-alone (suc n) outs round = calls_of-alone n outs (round + 1)

begins-InOrder : (l : KaLog) → is_empty l.file_name ≡ false → l.lines ≡ [] → InOrder l [] (begins l)
begins-InOrder l n e = record {
  named = n;
  same = (refl, refl, refl);
  filled = rw e tt;
  text = rw e refl;
  still = refl;
  runs_on = λ _. refl;
}

-- The thread is told to end.
tell_exit-InOrder :
    (first : KaLog) (lines : List Bytes) (t : Running)
    → InOrder first lines t
    → InOrder (record first { exit = true }) lines (tell_exit t)
tell_exit-InOrder first lines t v = record {
  named = v.named;
  same = v.same;
  filled = v.filled;
  text = v.text;
  still = refl;
  runs_on = λ e. ground (arith, e);
}

emptied :
    (first : KaLog) (lines : List Bytes) (t : Running)
    → InOrder first lines t
    → t.log.lines ≡ []
    → text_of t.events ≡ joined lines
emptied first lines t v e =
    sym (append-nil (text_of t.events)) ∙ ap (λ q. text_of t.events ++ joined q) (sym e) ∙ v.text

-- The log has a named file, an empty queue and a thread that is not told to end. Threads call `output`,
-- never for a fatal message, and the writing thread has its rounds, in any interleaving, and files open
-- and writes take a byte at least. Then what is written and the lines still in the queue are together
-- the lines of the calls that are not below the level, in the order of the calls, each once and whole;
-- and when the thread is told to end and has a round more than the queue has lines, while no other
-- thread calls, it has ended, the queue is empty, and all these lines are written.
pub run-tell_exit :
    (turns : List Turn) (outs : ℕ → Outside) (l : KaLog)
    → GoWell turns
    → ((r : ℕ) → Works (outs r))
    → is_empty l.file_name ≡ false
    → l.lines ≡ []
    → l.exit ≡ false
    → let t = run turns (begins l) in
      let last = run (alone (suc (length t.log.lines)) outs 0) (tell_exit t) in
      (text_of t.events ++ joined t.log.lines ≡ joined (made (calls_of turns) l))
      × (last.ended ≡ true)
      × (last.log.lines ≡ [])
      × (text_of last.events ≡ joined (made (calls_of turns) l))
run-tell_exit turns outs l h w n e x =
    let t = run turns (begins l) in
    let rounds = alone (suc (length t.log.lines)) outs 0 in
    let first = record l { exit = true } in
    let lines = made (calls_of turns) l in
    let v = run-InOrder turns l [] (begins l) h (begins-InOrder l n e) in
    let told = tell_exit-InOrder l lines t v in
    let (ended, empty) =
      drained t.log.lines first lines (tell_exit t) outs 0 w told refl (v.runs_on (v.still ∙ x))
        refl in
    let all : InOrder first lines (run rounds (tell_exit t)) =
      subst (λ ls. InOrder first ls (run rounds (tell_exit t)))
        (ap (λ calls. lines ++ made calls first) (calls_of-alone (suc (length t.log.lines)) outs 0)
          ∙ append-nil lines)
        (run-InOrder rounds first lines (tell_exit t)
          (alone-GoWell (suc (length t.log.lines)) outs 0 w) told) in
    (v.text, ended, empty, emptied first lines (run rounds (tell_exit t)) all empty)
