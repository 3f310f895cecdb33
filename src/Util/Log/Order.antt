-- ===== src/Util/Log/Order.antt =====
-- What the writing thread has written at any time, and in the end.
use mathlib.Core.Path.{subst}
use ka_im.Prelude.{
  ℕ, ◌+◌, ◌<◌, ◌≡◌, ◌≢◌, refl, sym, ap, ◌∙◌, Bool, true, false, List, [], ◌∷◌, ◌++◌, append_assoc,
  append-nil, Bytes, length, ltb, arith, if◌then◌else◌,
}
use ka_im.Util.Log.{KaLog, Outside, Event, is_empty, make_line, level_fatal, output}
use ka_im.Util.Log.Writing.{Works, NoneEmpty, joined, text_of, text_of-append}
use ka_im.Util.Log.Logging.{made, queued, output_lem, make_line-some}
use ka_im.Util.Log.Turns.{
  Running, Turn, outputs, runs, step, begun, opened, SameSettings, begun_lem, round_empty,
  round_line,
}

-- The calls of `output` in a sequence of turns.
abbrev pub calls_of : List Turn → List (ℕ × Outside)
calls_of [] = []
calls_of (outputs n o ∷ turns) = (n, o) ∷ calls_of turns
calls_of (runs o ∷ turns) = calls_of turns

-- No call is fatal, and the thread's files open and take a byte at least.
abbrev pub GoWell : List Turn → Type 0
GoWell [] = Unit {0}
GoWell (outputs n o ∷ turns) = (n ≢ level_fatal) × GoWell turns
GoWell (runs o ∷ turns) = Works o × GoWell turns

joined-append : (xs ys : List Bytes) → joined (xs ++ ys) ≡ joined xs ++ joined ys
joined-append [] ys = refl
joined-append (x ∷ xs) ys =
    ap (λ t. x ++ t) (joined-append xs ys) ∙ sym (append_assoc x (joined xs) (joined ys))

NoneEmpty-append :
    (xs : List Bytes) (line : Bytes) → NoneEmpty xs → 0 < length line → NoneEmpty (xs ++ line ∷ [])
NoneEmpty-append [] line n h = (h, tt)
NoneEmpty-append (x ∷ xs) line n h = (n.0, NoneEmpty-append xs line n.1 h)

make_line_same :
    (n : ℕ) (o : Outside) (l m : KaLog) → SameSettings l m → make_line n o l ≡ make_line n o m
unfolding make_line
make_line_same n o l m s = rw (s.0, s.1) refl

output-silent : (n : ℕ) (o : Outside) (l : KaLog) → n ≢ level_fatal → (output n o l).2 ≡ []
unfolding output
output-silent n o l h = ground (arith, h)

-- What has been written and what is in the queue are together the lines of the calls so far.
pub record InOrder (first : KaLog) (lines : List Bytes) (t : Running) : Type 0 where
  pub named : is_empty t.log.file_name ≡ false
  pub same : SameSettings t.log first
  pub filled : NoneEmpty t.log.lines
  pub text : text_of t.events ++ joined t.log.lines ≡ joined lines
  pub still : t.log.exit ≡ first.exit
  pub runs_on : t.log.exit ≡ false → t.ended ≡ false

pushed :
    (first : KaLog) (lines : List Bytes) (t : Running) (line : Bytes)
    → 0 < length line
    → InOrder first lines t
    → InOrder first (lines ++ line ∷ []) (record t { log = queued (line ∷ []) t.log })
pushed first lines t line h v = record {
  named = v.named;
  same = v.same;
  filled = NoneEmpty-append t.log.lines line v.filled h;
  text =
      ap (λ s. text_of t.events ++ s) (joined-append t.log.lines (line ∷ []))
      ∙ sym (append_assoc (text_of t.events) (joined t.log.lines) (joined (line ∷ [])))
      ∙ ap (λ s. s ++ joined (line ∷ [])) v.text
      ∙ sym (joined-append lines (line ∷ []));
  still = v.still;
  runs_on = v.runs_on;
}

output_step :
    (t : Running) (n : ℕ) (o : Outside)
    → n ≢ level_fatal
    → step (outputs n o) t ≡ record t {
      log = if ltb n t.log.current_level then t.log else queued (make_line n o t.log ∷ []) t.log;
    }
unfolding step
output_step t n o h =
    ap (λ l. record t { log = l; events = t.events ++ (output n o t.log).2 })
      (output_lem n o t.log h)
    ∙ ap
        (λ es. record t {
          log =
              if ltb n t.log.current_level then t.log else queued (make_line n o t.log ∷ []) t.log;
          events = es;
        })
        (ap (λ es. t.events ++ es) (output-silent n o t.log h) ∙ append-nil t.events)

output_at :
    (first : KaLog) (lines : List Bytes) (t : Running) (n : ℕ) (o : Outside) (below : Bool)
    → ltb n first.current_level ≡ below
    → InOrder first lines t
    → InOrder first
        (lines ++ made ((n, o) ∷ []) first)
        (record t { log = if below then t.log else queued (make_line n o first ∷ []) t.log })
output_at first lines t n o true e v =
    rw e (subst (λ ls. InOrder first ls t) (sym (append-nil lines)) v)
output_at first lines t n o false e v =
    rw e (pushed first lines t (make_line n o first) (make_line-some n o first) v)

pub output-InOrder :
    (first : KaLog) (lines : List Bytes) (t : Running) (n : ℕ) (o : Outside)
    → n ≢ level_fatal
    → InOrder first lines t
    → InOrder first (lines ++ made ((n, o) ∷ []) first) (step (outputs n o) t)
output-InOrder first lines t n o h v =
    subst (InOrder first (lines ++ made ((n, o) ∷ []) first))
      (sym (
        output_step t n o h
        ∙ ap
            (λ line. record t {
              log = if ltb n t.log.current_level then t.log else queued (line ∷ []) t.log;
            })
            (make_line_same n o t.log first v.same)))
      (output_at first lines t n o (ltb n t.log.current_level) (ap (ltb n) (sym v.same.2)) v)

-- A round that found no line.
pub idle-InOrder :
    (first : KaLog) (lines : List Bytes) (t : Running) (o : Outside) (waiting ended : Bool)
    → Works o
    → InOrder first lines t
    → (t.log.exit ≡ false → ended ≡ false)
    → InOrder first lines (record t {
      log = begun t.waiting o t.log;
      waiting = waiting;
      ended = ended;
      events = t.events ++ opened t.waiting o t.log;
    })
idle-InOrder first lines t o waiting ended w v h =
    let (kept, exit, silent, same) = begun_lem t.waiting o t.log w v.named in
    record {
      named = ap is_empty same.1 ∙ v.named;
      same = (same.0 ∙ v.same.0, same.1 ∙ v.same.1, same.2 ∙ v.same.2);
      filled = subst NoneEmpty (sym kept) v.filled;
      text =
          ap (λ s. s ++ joined (begun t.waiting o t.log).lines)
            (text_of-append t.events (opened t.waiting o t.log)
              ∙ ap (λ s. text_of t.events ++ s) silent
              ∙ append-nil (text_of t.events))
          ∙ ap (λ q. text_of t.events ++ joined q) kept
          ∙ v.text;
      still = exit ∙ v.still;
      runs_on = λ e. h (sym exit ∙ e);
    }

-- A round that wrote the first line.
pub busy-InOrder :
    (first : KaLog) (lines : List Bytes) (t : Running) (o : Outside) (line : Bytes)
    (rest : List Bytes) (written : ℕ) (es : List Event)
    → Works o
    → InOrder first lines t
    → t.log.lines ≡ line ∷ rest
    → text_of es ≡ line
    → t.ended ≡ false
    → InOrder first lines (record t {
      log = record (begun t.waiting o t.log) { lines = rest; written = written };
      waiting = false;
      events = t.events ++ (opened t.waiting o t.log ++ es);
    })
busy-InOrder first lines t o line rest written es w v e f on =
    let (kept, exit, silent, same) = begun_lem t.waiting o t.log w v.named in
    let full = subst NoneEmpty e v.filled in
    record {
      named = ap is_empty same.1 ∙ v.named;
      same = (same.0 ∙ v.same.0, same.1 ∙ v.same.1, same.2 ∙ v.same.2);
      filled = full.1;
      text =
          ap (λ s. s ++ joined rest)
            (text_of-append t.events (opened t.waiting o t.log ++ es)
              ∙ ap (λ s. text_of t.events ++ s)
                  (text_of-append (opened t.waiting o t.log) es
                    ∙ ap (λ s. s ++ text_of es) silent
                    ∙ f))
          ∙ append_assoc (text_of t.events) line (joined rest)
          ∙ ap (λ q. text_of t.events ++ joined q) (sym e)
          ∙ v.text;
      still = exit ∙ v.still;
      runs_on = λ _. on;
    }

pub runs_over : (t : Running) (o : Outside) → t.ended ≡ true → step (runs o) t ≡ t
unfolding step
runs_over t o e = ground (arith, e)

pub runs_idle :
    (t : Running) (o : Outside) (exit : Bool)
    → Works o
    → is_empty t.log.file_name ≡ false
    → t.ended ≡ false
    → t.log.exit ≡ exit
    → t.log.lines ≡ []
    → step (runs o) t ≡ record t {
      log = begun t.waiting o t.log;
      waiting = if exit then t.waiting else true;
      ended = exit;
      events = t.events ++ opened t.waiting o t.log;
    }
unfolding step
runs_idle t o true w n e x q = rw (step, e, round_empty t.waiting o t.log w n q, x) refl
runs_idle t o false w n e x q = rw (step, round_empty t.waiting o t.log w n q, x, e) refl

pub runs_busy :
    (t : Running) (o : Outside) (line : Bytes) (rest : List Bytes)
    → Works o
    → is_empty t.log.file_name ≡ false
    → t.ended ≡ false
    → t.log.lines ≡ line ∷ rest
    → 0 < length line
    → (written : ℕ) × (es : List Event) × (step (runs o) t ≡ record t {
      log = record (begun t.waiting o t.log) { lines = rest; written = written };
      waiting = false;
      events = t.events ++ (opened t.waiting o t.log ++ es);
    })
      × (text_of es ≡ line)
unfolding step
runs_busy t o line rest w n e q h =
    let (es, f, g) = round_line t.waiting o t.log line rest w n q h in
    ((begun t.waiting o t.log).written + length line, es, rw (step, e, f) refl, g)
