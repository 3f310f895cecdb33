-- ===== src/Util/Log/Turns.antt =====
-- The writing thread of Util/KaLog.cpp between the calls of other threads. A call of `output`, and what
-- the thread does between two waits for a line, are one turn; a thread that waited goes on behind its
-- wait, and does not look at the file again before it has a line.
use ka_im.Prelude.{
  ℕ, suc, zero, ◌+◌, ◌<◌, ◌≡◌, refl, ap, ◌∙◌, Bool, true, false, List, [], ◌∷◌, ◌++◌, Option, none,
  some, Bytes, length, arith, if◌then◌else◌,
}
use ka_im.Util.Log.{
  KaLog, Outside, Event, prints, is_empty, output, Round, returns, waits, goes_on, roll, put_line,
  write_round, create_new_file,
}
use ka_im.Util.Log.Writing.{Works, text_of, put_line_lem, roll_lem}

-- The rest of a round behind the wait.
unfoldable pub resume : Outside → KaLog → Option (Round × KaLog × List Event)
resume o l = elim l.lines [
  | [] ↦ some (if l.exit then returns else waits, l, [])
  | line ∷ rest ↦ put_line o line (record l { lines = rest })
]

unfoldable pub round_of : Bool → Outside → KaLog → Option (Round × KaLog × List Event)
unfolding resume
round_of waiting o l = if waiting then resume o l else write_round o l

-- The log and the thread, with all that was done outside.
pub record Running : Type 0 where
  pub log : KaLog
  pub waiting : Bool
  pub ended : Bool
  pub events : List Event

-- The log `l` as the thread starts.
abbrev pub begins : KaLog → Running
begins l = record { log = l; waiting = false; ended = false; events = [] }

-- A call of `output`, and a round of the thread.
pub data Turn : Type 0 where
  outputs : ℕ → Outside → Turn
  runs : Outside → Turn

abbrev pub ran : Running → Option (Round × KaLog × List Event) → Running
ran t none = record t { ended = true }
ran t (some (returns, l, es)) = record t { log = l; ended = true; events = t.events ++ es }
ran t (some (waits, l, es)) = record t { log = l; waiting = true; events = t.events ++ es }
ran t (some (goes_on, l, es)) = record t { log = l; waiting = false; events = t.events ++ es }

unfoldable pub step : Turn → Running → Running
unfolding round_of
step (outputs n o) t =
    let (ok, l, es) = output n o t.log in record t { log = l; events = t.events ++ es }
step (runs o) t = if t.ended then t else ran t (round_of t.waiting o t.log)

unfoldable pub run : List Turn → Running → Running
unfolding step
run [] t = t
run (turn ∷ turns) t = run turns (step turn t)

-- What `uninit` tells the thread.
abbrev pub tell_exit : Running → Running
tell_exit t = record t { log = record t.log { exit = true } }

-- `n` rounds, while no other thread calls.
unfoldable pub alone : ℕ → (ℕ → Outside) → ℕ → List Turn
alone zero outs round = []
alone (suc n) outs round = runs (outs round) ∷ alone n outs (round + 1)

-- The log behind the beginning of a round, and what was opened there.
abbrev pub begun : Bool → Outside → KaLog → KaLog
begun waiting o l = if waiting then l else (roll o l).1

abbrev pub opened : Bool → Outside → KaLog → List Event
opened waiting o l = if waiting then [] else (roll o l).2

-- What a message is printed by, and where it goes.
abbrev pub SameSettings : KaLog → KaLog → Type 0
SameSettings l m =
    (l.trunc ≡ m.trunc) × (l.file_name ≡ m.file_name) × (l.current_level ≡ m.current_level)

roll-SameSettings : (o : Outside) (l : KaLog) → SameSettings (roll o l).1 l
unfolding roll create_new_file
roll-SameSettings o l = ground arith

pub begun_lem :
    (waiting : Bool) (o : Outside) (l : KaLog)
    → Works o
    → is_empty l.file_name ≡ false
    → ((begun waiting o l).lines ≡ l.lines)
      × ((begun waiting o l).exit ≡ l.exit)
      × (text_of (opened waiting o l) ≡ [])
      × SameSettings (begun waiting o l) l
begun_lem true o l w n = (refl, refl, refl, (refl, refl, refl))
begun_lem false o l w n =
    let (ok, kept, same, silent, still) = roll_lem o l w n in
    (kept, still, silent, roll-SameSettings o l)

pub round_empty :
    (waiting : Bool) (o : Outside) (l : KaLog)
    → Works o
    → is_empty l.file_name ≡ false
    → l.lines ≡ []
    → round_of waiting o l
      ≡ some (if l.exit then returns else waits, begun waiting o l, opened waiting o l)
unfolding round_of resume write_round
round_empty true o l w n e = ground (arith, e)
round_empty false o l w n e =
    let (ok, kept, same, silent, still) = roll_lem o l w n in ground (arith, ok, kept, e, still)

pub round_line :
    (waiting : Bool) (o : Outside) (l : KaLog) (line : Bytes) (rest : List Bytes)
    → Works o
    → is_empty l.file_name ≡ false
    → l.lines ≡ line ∷ rest
    → 0 < length line
    → (es : List Event) × (round_of waiting o l
        ≡ some (
          goes_on,
          record (begun waiting o l) {
            lines = rest;
            written = (begun waiting o l).written + length line;
          },
          opened waiting o l ++ es,
        ))
      × (text_of es ≡ line)
unfolding round_of write_round
round_line true o l line rest w n e h =
    let (es, f, g) = put_line_lem o line (record l { lines = rest }) w n h in
    (prints line ∷ es, rw (resume, e, f) refl, g)
round_line false o l line rest w n e h =
    let (ok, kept, same, silent, still) = roll_lem o l w n in
    let (es, f, g) =
      put_line_lem o line (record (roll o l).1 { lines = rest }) w (ap is_empty same ∙ n) h in
    (prints line ∷ es, rw (write_round, ok, kept ∙ e, f) refl, g)
