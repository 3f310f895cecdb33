-- ===== src/Util/Log/Ending.antt =====
-- `Ka_Log::uninit`, which ends the writing thread and waits for it, and the files that the thread
-- opens once the limit of a file is reached.
use ka_im.Prelude.{
  ℕ, zero, suc, ◌+◌, ◌<◌, ◌≡◌, refl, ap, ◌∙◌, true, false, List, [], ◌∷◌, ◌++◌, Option, none, some,
  Bytes, length, arith,
}
use ka_im.Prelude.Int.{pos, leb_ℤ}
use ka_im.Util.Log.{
  KaLog, Outside, Event, opens_file, is_empty, write_round, roll, returns, waits, goes_on,
  create_new_file, new_file_name,
}
use ka_im.Util.Log.Writing.{Works, NoneEmpty, joined, text_of, text_of-append, round_lem, roll_lem}
use ka_im.Util.Log.Logging.{submit, made, NoneFatal, made-NoneEmpty, submit_lem}

-- `writeThreadProc` to its end, with fuel. None: the fuel runs out, or the thread waits for a line.
unfoldable pub run_to_end : ℕ → (ℕ → Outside) → ℕ → KaLog → Option (KaLog × List Event)
run_to_end zero outs round l = none
run_to_end (suc n) outs round l = elim (write_round (outs round) l) [
  | none ↦ none
  | some (returns, l', events) ↦ some (l', events)
  | some (waits, l', events) ↦ none
  | some (goes_on, l', events) ↦ elim (run_to_end n outs (round + 1) l') [
    | none ↦ none
    | some (last, more) ↦ some (last, events ++ more)
  ]
]

-- `uninit`, where the thread is still to run: it is told to end and joined, and the file is closed.
unfoldable pub uninit : ℕ → (ℕ → Outside) → KaLog → Option (KaLog × List Event)
unfolding run_to_end
uninit fuel outs l = elim (run_to_end fuel outs 0 (record l { exit = true })) [
  | none ↦ none
  | some (last, events) ↦ some (record last { file = none }, events)
]

last_round :
    (o : Outside) (l : KaLog)
    → Works o
    → is_empty l.file_name ≡ false
    → l.lines ≡ []
    → l.exit ≡ true
    → write_round o l ≡ some (returns, (roll o l).1, (roll o l).2)
unfolding write_round
last_round o l w n e x =
    let (ok, kept, same, silent, still) = roll_lem o l w n in ground (arith, ok, kept, e, still, x)

run_to_end_lem :
    (lines : List Bytes) (fuel : ℕ) (outs : ℕ → Outside) (round : ℕ) (l : KaLog)
    → ((r : ℕ) → Works (outs r))
    → is_empty l.file_name ≡ false
    → NoneEmpty lines
    → l.lines ≡ lines
    → l.exit ≡ true
    → length lines < fuel
    → (last : KaLog) × (events : List Event) × (run_to_end fuel outs round l ≡ some (last, events))
      × (last.lines ≡ [])
      × (text_of events ≡ joined lines)
unfolding run_to_end
run_to_end_lem lines zero outs round l w n h e x short = absurd (omega arith)
run_to_end_lem [] (suc fuel) outs round l w n h e x short =
    let (ok, kept, same, silent, still) = roll_lem (outs round) l (w round) n in
    (
      (roll (outs round) l).1,
      (roll (outs round) l).2,
      rw (run_to_end, last_round (outs round) l (w round) n e x) refl,
      kept ∙ e,
      silent,
    )
run_to_end_lem (line ∷ lines) (suc fuel) outs round l w n h e x short =
    let (l', did, f, g, named, wrote, still) =
      round_lem (outs round) l line lines (w round) n e h.0 in
    let (last, more, f', empty, rest) =
      run_to_end_lem lines fuel outs (round + 1) l' w (ap is_empty named ∙ n) h.1 g (still ∙ x)
        (omega arith) in
    (
      last,
      did ++ more,
      rw (run_to_end, f, f') refl,
      empty,
      text_of-append did more ∙ ap (λ t. t ++ text_of more) wrote ∙ ap (λ t. line ++ t) rest,
    )

-- With a named file and an empty queue, after any calls of `output` but fatal ones, and where files
-- open and writes take a byte at least, `uninit` ends: the thread, if it runs only then, writes the
-- lines of the calls that are not below the level, in the order of the calls, each once and whole;
-- then the queue is empty and the file closed.
pub submit-uninit :
    (calls : List (ℕ × Outside)) (outs : ℕ → Outside) (l : KaLog)
    → NoneFatal calls
    → ((r : ℕ) → Works (outs r))
    → is_empty l.file_name ≡ false
    → l.lines ≡ []
    → (last : KaLog) × (events : List Event) × (uninit
          (length (made calls l) + 1)
          outs
          (submit calls l)
        ≡ some (last, events))
      × (last.lines ≡ [])
      × (last.file ≡ none)
      × (text_of events ≡ joined (made calls l))
unfolding uninit
submit-uninit calls outs l h w n e =
    let same = submit_lem calls l h in
    let told = record (submit calls l) { exit = true } in
    let (last, events, f, empty, wrote) =
      run_to_end_lem (made calls l) (length (made calls l) + 1) outs 0 told w
        (ap (λ t. is_empty t.file_name) same ∙ n) (made-NoneEmpty calls l)
        (ap (λ t. t.lines) same ∙ ap (λ t. t ++ made calls l) e) refl (omega arith) in
    (record last { file = none }, events, rw (uninit, f) refl, empty, refl, wrote)

-- Once as many bytes are written as the limit says, each round begins with a new file, for the count
-- does not start again.
pub roll_again :
    (o : Outside) (l : KaLog)
    → is_empty l.file_name ≡ false
    → leb_ℤ l.max_log_size (pos l.written) ≡ true
    → ((roll o l).2 ≡ opens_file (new_file_name o l) ∷ [])
      × (leb_ℤ (roll o l).1.max_log_size (pos (roll o l).1.written) ≡ true)
unfolding roll create_new_file
roll_again o l n full = ground (arith, n, full)
