-- ===== src/Util/LogTests.antt =====
-- A run of Util/KaLog.cpp on small inputs.
use ka_im.Prelude.{suc, ◌≡◌, refl, true, List, [], ◌∷◌, ◌++◌, bytes, length, arith}
use ka_im.Prelude.Int.{pos, ◌+ℤ◌}
use ka_im.Prelude.Decimal.{digits}
use ka_im.Util.LogText.{get_time, file_time}
use ka_im.Util.Log.{
  KaLog, Outside, start, write_round, roll, output, create_new_file, put_line, write_to_file,
  write_loop,
}
use ka_im.Util.Log.Writing.{Works, text_of, joined}
use ka_im.Util.Log.Logging.{made}
use ka_im.Util.Log.Turns.{
  Running, Turn, outputs, runs, begins, step, run, resume, round_of, tell_exit, alone,
}
use ka_im.Util.Log.Order.{calls_of}
use ka_im.Util.Log.Draining.{run-tell_exit}

-- A log with the file name "l", and an outside in which three bytes go at a time.
abbrev log : KaLog
log = record start { file_name = bytes "l" }

abbrev outside : Outside
outside = record {
  now = record {
    year = pos 121;
    mon = pos 0;
    mday = pos 13;
    hour = pos 8;
    min = pos 5;
    sec = pos 9;
  };
  millitm = 7;
  thread = bytes "1";
  source_file = bytes "f";
  line_number = pos 3;
  message = bytes "hello";
  opens = true;
  fwrite = λ _. 3;
}

outside-Works : Works outside
outside-Works = record { opens = refl; takes = λ _. omega arith }

-- Three calls, the first below the level, and two rounds of the thread between them.
abbrev turns : List Turn
turns = outputs 1 outside ∷ runs outside ∷ outputs 2 outside ∷ runs outside ∷ outputs 4 outside ∷ []

two_lines : length (made (calls_of turns) log) ≡ 2
two_lines = refl

-- The first line is written between the calls, the second stays in the queue.
one_waits : length (run turns (begins log)).log.lines ≡ 1
unfolding run step round_of resume write_round roll output create_new_file put_line write_to_file
    write_loop ◌+ℤ◌ digits
one_waits = refl

abbrev last : Running
last =
    run (alone (suc (length (run turns (begins log)).log.lines)) (λ _. outside) 0)
      (tell_exit (run turns (begins log)))

run-tell_exit_example :
    (text_of (run turns (begins log)).events ++ joined (run turns (begins log)).log.lines
      ≡ joined (made (calls_of turns) log))
    × (last.ended ≡ true)
    × (last.log.lines ≡ [])
    × (text_of last.events ≡ joined (made (calls_of turns) log))
run-tell_exit_example =
    run-tell_exit turns (λ _. outside) log
      (
        (λ e. absurd (omega arith)),
        (
          outside-Works,
          ((λ e. absurd (omega arith)), (outside-Works, ((λ e. absurd (omega arith)), tt))),
        ),
      )
      (λ _. outside-Works) refl refl refl

time_in_print : get_time 64 outside.now outside.millitm ≡ bytes "[2021-01-13 08:05:09:007]"
unfolding get_time ◌+ℤ◌ digits
time_in_print = refl

time_in_name : file_time outside.now ≡ bytes "2021-01-13[08:05:09]"
unfolding file_time ◌+ℤ◌ digits
time_in_name = refl
