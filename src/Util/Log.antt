-- ===== src/Util/Log.antt =====
-- `Ka_Log` of Util/KaLog.h and KaLog.cpp. What the outside gives to a call is a record: the time, the
-- thread in print, the place of a message, the message as `vsnprintf` formats it, and what `fopen` and
-- `fwrite` answer. `EasyDebug`, which gives its `va_list` to `snprintf`, is left out. A call under the
-- mutex, and a round of the writing thread, are one step.
pub mod Writing
pub mod Logging
pub mod Ending
pub mod Turns
pub mod Order
pub mod Draining
use ka_im.Prelude.{
  ℕ, zero, suc, ◌+◌, ◌*◌, ◌-◌, min, ◌≡◌, Bool, true, false, not, ◌&&◌, ◌||◌, List, [], ◌∷◌, ◌++◌,
  Option, none, some, Bytes, bytes, take, drop, length, ltb, leb, ◌==◌, if◌then◌else◌,
}
use ka_im.Prelude.Int.{ℤ, pos, leb_ℤ}
use ka_im.Util.LogText.{Tm, get_time, file_time, place_text, thread_text}

-- LOG_LEVEL, by its numbers.
abbrev pub level_info : ℕ
level_info = 2

abbrev pub level_fatal : ℕ
level_fatal = 6

abbrev pub max_line_length : ℕ
max_line_length = 256

-- The static members. `file` is the name of the open file, and `written` is `m_CurrentWrittenSize`.
pub record KaLog : Type 0 where
  pub trunc : Bool
  pub file : Option Bytes
  pub file_name : Bytes
  pub pid : Bytes
  pub current_level : ℕ
  pub max_log_size : ℤ
  pub written : ℕ
  pub lines : List Bytes
  pub exit : Bool
  pub running : Bool

-- What they are initialised to.
abbrev pub start : KaLog
start = record {
  trunc = false;
  file = none;
  file_name = [];
  pid = [];
  current_level = level_info;
  max_log_size = pos (10 * 1024 * 1024);
  written = 0;
  lines = [];
  exit = false;
  running = false;
}

pub record Outside : Type 0 where
  pub now : Tm
  pub millitm : ℕ
  pub thread : Bytes
  pub source_file : Bytes
  pub line_number : ℤ
  pub message : Bytes
  pub opens : Bool
  pub fwrite : ℕ → ℕ

-- What a call does outside: printing, opening a file, writing to the open one, the crash.
pub data Event : Type 0 where
  prints opens_file writes : Bytes → Event
  crashes : Event

-- `init`; `own_pid` is the process id in print. A null name is an empty one.
abbrev pub init : Bytes → Bool → ℤ → Bytes → KaLog → KaLog
init name trunc size own_pid l = record l {
  trunc = trunc;
  max_log_size = size;
  file_name = name;
  pid = take 7 own_pid;
}

unfoldable pub set_level : ℕ → KaLog → KaLog
set_level n l = if ltb level_fatal n then l else record l { current_level = n }

abbrev pub level_name : ℕ → Bytes
level_name n =
    if n == 0
    then bytes "[TARCE]"
    else if n == 1
    then bytes "[DEBUG]"
    else if n == 3
    then bytes "[WARNING]"
    else if n == 4
    then bytes "[ERROR]"
    else if n == 5
    then bytes "[SYS_ERROR]"
    else if n == 6
    then bytes "[SYS_FATAL]"
    else if n == 7
    then bytes "[CRIRICAL]"
    else bytes "[INFO]"

-- `makeLinePrefix`
unfoldable pub make_line_prefix : ℕ → Outside → Bytes
unfolding get_time thread_text
make_line_prefix n o =
    level_name n ++ bytes "[" ++ get_time 64 o.now o.millitm ++ bytes "]" ++ thread_text o.thread

abbrev pub is_empty : Bytes → Bool
is_empty [] = true
is_empty (c ∷ cs) = false

-- The line that `output` makes.
unfoldable pub make_line : ℕ → Outside → KaLog → Bytes
unfolding make_line_prefix place_text
make_line n o l =
    make_line_prefix n o
    ++ place_text o.source_file o.line_number
    ++ (if l.trunc then take max_line_length o.message else o.message)
    ++ (if is_empty l.file_name then [] else 10 ∷ [])

-- The loop of `writeToFile`, with fuel; none if it runs out. `fwrite` takes no more than it is given.
unfoldable pub write_loop : ℕ → (ℕ → ℕ) → ℕ → Bytes → Option (Bool × List Event)
write_loop zero fwrite round text = none
write_loop (suc fuel) fwrite round text =
    let n = min (fwrite round) (length text) in
    let more = write_loop fuel fwrite (round + 1) (drop n text) in
    if n == 0
    then some (false, [])
    else if is_empty (drop n text)
    then some (true, writes (take n text) ∷ [])
    else elim more [
      | none ↦ none
      | some (done, events) ↦ some (done, writes (take n text) ∷ events)
    ]

-- `writeToFile`: each round but the last takes a byte at least.
unfoldable pub write_to_file : (ℕ → ℕ) → Bytes → Option (Bool × List Event)
write_to_file fwrite text = write_loop (suc (length text)) fwrite 0 text

-- The name of a new file.
unfoldable pub new_file_name : Outside → KaLog → Bytes
unfolding file_time
new_file_name o l =
    l.file_name ++ bytes "." ++ file_time o.now ++ bytes "." ++ l.pid ++ bytes ".log"

-- `createNewFile`
unfoldable pub create_new_file : Outside → KaLog → Bool × KaLog × List Event
create_new_file o l =
    if o.opens
    then (true, record l { file = some (new_file_name o l) }, opens_file (new_file_name o l) ∷ [])
    else (false, record l { file = none }, opens_file (new_file_name o l) ∷ [])

-- `if(nullptr == m_hLogFile)`: a new file.
unfoldable pub open_if_none : Outside → KaLog → Bool × KaLog × List Event
unfolding create_new_file
open_if_none o l = elim l.file [ none ↦ create_new_file o l | some f ↦ (true, l, []) ]

-- The branch of `output` for a fatal message.
fatal : Outside → Bytes → KaLog → Bool × KaLog × List Event
unfolding open_if_none write_to_file
fatal o line l =
    let (ok, l', events) = open_if_none o l in
    if is_empty l.file_name
    then (true, l, prints line ∷ crashes ∷ [])
    else if not ok
    then (false, l', prints line ∷ events)
    else elim (write_to_file o.fwrite line) [
      | none ↦ (true, l', prints line ∷ events)
      | some (done, more) ↦ (true, l', prints line ∷ events ++ more ++ crashes ∷ [])
    ]

unfoldable pub output : ℕ → Outside → KaLog → Bool × KaLog × List Event
unfolding make_line fatal
output n o l =
    if ltb n l.current_level
    then (false, l, [])
    else if n == level_fatal
    then fatal o (make_line n o l) l
    else (true, record l { lines = l.lines ++ make_line n o l ∷ [] }, [])

-- How a round of the thread ends.
pub data Round : Type 0 where
  returns waits goes_on : Round

-- The beginning of a round: a file is opened if there is none or the count of bytes has reached the
-- limit.
unfoldable pub roll : Outside → KaLog → Bool × KaLog × List Event
unfolding create_new_file
roll o l =
    let none_open : Bool = elim l.file [ none ↦ true | some f ↦ false ] in
    if is_empty l.file_name
    then (true, l, [])
    else if none_open || leb_ℤ l.max_log_size (pos l.written)
    then create_new_file o l
    else (true, l, [])

-- The end of a round, with a line taken from the queue; none if writing runs out of fuel.
unfoldable pub put_line : Outside → Bytes → KaLog → Option (Round × KaLog × List Event)
unfolding write_to_file
put_line o line l =
    if is_empty l.file_name
    then some (goes_on, l, prints line ∷ [])
    else elim (write_to_file o.fwrite line) [
      | none ↦ none
      | some (true, events) ↦
          some (goes_on, record l { written = l.written + length line }, prints line ∷ events)
      | some (false, events) ↦ some (returns, l, prints line ∷ events)
    ]

-- A round of `writeThreadProc`.
unfoldable pub write_round : Outside → KaLog → Option (Round × KaLog × List Event)
write_round o l =
    let (ok, l', opened) = roll o l in
    if not ok then some (returns, l', opened) else elim l'.lines [
      | [] ↦ some (if l'.exit then returns else waits, l', opened)
      | line ∷ rest ↦ elim (put_line o line (record l' { lines = rest })) [
        | none ↦ none
        | some (round, l'', events) ↦ some (round, l'', opened ++ events)
      ]
    ]
