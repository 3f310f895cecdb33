-- ===== src/Util/Log/Logging.antt =====
-- From `Ka_Log::output` to the file.
use ka_im.Prelude.{
  ℕ, ◌<◌, ◌≡◌, ◌≢◌, refl, sym, ap, ◌∙◌, false, List, [], ◌∷◌, ◌++◌, append_assoc, append-nil, some,
  Bytes, length, length-append, ltb, if◌then◌else◌, arith, Bool-cases, inl, inr,
}
use ka_im.Util.Log.{
  KaLog, Outside, Event, make_line, make_line_prefix, is_empty, output, level_fatal, level_name,
}
use ka_im.Util.Log.Writing.{Works, thread, text_of, joined, NoneEmpty, thread_lem}

-- Calls of `output`, one after the other.
unfoldable pub submit : List (ℕ × Outside) → KaLog → KaLog
submit [] l = l
submit ((n, o) ∷ calls) l = submit calls (output n o l).1

-- The lines of the calls that are not below the level.
abbrev pub made : List (ℕ × Outside) → KaLog → List Bytes
made [] l = []
made ((n, o) ∷ calls) l =
    if ltb n l.current_level then made calls l else make_line n o l ∷ made calls l

abbrev pub NoneFatal : List (ℕ × Outside) → Type 0
NoneFatal [] = Unit {0}
NoneFatal ((n, o) ∷ calls) = (n ≢ level_fatal) × NoneFatal calls

abbrev pub queued : List Bytes → KaLog → KaLog
queued lines l = record l { lines = l.lines ++ lines }

pub output_lem :
    (n : ℕ) (o : Outside) (l : KaLog)
    → n ≢ level_fatal
    → (output n o l).1 ≡ (if ltb n l.current_level then l else queued (make_line n o l ∷ []) l)
unfolding output
output_lem n o l h = ground (arith, h)

made-queued :
    (calls : List (ℕ × Outside)) (lines : List Bytes) (l : KaLog)
    → made calls (queued lines l) ≡ made calls l
unfolding make_line
made-queued [] lines l = refl
made-queued ((n, o) ∷ calls) lines l = rw (made-queued calls lines l) refl

pub submit_lem :
    (calls : List (ℕ × Outside)) (l : KaLog)
    → NoneFatal calls
    → submit calls l ≡ queued (made calls l) l
unfolding submit
submit_lem [] l h = ap (λ t. record l { lines = t }) (sym (append-nil l.lines))
submit_lem ((n, o) ∷ calls) l h = elim (Bool-cases (ltb n l.current_level)) [
  | inl below ↦ ap (submit calls) (output_lem n o l h.0) ∙ rw below (submit_lem calls l h.1)
  | inr kept ↦
      let line = make_line n o l ∷ [] in
      ap (submit calls) (output_lem n o l h.0)
      ∙ rw kept (
          submit_lem calls (queued line l) h.1
          ∙ ap (λ t. queued t (queued line l)) (made-queued calls line l)
          ∙ ap (λ t. record l { lines = t }) (append_assoc l.lines line (made calls l)))
]

level_name-some : (n : ℕ) → 0 < length (level_name n)
level_name-some n = ground arith

longer : (xs ys : Bytes) → 0 < length xs → 0 < length (xs ++ ys)
longer xs ys h = omega (arith, length-append xs ys)

pub make_line-some : (n : ℕ) (o : Outside) (l : KaLog) → 0 < length (make_line n o l)
unfolding make_line make_line_prefix
make_line-some n o l = longer _ _ (
    longer _ _ (longer _ _ (longer _ _ (longer _ _ (longer _ _ (longer _ _ (level_name-some n)))))))

pub made-NoneEmpty : (calls : List (ℕ × Outside)) (l : KaLog) → NoneEmpty (made calls l)
made-NoneEmpty [] l = tt
made-NoneEmpty ((n, o) ∷ calls) l = ground (arith, made-NoneEmpty calls l, make_line-some n o l)

-- With a named file and an empty queue, after any calls of `output` but fatal ones a thread whose files
-- open and whose writes take a byte at least writes the lines of the calls that are not below the
-- level, in the order of the calls, each once and whole, and leaves the queue empty.
pub submit-thread :
    (calls : List (ℕ × Outside)) (outs : ℕ → Outside) (l : KaLog)
    → NoneFatal calls
    → ((r : ℕ) → Works (outs r))
    → is_empty l.file_name ≡ false
    → l.lines ≡ []
    → (last : KaLog) × (events : List Event) × (thread
          (length (made calls l))
          outs
          0
          (submit calls l)
        ≡ some (last, events))
      × (last.lines ≡ [])
      × (text_of events ≡ joined (made calls l))
submit-thread calls outs l h w n e =
    let same = submit_lem calls l h in
    thread_lem (made calls l) outs 0 (submit calls l) w (ap (λ t. is_empty t.file_name) same ∙ n)
      (made-NoneEmpty calls l) (ap (λ t. t.lines) same ∙ ap (λ t. t ++ made calls l) e)
