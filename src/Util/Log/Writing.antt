-- ===== src/Util/Log/Writing.antt =====
-- What comes out of the writing thread of Util/KaLog.cpp.
use ka_im.Prelude.{
  ℕ, zero, suc, ◌+◌, ◌-◌, min, ◌<◌, ◌≡◌, refl, sym, ap, ◌∙◌, Bool, true, false, List, [], ◌∷◌, ◌++◌,
  append_assoc, Option, none, some, Bytes, take, drop, length, ◌==◌, arith, Bool-cases, inl, inr,
}
use ka_im.Util.Log.{
  KaLog, Outside, Event, prints, opens_file, writes, crashes, is_empty, write_loop, write_to_file,
  create_new_file, returns, waits, goes_on, roll, put_line, write_round,
}

-- What a sequence of events writes to files.
abbrev pub text_of : List Event → Bytes
text_of [] = []
text_of (e ∷ es) = elim e [ writes bytes ↦ bytes ++ text_of es | _ ↦ text_of es ]

pub text_of-append : (es fs : List Event) → text_of (es ++ fs) ≡ text_of es ++ text_of fs
text_of-append [] fs = refl
text_of-append (prints x ∷ es) fs = text_of-append es fs
text_of-append (opens_file x ∷ es) fs = text_of-append es fs
text_of-append (writes x ∷ es) fs =
    ap (λ t. x ++ t) (text_of-append es fs) ∙ sym (append_assoc x (text_of es) (text_of fs))
text_of-append (crashes ∷ es) fs = text_of-append es fs

abbrev Wrote : Bytes → Option (Bool × List Event) → Type 0
Wrote text result = (events : List Event) × (result ≡ some (true, events)) × (text_of events ≡ text)

take-drop_all : (n : ℕ) (xs : Bytes) → take n xs ++ drop n xs ≡ xs
take-drop_all zero xs = refl
take-drop_all (suc n) [] = refl
take-drop_all (suc n) (x ∷ xs) = ap (◌∷◌ x) (take-drop_all n xs)

length-drop_less : (n : ℕ) (xs : Bytes) → length (drop n xs) ≡ length xs - n
length-drop_less zero xs = omega arith
length-drop_less (suc n) [] = omega arith
length-drop_less (suc n) (x ∷ xs) = omega (arith, length-drop_less n xs)

is_empty-length : (xs : Bytes) → is_empty xs ≡ false → 0 < length xs
is_empty-length [] h = cc
is_empty-length (x ∷ xs) h = omega arith

empty_nil : (xs : Bytes) → is_empty xs ≡ true → xs ≡ []
empty_nil [] h = refl
empty_nil (x ∷ xs) h = cc

write_loop-Wrote :
    (fuel : ℕ) (fwrite : ℕ → ℕ) (round : ℕ) (text : Bytes)
    → ((r : ℕ) → 0 < fwrite r)
    → 0 < length text
    → length text < fuel
    → Wrote text (write_loop fuel fwrite round text)
unfolding write_loop
write_loop-Wrote zero fwrite round text p h k = absurd (omega arith)
write_loop-Wrote (suc fuel) fwrite round text p h k =
    let n = min (fwrite round) (length text) in
    let some_n : (n == 0) ≡ false = ground (arith, p round) in
    let joined = take-drop_all n text in
    elim (Bool-cases (is_empty (drop n text))) [
      | inl e ↦ (
        writes (take n text) ∷ [],
        rw (write_loop, some_n, e),
        ap (λ t. take n text ++ t) (sym (empty_nil (drop n text) e)) ∙ joined,
      )
      | inr e ↦
          (let (events, f, g) =
              write_loop-Wrote fuel fwrite (round + 1) (drop n text) p
                (is_empty-length (drop n text) e)
                (omega (arith, p round, length-drop_less n text)) in
            (
              writes (take n text) ∷ events,
              rw (write_loop, some_n, e, f),
              ap (λ t. take n text ++ t) g ∙ joined,
            ))
    ]

-- A working outside: files open, and `fwrite` takes a byte at least.
pub record Works (o : Outside) : Type 0 where
  pub opens : o.opens ≡ true
  pub takes : (round : ℕ) → 0 < o.fwrite round

write_to_file-Wrote :
    (o : Outside) (text : Bytes)
    → Works o
    → 0 < length text
    → Wrote text (write_to_file o.fwrite text)
unfolding write_to_file
write_to_file-Wrote o text w h =
    write_loop-Wrote (suc (length text)) o.fwrite 0 text w.takes h (omega arith)

pub put_line_lem :
    (o : Outside) (line : Bytes) (l : KaLog)
    → Works o
    → is_empty l.file_name ≡ false
    → 0 < length line
    → (events : List Event) × (put_line o line l
        ≡ some (goes_on, record l { written = l.written + length line }, prints line ∷ events))
      × (text_of events ≡ line)
unfolding put_line
put_line_lem o line l w n h =
    let (events, e, f) = write_to_file-Wrote o line w h in (events, rw (put_line, n, e), f)

pub roll_lem :
    (o : Outside) (l : KaLog)
    → Works o
    → is_empty l.file_name ≡ false
    → ((roll o l).0 ≡ true)
      × ((roll o l).1.lines ≡ l.lines)
      × ((roll o l).1.file_name ≡ l.file_name)
      × (text_of (roll o l).2 ≡ [])
      × ((roll o l).1.exit ≡ l.exit)
unfolding roll create_new_file
roll_lem o l w n = ground (arith, w.opens, n)

-- `n` rounds of the thread, or fewer if it returns or waits before.
unfoldable pub thread : ℕ → (ℕ → Outside) → ℕ → KaLog → Option (KaLog × List Event)
thread zero outs round l = some (l, [])
thread (suc n) outs round l = elim (write_round (outs round) l) [
  | none ↦ none
  | some (returns, l', events) ↦ some (l', events)
  | some (waits, l', events) ↦ some (l', events)
  | some (goes_on, l', events) ↦ elim (thread n outs (round + 1) l') [
    | none ↦ none
    | some (last, more) ↦ some (last, events ++ more)
  ]
]

abbrev pub joined : List Bytes → Bytes
joined [] = []
joined (line ∷ lines) = line ++ joined lines

abbrev pub NoneEmpty : List Bytes → Type 0
NoneEmpty [] = Unit {0}
NoneEmpty (line ∷ lines) = (0 < length line) × NoneEmpty lines

pub round_lem :
    (o : Outside) (l : KaLog) (line : Bytes) (rest : List Bytes)
    → Works o
    → is_empty l.file_name ≡ false
    → l.lines ≡ line ∷ rest
    → 0 < length line
    → (l' : KaLog) × (events : List Event) × (write_round o l ≡ some (goes_on, l', events))
      × (l'.lines ≡ rest)
      × (l'.file_name ≡ l.file_name)
      × (text_of events ≡ line)
      × (l'.exit ≡ l.exit)
unfolding write_round
round_lem o l line rest w n e h =
    let (ok, kept, same, silent, still) = roll_lem o l w n in
    let (events, f, g) =
      put_line_lem o line (record (roll o l).1 { lines = rest }) w (ap is_empty same ∙ n) h in
    (
      record (roll o l).1 { lines = rest; written = (roll o l).1.written + length line },
      (roll o l).2 ++ prints line ∷ events,
      rw (write_round, ok, kept ∙ e, f),
      refl,
      same,
      text_of-append (roll o l).2 (prints line ∷ events) ∙ ap (λ t. t ++ text_of events) silent ∙ g,
      still,
    )

-- With a named file, a thread whose files open and whose writes take a byte at least writes the
-- lines of the queue in their order, each once and whole, over all the files that it opens, and
-- leaves the queue empty.
pub thread_lem :
    (lines : List Bytes) (outs : ℕ → Outside) (round : ℕ) (l : KaLog)
    → ((r : ℕ) → Works (outs r))
    → is_empty l.file_name ≡ false
    → NoneEmpty lines
    → l.lines ≡ lines
    → (last : KaLog) × (events : List Event) × (thread (length lines) outs round l
        ≡ some (last, events))
      × (last.lines ≡ [])
      × (text_of events ≡ joined lines)
unfolding thread
thread_lem [] outs round l w n h e = (l, [], refl, e, refl)
thread_lem (line ∷ lines) outs round l w n h e =
    let (l', did, f, g, named, wrote, _) = round_lem (outs round) l line lines (w round) n e h.0 in
    let (last, more, f', empty, rest) =
      thread_lem lines outs (round + 1) l' w (ap is_empty named ∙ n) h.1 g in
    (
      last,
      did ++ more,
      rw (thread, f, f'),
      empty,
      text_of-append did more ∙ ap (λ t. t ++ text_of more) wrote ∙ ap (λ t. line ++ t) rest,
    )
