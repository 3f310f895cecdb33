-- ===== src/Net/Buffer/Search.antt =====
-- The searches of Net/Buffer.h and `swap`. A position is an index of `m_buffer`; a null pointer is
-- none. `findString` and the `findCRLF` without an argument search from `peek()` to `begin()`, which
-- is no range unless the read index is zero, and are left out.
use mathlib.Core.Path.{subst}
use ka_im.Prelude.{
  ℕ, zero, suc, ◌+◌, ◌-◌, ◌≤◌, ◌≡◌, refl, ap, ◌∙◌, ◌⊎◌, inl, inr, Bool, true, false, ◌&&◌, List, [],
  ◌∷◌, ◌++◌, Option, none, some, arith, length, slice, ltb, ◌==◌, if◌then◌else◌, Bool-cases,
}
use ka_im.Net.Buffer.{Buffer, peek, readable_bytes}
use ka_im.Net.Buffer.Inv.{IsValid}
use ka_im.Net.Buffer.Contents.{contents, peek_readable}

abbrev pub starts_with : List ℕ → List ℕ → Bool
starts_with [] text = true
starts_with (p ∷ ps) [] = false
starts_with (p ∷ ps) (c ∷ cs) = c == p && starts_with ps cs

-- `std::search` and `memchr`: where the pattern is first found in the text, which begins at `i`.
unfoldable pub search : List ℕ → ℕ → List ℕ → Option ℕ
search pat i [] = none
search pat i (c ∷ cs) =
    let later = search pat (i + 1) cs in if starts_with pat (c ∷ cs) then some i else later

-- CRLF.
abbrev pub crlf : List ℕ
crlf = 13 ∷ 10 ∷ []

unfoldable pub find_eof : Buffer → Option ℕ
unfolding search
find_eof b = search (10 ∷ []) b.read_index (peek b (readable_bytes b))

-- From `start` on, where that lies between the two indices.
abbrev pub search_from : List ℕ → Buffer → ℕ → Option ℕ
search_from pat b start =
    if ltb start b.read_index
    then none
    else (if ltb b.write_index start
        then none
        else search pat start (slice start (b.write_index - start) b.buffer))

unfoldable pub find_eof_from : Buffer → ℕ → Option ℕ
unfolding search
find_eof_from b start = search_from (10 ∷ []) b start

unfoldable pub find_crlf_from : Buffer → ℕ → Option ℕ
unfolding search
find_crlf_from b start = search_from crlf b start

-- `swap`
abbrev pub swap : Buffer → Buffer → Buffer × Buffer
swap a b = (b, a)

-- The pattern begins at none of the first `n` places.
abbrev pub Nowhere : List ℕ → ℕ → List ℕ → Type 0
Nowhere pat zero text = Unit {0}
Nowhere pat (suc n) [] = Unit {0}
Nowhere pat (suc n) (c ∷ cs) = (starts_with pat (c ∷ cs) ≡ false) × Nowhere pat n cs

-- The search answers with the first place where the pattern begins, or with none if it is nowhere.
abbrev pub Searched : List ℕ → ℕ → List ℕ → Option ℕ → Type 0
Searched pat i text answer =
    ((before : List ℕ) × (after : List ℕ) × (text ≡ before ++ pat ++ after)
      × (answer ≡ some (i + length before))
      × Nowhere pat (length before) text)
    ⊎ ((answer ≡ none) × Nowhere pat (length text) text)

starts_with_split :
    (pat text : List ℕ) → starts_with pat text ≡ true → (after : List ℕ) × (text ≡ pat ++ after)
starts_with_split [] text h = (text, refl)
starts_with_split (p ∷ ps) [] h = absurd (ground (arith, h))
starts_with_split (p ∷ ps) (c ∷ cs) h =
    let (after, e) = starts_with_split ps cs (ground (arith, h)) in
    let same : c ≡ p = ground (arith, h) in (after, rw same (ap (◌∷◌ p) e))

search_later :
    (pat : List ℕ) (i c : ℕ) (cs : List ℕ) (answer : Option ℕ)
    → starts_with pat (c ∷ cs) ≡ false
    → Searched pat (i + 1) cs answer
    → Searched pat i (c ∷ cs) answer
search_later pat i c cs answer other (inl (before, after, e, f, g)) =
    inl (c ∷ before, after, ap (◌∷◌ c) e, f ∙ ap some (omega arith), (other, g))
search_later pat i c cs answer other (inr (f, g)) = inr (f, (other, g))

search_miss :
    (pat : List ℕ) (i c : ℕ) (cs : List ℕ)
    → starts_with pat (c ∷ cs) ≡ false
    → search pat (i + 1) cs ≡ search pat i (c ∷ cs)
unfolding search
search_miss pat i c cs other = rw other refl

search_lem : (pat : List ℕ) (i : ℕ) (text : List ℕ) → Searched pat i text (search pat i text)
unfolding search
search_lem pat i [] = inr (refl, tt)
search_lem pat i (c ∷ cs) = elim (Bool-cases (starts_with pat (c ∷ cs))) [
  | inl here ↦
      let (after, e) = starts_with_split pat (c ∷ cs) here in
      rw here (inl ([], after, e, ap some (omega arith), tt))
  | inr other ↦
      subst (Searched pat i (c ∷ cs)) (search_miss pat i c cs other)
        (search_later pat i c cs (search pat (i + 1) cs) other (search_lem pat (i + 1) cs))
]

-- On a well-formed buffer `findEOF` gives the place of the first newline among the readable bytes, or
-- NULL if they have none.
pub find_eof_lem :
    {b : Buffer} → IsValid b → Searched (10 ∷ []) b.read_index (contents b) (find_eof b)
unfolding find_eof
find_eof_lem {b} v = rw (peek_readable {b = b} v) (search_lem (10 ∷ []) b.read_index (contents b))

-- With a start between the two indices, `findCRLF` gives the place of the first line end of two bytes
-- among the bytes from there to the write index, or NULL if there is none.
pub find_crlf_from_lem :
    (b : Buffer) (start : ℕ)
    → b.read_index ≤ start
    → start ≤ b.write_index
    → Searched crlf start (slice start (b.write_index - start) b.buffer) (find_crlf_from b start)
unfolding find_crlf_from
find_crlf_from_lem b start low high =
    let above : ltb start b.read_index ≡ false = ground arith in
    let below : ltb b.write_index start ≡ false = ground arith in
    rw (above, below) (search_lem crlf start (slice start (b.write_index - start) b.buffer))
