-- ===== src/Util/LogText.antt =====
-- What `Ka_Log` of Util/KaLog.cpp puts into its lines and file names besides the message: the time, the
-- thread and the place. The text is UTF-8.
use ka_im.Prelude.{ℕ, ◌-◌, [], ◌∷◌, ◌++◌, Bytes, take}
use ka_im.Prelude.Int.{ℤ, pos, ◌+ℤ◌}
use ka_im.Prelude.Decimal.{show_int, show_padded}

-- What `localtime_r` gives.
pub record Tm : Type 0 where
  pub year : ℤ
  pub mon : ℤ
  pub mday : ℤ
  pub hour : ℤ
  pub min : ℤ
  pub sec : ℤ

-- `getTime` into an array of that length, with the milliseconds that `ftime` gives.
unfoldable pub get_time : ℕ → Tm → ℕ → Bytes
get_time length t millitm = take (length - 1) (
    91 ∷ show_padded 4 (t.year +ℤ pos 1900)
    ++ 45 ∷ show_padded 2 (t.mon +ℤ pos 1)
    ++ 45 ∷ show_padded 2 t.mday
    ++ 32 ∷ show_padded 2 t.hour
    ++ 58 ∷ show_padded 2 t.min
    ++ 58 ∷ show_padded 2 t.sec
    ++ 58 ∷ show_padded 3 (pos millitm)
    ++ 93 ∷ [])

-- The time in a file's name, as `strftime` prints it.
unfoldable pub file_time : Tm → Bytes
file_time t =
    show_int (t.year +ℤ pos 1900)
    ++ 45 ∷ show_padded 2 (t.mon +ℤ pos 1)
    ++ 45 ∷ show_padded 2 t.mday
    ++ 91 ∷ show_padded 2 t.hour
    ++ 58 ∷ show_padded 2 t.min
    ++ 58 ∷ show_padded 2 t.sec
    ++ 93 ∷ []

-- `[%s文件:第%d行]`, cut to the room of its array.
unfoldable pub place_text : Bytes → ℤ → Bytes
place_text file_name line_number = take 511 (
    91 ∷ file_name
    ++ 230 ∷ 150 ∷ 135 ∷ 228 ∷ 187 ∷ 182 ∷ 58 ∷ 231 ∷ 172 ∷ 172 ∷ show_int line_number
    ++ 232 ∷ 161 ∷ 140 ∷ 93 ∷ [])

-- The thread's id in brackets, cut to the room of its array.
unfoldable pub thread_text : Bytes → Bytes
thread_text id = take 31 (91 ∷ id ++ 93 ∷ [])
