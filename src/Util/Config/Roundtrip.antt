-- ===== src/Util/Config/Roundtrip.antt =====
-- Loading a file, loading what was written, and reading what was set.
use ka_im.Prelude.{
  ℕ, zero, suc, ◌≤◌, ◌<◌, ◌≡◌, refl, Bool, true, [], ◌∷◌, Option, some, Bytes, bytes_eq, length,
  if◌then◌else◌, arith,
}
use ka_im.Util.Config.{
  Pairs, ConfigFileReader, next_line, load_line, load_lines, load_file, get_config_name,
  set_config_value, open_file, line_size,
}
use ka_im.Util.Config.Lookup.{find-store}

next_line_shorter : (room : ℕ) (text : Bytes) → length (next_line room text).1 ≤ length text
next_line_shorter zero text = omega arith
next_line_shorter (suc room) [] = omega arith
next_line_shorter (suc room) (c ∷ cs) = ground (arith, next_line_shorter room cs)

line_taken : (c : ℕ) (cs : Bytes) → length (next_line line_size (c ∷ cs)).1 ≤ length cs
line_taken c cs = ground (arith, next_line_shorter 254 cs)

-- One byte more than the text has is enough fuel.
pub load_lines_total :
    (fuel : ℕ) (text : Bytes) (pairs : Pairs)
    → length text < fuel
    → (result : Pairs) × (load_lines fuel text pairs ≡ some result)
unfolding load_lines
load_lines_total zero text pairs h = absurd (omega arith)
load_lines_total (suc fuel) [] pairs h = (pairs, refl)
load_lines_total (suc fuel) (c ∷ cs) pairs h =
    load_lines_total fuel (next_line line_size (c ∷ cs)).1
      (load_line (next_line line_size (c ∷ cs)).0 pairs) (omega (arith, line_taken c cs))

-- `LoadFile` ends on every file: one round more than the file has bytes is enough.
pub load_file_total :
    (garbage : Bool) (name text : Bytes)
    → (r : ConfigFileReader) × (open_file garbage name (some text) ≡ some r) × (r.has_load ≡ true)
unfolding load_file
load_file_total garbage name text =
    let (pairs, e) = load_lines_total (suc (length text)) text [] (omega arith) in
    (record { has_load = true; config_map = pairs; configfile = name }, rw (load_file, e), refl)

-- After `SetConfigValue` on a reader that has loaded its file, whatever opening and writing the file
-- come to, the key has the new value and every other key what it had.
pub get_config_name-set_config_value :
    (answer : Option (ℕ → Bool)) (key value name : Bytes) (r : ConfigFileReader)
    → r.has_load ≡ true
    → get_config_name name (set_config_value answer key value r).1
      ≡ (if bytes_eq key name then some value else get_config_name name r)
unfolding get_config_name set_config_value
get_config_name-set_config_value answer key value name r h =
    ground (arith, h, find-store name key value r.config_map)
