-- ===== src/Util/Tests.antt =====
-- Runs of Util/ on small inputs.
use ka_im.Prelude.{
  List, false, ◌++◌, bytes, ℕ, ◌+◌, ◌<◌, ◌≡◌, ◌%◌, ◌^◌, refl, true, [], ◌∷◌, none, some, Bytes,
  arith,
}
use ka_im.Util.Config.{
  ConfigFileReader, open_file, get_config_name, set_config_value, load_file, load_lines, load_line,
  parse_line, trim_space, insert_pair,
}
use ka_im.Util.Config.Loading.{text_of, setting, first_value, get_config_name-open_file}
use ka_im.Util.Config.Roundtrip.{get_config_name-set_config_value}
use ka_im.Util.Stream.{write_7bit_encode_32, write_7bit_encode_64, checksum, encode}
use ka_im.Util.Stream.Encoding.{Encodes, write_7bit_encode_64-decode}
use ka_im.Util.Stream.Checksum.{total, checksum_lem}

write_7bit_encode_64-decode_example : Encodes [] 4294967296 10 (write_7bit_encode_64 4294967296 [])
write_7bit_encode_64-decode_example = write_7bit_encode_64-decode 4294967296 [] (omega arith)

-- The bytes of 300.
encodes_300 : write_7bit_encode_32 300 [] ≡ some (172 ∷ 2 ∷ [])
unfolding write_7bit_encode_32 encode
encodes_300 = refl

checksum_lem_example :
    (c : ℕ) × (checksum (1 ∷ 2 ∷ 255 ∷ []) ≡ some c)
    × (c < 2 ^ 16)
    × ((total (1 ∷ 2 ∷ 255 ∷ []) + c) % 65535 ≡ 0)
checksum_lem_example =
    checksum_lem (1 ∷ 2 ∷ 255 ∷ []) (omega arith, (omega arith, (omega arith, tt))) (omega arith)

-- The file "b=1\na=2\n", with a comment and blanks, and the reader that it makes.
abbrev text : Bytes
text = bytes "b = 1" ++ 10 ∷ bytes "# none" ++ 10 ∷ bytes "a=2" ++ 10 ∷ []

abbrev reader : ConfigFileReader
reader = record {
  has_load = true;
  config_map = (bytes "a", bytes "2") ∷ (bytes "b", bytes "1") ∷ [];
  configfile = bytes "f";
}

loads_text : open_file false (bytes "f") (some text) ≡ some reader
unfolding load_file load_lines load_line parse_line trim_space insert_pair
loads_text = refl

-- The same file as its lines, with a second line for "b", which changes nothing.
abbrev lines : List Bytes
lines = bytes "b = 1" ∷ bytes "# none" ∷ bytes "a=2" ∷ bytes "b=3 # late" ∷ []

get_config_name-open_file_example :
    (r : ConfigFileReader) × (open_file false (bytes "f") (some (text_of lines)) ≡ some r)
    × ((name : Bytes) → get_config_name name r ≡ first_value name lines)
get_config_name-open_file_example =
    get_config_name-open_file false (bytes "f") lines
      (refl, omega arith, (refl, omega arith, (refl, omega arith, (refl, omega arith, tt))))

first_b : first_value (bytes "b") lines ≡ some (bytes "1")
unfolding first_value setting
first_b = refl

get_config_name-set_config_value_example :
    get_config_name (bytes "a") (set_config_value none (bytes "c") (bytes "3") reader).1
    ≡ get_config_name (bytes "a") reader
get_config_name-set_config_value_example =
    get_config_name-set_config_value none (bytes "c") (bytes "3") (bytes "a") reader refl
