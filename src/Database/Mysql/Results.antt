-- ===== src/Database/Mysql/Results.antt =====
-- `Field` and `QueryResult` of DataBase/KaMysql/MysqlBase.h and MysqlBase.cpp. The result set of
-- libmysqlclient is a parameter: `fetch` is `mysql_fetch_row` with `mysql_fetch_lengths`, a column is
-- its bytes, NULL is none. `lower` is `toLowerString`, which the repository declares nowhere.
-- The numbers of `getFloatValue` are a parameter. A null `m_CurrentRow` is none, and reading through it is none.
pub mod Rows
pub mod Releases
pub mod Names
pub mod Values
use ka_im.Prelude.{
  ℕ, zero, suc, ◌+◌, ◌≡◌, refl, Bool, true, false, not, List, [], ◌∷◌, ◌++◌, Option, none, some,
  Bytes, bytes_eq, ltb, ◌-◌, ◌^◌, ◌==◌, if◌then◌else◌, get_or, get_elem?, length,
}
use ka_im.Prelude.Int.{ℤ, pos, negsuc, to_unsigned, ◌==ℤ◌}
use ka_im.Prelude.Decimal.{atol, atoi}

-- Field::DataType.
pub data DataType : Type 0 where
  db_type_unknow db_type_string db_type_integer db_type_float db_type_bool : DataType

pub record Field : Type 0 where
  pub is_null : Bool
  pub field_name : Bytes
  pub value : Bytes
  pub type_of : DataType

-- The default constructor.
abbrev pub new_field : Field
new_field = record { is_null = false; field_name = []; value = []; type_of = db_type_unknow }

-- The other two constructors leave `m_NULL` indeterminate: `found` is what the memory held.
unfoldable pub copy_field : Bool → Field → Field
copy_field found f = record {
  is_null = found;
  field_name = f.field_name;
  value = f.value;
  type_of = f.type_of;
}

unfoldable pub field_of : Bool → Bytes → DataType → Field
field_of found value type = record {
  is_null = found;
  field_name = [];
  value = value;
  type_of = type;
}

unfoldable pub set_type : DataType → Field → Field
set_type type f = record f { type_of = type }

unfoldable pub set_value : Bytes → Field → Field
set_value value f = record f { value = value }

unfoldable pub set_filed_name : (Bytes → Bytes) → Bytes → Field → Field
set_filed_name lower name f = record f { field_name = lower name }

unfoldable pub get_bool_value : Field → Bool
get_bool_value f = not (atoi f.value ==ℤ pos 0)

-- `static_cast<int32_t>(atol(…))` and the casts to the unsigned types, the latter with their width.
unfoldable pub get_int32_value : Field → ℤ
get_int32_value f = atoi f.value

-- `static_cast<int16_t>(atol(…))`
unfoldable pub get_int16_value : Field → ℤ
get_int16_value f =
    let n = to_unsigned 16 (atol f.value) in
    if ltb n (2 ^ 15) then pos n else negsuc (2 ^ 16 - n - 1)

unfoldable pub get_u_int_value : ℕ → Field → ℕ
get_u_int_value width f = to_unsigned width (atol f.value)

-- `getFloatValue`, with what `atof` and the cast make of a text.
unfoldable pub get_float_value {ℓ} : {F : Type ℓ} → (Bytes → F) → Field → F
get_float_value to_float f = to_float f.value

-- `enum_field_types` of the library, by its names.
pub data MysqlType : Type 0 where
  type_timestamp type_date type_time type_datetime type_year type_string type_var_string : MysqlType
  type_blob type_set type_null type_tiny type_short type_long type_int24 type_longlong : MysqlType
  type_enum type_decimal type_float type_double type_other : MysqlType

unfoldable pub convert_native_type : MysqlType → DataType
convert_native_type t = elim t [
  | type_timestamp ↦ db_type_string
  | type_date ↦ db_type_string
  | type_time ↦ db_type_string
  | type_datetime ↦ db_type_string
  | type_year ↦ db_type_string
  | type_string ↦ db_type_string
  | type_var_string ↦ db_type_string
  | type_blob ↦ db_type_string
  | type_set ↦ db_type_string
  | type_null ↦ db_type_string
  | type_tiny ↦ db_type_integer
  | type_short ↦ db_type_integer
  | type_long ↦ db_type_integer
  | type_int24 ↦ db_type_integer
  | type_longlong ↦ db_type_integer
  | type_enum ↦ db_type_integer
  | type_decimal ↦ db_type_float
  | type_float ↦ db_type_float
  | type_double ↦ db_type_float
  | type_other ↦ db_type_unknow
]

-- `MYSQL_FIELD`: its name, which may be NULL, and its type.
pub record MysqlField : Type 0 where
  pub name : Option Bytes
  pub native_type : MysqlType

-- A row of the library, the pointer to its columns with the array of their lengths: a column is none
-- where it is NULL. The library gives as many as the result has fields, and no others are read.
abbrev pub Row : Type 0
Row = ℕ → Option Bytes

-- What is given back to the allocator and to the library.
pub data Release : Type 0 where
  deletes_row frees_result : Release

-- `R` is what the handle `m_Result` points to. `field_names` has the name of the i-th field at i: the
-- constructor fills the map at the indices from zero on, and nothing else writes it.
pub record QueryResult (R : Type 0) : Type 0 where
  pub current_row : Option (List Field)
  pub field_count : ℕ
  pub row_count : ℕ
  pub field_names : List Bytes
  pub names_in_vector : List Bytes
  pub result : Option R
  pub released : List Release

abbrev pub name_of : MysqlField → Bytes
name_of f = elim f.name [ none ↦ [] | some s ↦ s ]

-- The loop of the constructor over the fields of the result.
unfoldable pub make_names : List MysqlField → List Bytes
make_names [] = []
make_names (f ∷ fs) = name_of f ∷ make_names fs

unfoldable pub make_fields : List MysqlField → List Field
unfolding convert_native_type set_type
make_fields [] = []
make_fields (f ∷ fs) = set_type (convert_native_type f.native_type) new_field ∷ make_fields fs

-- The body of the loop of `nextRow`, for the column `i`.
unfoldable pub fill_field : (Bytes → Bytes) → Option Bytes → Bytes → Field → Field
unfolding set_value set_filed_name
fill_field lower column name f = elim column [
  | none ↦ set_filed_name lower name (set_value [] (record f { is_null = true }))
  | some v ↦ set_filed_name lower name (set_value v (record f { is_null = false }))
]

-- The loop of `nextRow` over the array of fields, from the index `i` on.
unfoldable pub fill_fields : (Bytes → Bytes) → Row → List Bytes → ℕ → List Field → List Field
unfolding fill_field
fill_fields lower row names i [] = []
fill_fields lower row names i (f ∷ fs) =
    fill_field lower (row i) (get_or names i []) f ∷ fill_fields lower row names (i + 1) fs

-- The loop of `getField_idx`: the first index with that name, and zero where there is none.
unfoldable pub find_name : Bytes → ℕ → List Bytes → ℕ
find_name name i [] = 0
find_name name i (x ∷ xs) = if bytes_eq x name then i else find_name name (i + 1) xs

module _ {R : Type 0} where
  -- The constructor on the fields that `mysql_fetch_fields` gives, `fieldCount` of them.
  unfoldable pub make : R → ℕ → List MysqlField → QueryResult R
  unfolding make_names make_fields
  make result row_count fields = record {
    current_row = some (make_fields fields);
    field_count = length fields;
    row_count = row_count;
    field_names = make_names fields;
    names_in_vector = make_names fields;
    result = some result;
    released = [];
  }

  unfoldable pub end_query : QueryResult R → QueryResult R
  end_query q = record q {
    current_row = none;
    result = none;
    released =
        q.released
        ++ (elim q.current_row [ none ↦ [] | some fs ↦ deletes_row ∷ [] ]
            ++ elim q.result [ none ↦ [] | some r ↦ frees_result ∷ [] ]);
  }

  -- The destructor.
  unfoldable pub destroy : QueryResult R → QueryResult R
  unfolding end_query
  destroy q = end_query q

  unfoldable pub next_row :
      (Bytes → Bytes) → (R → Option Row × R) → QueryResult R → Bool × QueryResult R
  unfolding end_query fill_fields
  next_row lower fetch q = elim q.result [
    | none ↦ (false, q)
    | some r ↦
        let (answer, r') = fetch r in
        elim answer [
          | none ↦ (false, end_query (record q { result = some r' }))
          | some row ↦ (
            true,
            record q {
              result = some r';
              current_row = elim q.current_row [
                | none ↦ none
                | some fs ↦ some (fill_fields lower row q.field_names 0 fs)
              ];
            },
          )
        ]
  ]

  unfoldable pub get_field_idx : Bytes → QueryResult R → ℕ
  unfolding find_name
  get_field_idx name q = find_name name 0 q.field_names

  -- `operator[]`, with an index and with a name. Past the end of the row it is none too.
  unfoldable pub field_at : ℕ → QueryResult R → Option Field
  field_at i q = elim q.current_row [ none ↦ none | some fs ↦ get_elem? fs i ]

  unfoldable pub field_named : Bytes → QueryResult R → Option Field
  unfolding field_at get_field_idx
  field_named name q = field_at (get_field_idx name q) q
