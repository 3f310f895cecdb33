-- ===== src/Database/Mysql/Results/Rows.antt =====
-- What a client reads from a `QueryResult` by `while(nextRow()) fetch()`.
use ka_im.Prelude.{
  ℕ, zero, suc, ◌+◌, ◌<◌, ◌≡◌, refl, true, false, List, [], ◌∷◌, ◌++◌, Option, none, some, Bytes,
  arith, if◌then◌else◌, length, map,
}
use ka_im.Database.Mysql.Results.{
  Field, Row, MysqlField, QueryResult, deletes_row, frees_result, name_of, make_names, make_fields,
  convert_native_type, fill_field, fill_fields, make, end_query, next_row, set_type,
}

-- A row as a client should see it: the columns of the result one by one.
abbrev other_columns : Row → Row
other_columns row i = row (suc i)

abbrev column : (Bytes → Bytes) → MysqlField → Option Bytes → Field
column lower f c = record {
  is_null = elim c [ none ↦ true | some v ↦ false ];
  field_name = lower (name_of f);
  value = elim c [ none ↦ [] | some v ↦ v ];
  type_of = convert_native_type f.native_type;
}

pub columns : (Bytes → Bytes) → List MysqlField → Row → List Field
columns lower [] row = []
columns lower (f ∷ fs) row = column lower f (row 0) ∷ columns lower fs (other_columns row)

-- As many fields as columns, each of the column's type.
abbrev Typed : List Field → List MysqlField → Type 0
Typed [] [] = Unit {0}
Typed [] (f ∷ fs) = ⊥
Typed (g ∷ gs) [] = ⊥
Typed (g ∷ gs) (f ∷ fs) = (g.type_of ≡ convert_native_type f.native_type) × Typed gs fs

make_fields-Typed : (fs : List MysqlField) → Typed (make_fields fs) fs
unfolding make_fields set_type
make_fields-Typed [] = tt
make_fields-Typed (f ∷ fs) = (refl, make_fields-Typed fs)

columns-Typed :
    (lower : Bytes → Bytes) (fs : List MysqlField) (row : Row) → Typed (columns lower fs row) fs
unfolding columns
columns-Typed lower [] row = tt
columns-Typed lower (f ∷ fs) row = (refl, columns-Typed lower fs (other_columns row))

fill_fields_shift :
    (lower : Bytes → Bytes) (row : Row) (n : Bytes) (names : List Bytes) (i : ℕ) (gs : List Field)
    → fill_fields lower row (n ∷ names) (suc i) gs
      ≡ fill_fields lower (other_columns row) names i gs
unfolding fill_fields
fill_fields_shift lower row n names i [] = refl
fill_fields_shift lower row n names i (g ∷ gs) =
    let e : suc i + 1 ≡ suc (i + 1) = omega arith in
    rw (e, fill_fields_shift lower row n names (i + 1) gs) refl

fill_field_lem :
    (lower : Bytes → Bytes) (f : MysqlField) (c : Option Bytes) (g : Field)
    → g.type_of ≡ convert_native_type f.native_type
    → fill_field lower c (name_of f) g ≡ column lower f c
unfolding fill_field
fill_field_lem lower f none g e = ground (arith, e)
fill_field_lem lower f (some v) g e = ground (arith, e)

-- The array is filled with the columns, whatever the last row left in it.
fill_fields-columns :
    (lower : Bytes → Bytes) (row : Row) (fs : List MysqlField) (gs : List Field)
    → Typed gs fs
    → fill_fields lower row (make_names fs) 0 gs ≡ columns lower fs row
unfolding make_names columns fill_fields
fill_fields-columns lower row [] [] t = refl
fill_fields-columns lower row [] (g ∷ gs) t = absurd t
fill_fields-columns lower row (f ∷ fs) [] t = absurd t
fill_fields-columns lower row (f ∷ fs) (g ∷ gs) t =
    rw
      (
        fill_field_lem lower f (row 0) g t.0,
        fill_fields_shift lower row (name_of f) (make_names fs) 0 gs,
        fill_fields-columns lower (other_columns row) fs gs t.1,
      )
      refl

-- The rows that a result set still gives, and then NULL.
module _ {R : Type 0} where
  abbrev pub Yields : (R → Option Row × R) → R → List Row → Type 0
  Yields fetch r [] = (fetch r).0 ≡ none
  Yields fetch r (row ∷ rows) = ((fetch r).0 ≡ some row) × Yields fetch (fetch r).1 rows

  -- `while(q->nextRow()) use(q->fetch());`, with fuel: none where it runs out.
  unfoldable pub read_all :
      ℕ
      → (Bytes → Bytes)
      → (R → Option Row × R)
      → QueryResult R
      → Option (List (Option (List Field)) × QueryResult R)
  read_all zero lower fetch q = none
  read_all (suc fuel) lower fetch q =
      let step = next_row lower fetch q in
      let rest = read_all fuel lower fetch step.1 in
      if step.0
      then elim rest [ none ↦ none | some (seen, q') ↦ some (step.1.current_row ∷ seen, q') ]
      else some ([], step.1)

  -- A result whose array is there, with the fields of `fs`.
  reading : QueryResult R → List Field → R → QueryResult R
  reading q gs r = record q { current_row = some gs; result = some r }

  ended : QueryResult R → QueryResult R
  ended q = record q {
    current_row = none;
    result = none;
    released = q.released ++ deletes_row ∷ frees_result ∷ [];
  }

  reading_row :
      (q : QueryResult R) (gs : List Field) (r : R) → (reading q gs r).current_row ≡ some gs
  unfolding reading
  reading_row q gs r = refl

  next_row_more :
      (lower : Bytes → Bytes) (fetch : R → Option Row × R) (fs : List MysqlField)
      (q : QueryResult R) (gs : List Field) (r : R) (row : Row)
      → q.field_names ≡ make_names fs
      → Typed gs fs
      → (fetch r).0 ≡ some row
      → next_row lower fetch (reading q gs r) ≡ (true, reading q (columns lower fs row) (fetch r).1)
  unfolding next_row reading
  next_row_more lower fetch fs q gs r row names t e =
      rw (e, names, fill_fields-columns lower row fs gs t) refl

  next_row_end :
      (lower : Bytes → Bytes) (fetch : R → Option Row × R) (q : QueryResult R) (gs : List Field)
      (r : R)
      → (fetch r).0 ≡ none
      → next_row lower fetch (reading q gs r) ≡ (false, ended q)
  unfolding next_row reading end_query ended
  next_row_end lower fetch q gs r e = rw e refl

  read_all-reading :
      (lower : Bytes → Bytes) (fetch : R → Option Row × R) (fs : List MysqlField)
      (q : QueryResult R) (rows : List Row) (fuel : ℕ) (gs : List Field) (r : R)
      → q.field_names ≡ make_names fs
      → Typed gs fs
      → Yields fetch r rows
      → length rows < fuel
      → read_all fuel lower fetch (reading q gs r)
        ≡ some (map (λ row. some (columns lower fs row)) rows, ended q)
  unfolding read_all
  read_all-reading lower fetch fs q rows zero gs r names t y h = elim h [ ]
  read_all-reading lower fetch fs q [] (suc fuel) gs r names t y h =
      rw (next_row_end lower fetch q gs r y) refl
  read_all-reading lower fetch fs q (row ∷ rows) (suc fuel) gs r names t y h =
      rw
        (
          next_row_more lower fetch fs q gs r row names t y.0,
          read_all-reading lower fetch fs q rows fuel (columns lower fs row) (fetch r).1 names
              (columns-Typed lower fs row) y.1 (omega arith),
        )
        (rw
          (
            next_row_more lower fetch fs q gs r row names t y.0,
            reading_row q (columns lower fs row) (fetch r).1,
          )
          refl)

  -- On a result set that yields the rows and then NULL, and with more fuel than there are rows,
  -- reading a new `QueryResult` to its end by `nextRow` and `fetch` sees the columns of each row
  -- in order, each with its name, its type, and whether it is NULL, and ends with the array
  -- deleted and the result set freed, once each.
  pub read_all-make :
      (lower : Bytes → Bytes) (fetch : R → Option Row × R) (r : R) (count : ℕ)
      (fs : List MysqlField) (rows : List Row) (fuel : ℕ)
      → Yields fetch r rows
      → length rows < fuel
      → (q : QueryResult R) × (read_all fuel lower fetch (make r count fs)
          ≡ some (map (λ row. some (columns lower fs row)) rows, q))
        × (q.current_row ≡ none)
        × (q.result ≡ none)
        × (q.released ≡ deletes_row ∷ frees_result ∷ [])
  unfolding make reading ended
  read_all-make lower fetch r count fs rows fuel y h =
      let q = make r count fs in
      (
        ended q,
        read_all-reading lower fetch fs q rows fuel (make_fields fs) r refl (make_fields-Typed fs) y
            h,
        refl,
        refl,
        refl,
      )
