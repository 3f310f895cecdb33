-- ===== src/Database/Mysql/Results/Releases.antt =====
-- What a `QueryResult` gives back, and when.
use ka_im.Prelude.{ℕ, ◌≡◌, refl, inl, inr, List, [], ◌∷◌, Option, none, some, Bytes, Option-cases}
use ka_im.Database.Mysql.Results.{
  Field, Row, MysqlField, QueryResult, deletes_row, frees_result, make_fields, fill_fields, make,
  end_query, destroy, next_row,
}

-- The calls that a client makes before the destructor runs.
pub data Use : Type 0 where
  next ends : Use

module _ {R : Type 0} where
  unfoldable pub run :
      (Bytes → Bytes) → (R → Option Row × R) → List Use → QueryResult R → QueryResult R
  run lower fetch [] q = q
  run lower fetch (next ∷ us) q = run lower fetch us (next_row lower fetch q).1
  run lower fetch (ends ∷ us) q = run lower fetch us (end_query q)

  -- Either both pointers are there and nothing is given back, or neither and both are.
  data Held (q : QueryResult R) : Type 0 where
    open_result :
        (gs : List Field) (r : R)
        → q.current_row ≡ some gs
        → q.result ≡ some r
        → q.released ≡ []
        → Held q
    closed_result :
        q.current_row ≡ none
        → q.result ≡ none
        → q.released ≡ deletes_row ∷ frees_result ∷ []
        → Held q

  end_query-released :
      (q : QueryResult R)
      → Held q
      → ((end_query q).current_row ≡ none)
        × ((end_query q).result ≡ none)
        × ((end_query q).released ≡ deletes_row ∷ frees_result ∷ [])
  unfolding end_query
  end_query-released q (open_result gs r a b c) = rw (a, b, c) (refl, refl, refl)
  end_query-released q (closed_result a b c) = rw (a, b, c) (refl, refl, refl)

  end_query-Held : (q : QueryResult R) → Held q → Held (end_query q)
  end_query-Held q h = let (a, b, c) = end_query-released q h in closed_result a b c

  next_row-Held :
      (lower : Bytes → Bytes) (fetch : R → Option Row × R) (q : QueryResult R)
      → Held q
      → Held (next_row lower fetch q).1
  unfolding next_row
  next_row-Held lower fetch q (closed_result a b c) = rw (next_row, b) (closed_result a b c)
  next_row-Held lower fetch q (open_result gs r a b c) = elim (Option-cases (fetch r).0) [
    | inl e ↦
        rw (next_row, b, e)
          (end_query-Held (record q { result = some (fetch r).1 })
            (open_result gs (fetch r).1 a refl c))
    | inr (row, e) ↦
        rw (next_row, b, e, a)
          (open_result (fill_fields lower row q.field_names 0 gs) (fetch r).1 refl refl c)
  ]

  run-Held :
      (lower : Bytes → Bytes) (fetch : R → Option Row × R) (us : List Use) (q : QueryResult R)
      → Held q
      → Held (run lower fetch us q)
  unfolding run
  run-Held lower fetch [] q h = h
  run-Held lower fetch (next ∷ us) q h =
      run-Held lower fetch us (next_row lower fetch q).1 (next_row-Held lower fetch q h)
  run-Held lower fetch (ends ∷ us) q h = run-Held lower fetch us (end_query q) (end_query-Held q h)

  -- Whatever a client calls of `nextRow` and `endQuery` before, and whatever the library answers,
  -- after the destructor the array of a `QueryResult` has been deleted once and its result set freed
  -- once, in that order, and nothing else.
  pub destroy-released :
      (lower : Bytes → Bytes) (fetch : R → Option Row × R) (us : List Use) (r : R) (count : ℕ)
      (fs : List MysqlField)
      → (destroy (run lower fetch us (make r count fs))).released ≡ deletes_row ∷ frees_result ∷ []
  unfolding destroy make
  destroy-released lower fetch us r count fs =
      (end_query-released (run lower fetch us (make r count fs)) (
        run-Held lower fetch us (make r count fs)
          (open_result (make_fields fs) r refl refl refl))).2
