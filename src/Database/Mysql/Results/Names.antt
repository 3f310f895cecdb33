-- ===== src/Database/Mysql/Results/Names.antt =====
-- The lookup of a field by its name, `getField_idx` and `operator[]`.
use ka_im.Prelude.{
  ℕ, suc, ◌+◌, ◌≡◌, refl, ap, ◌⊎◌, inl, inr, Bool, true, false, List, [], ◌∷◌, some, Bytes,
  bytes_eq, bytes_eq_sound, arith, Bool-cases, get_elem?, take, ◌||◌,
}
use ka_im.Database.Mysql.Results.{QueryResult, find_name, get_field_idx, field_at, field_named}

pub contains : Bytes → List Bytes → Bool
contains name [] = false
contains name (x ∷ xs) = bytes_eq x name || contains name xs

-- Either `k` is the first index of the name, or it is zero and the name is nowhere.
abbrev pub Finds : Bytes → List Bytes → ℕ → Type 0
Finds name names k =
    ((get_elem? names k ≡ some name) × (contains name (take k names) ≡ false))
    ⊎ ((k ≡ 0) × (contains name names ≡ false))

find_name-shift :
    (name : Bytes) (i : ℕ) (xs : List Bytes)
    → contains name xs ≡ true
    → find_name name (suc i) xs ≡ suc (find_name name i xs)
unfolding find_name contains
find_name-shift name i [] h = cc
find_name-shift name i (x ∷ xs) h = elim (Bool-cases (bytes_eq x name)) [
  | inl same ↦ rw same refl
  | inr other ↦
      let e : suc i + 1 ≡ suc (i + 1) = omega arith in
      rw (other, e) (find_name-shift name (i + 1) xs (ground (arith, other, h)))
]

find_name_absent :
    (name : Bytes) (i : ℕ) (xs : List Bytes) → contains name xs ≡ false → find_name name i xs ≡ 0
unfolding find_name contains
find_name_absent name i [] h = refl
find_name_absent name i (x ∷ xs) h = elim (Bool-cases (bytes_eq x name)) [
  | inl same ↦ absurd (ground (arith, same, h))
  | inr other ↦ rw other (find_name_absent name (i + 1) xs (ground (arith, other, h)))
]

find_name_present :
    (name : Bytes) (xs : List Bytes)
    → contains name xs ≡ true
    → (get_elem? xs (find_name name 0 xs) ≡ some name)
      × (contains name (take (find_name name 0 xs) xs) ≡ false)
unfolding find_name contains
find_name_present name [] h = cc
find_name_present name (x ∷ xs) h = elim (Bool-cases (bytes_eq x name)) [
  | inl same ↦ rw same (ap some (bytes_eq_sound x name same), refl)
  | inr other ↦
      let there : contains name xs ≡ true = ground (arith, other, h) in
      let (found, before) = find_name_present name xs there in
      let e : 0 + 1 ≡ suc 0 = omega arith in
      rw (other, e, find_name-shift name 0 xs there) (found, rw other before)
]

-- `getField_idx` gives the first index with the name, compared byte by byte, or zero where no field
-- has it.
pub get_field_idx_lem :
    {R : Type 0} (name : Bytes) (q : QueryResult R)
    → Finds name q.field_names (get_field_idx name q)
unfolding get_field_idx
get_field_idx_lem name q = elim (Bool-cases (contains name q.field_names)) [
  | inl there ↦ inl (find_name_present name q.field_names there)
  | inr gone ↦ inr (find_name_absent name 0 q.field_names gone, gone)
]

-- `operator[]` with a name that no field has gives the first field.
pub field_named_absent :
    {R : Type 0} (name : Bytes) (q : QueryResult R)
    → contains name q.field_names ≡ false
    → field_named name q ≡ field_at 0 q
unfolding field_named get_field_idx
field_named_absent name q h = ap (λ k. field_at k q) (find_name_absent name 0 q.field_names h)
