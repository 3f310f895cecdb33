-- ===== src/Util/Config/Lookup.antt =====
-- The map of Util/ConfigFileReader.cpp: what a key has after an insertion.
use ka_im.Prelude.{
  ◌≡◌, refl, sym, ap, ◌∙◌, Bool, true, false, [], ◌∷◌, Option, none, some, Bytes, bytes_eq,
  bytes_eq_sound, bytes_eq_refl, if◌then◌else◌, arith, Option-cases, inl, inr,
}
use ka_im.Util.Config.{Pairs, find, place, store, insert_pair, replace}

abbrev pub or_else : Option Bytes → Option Bytes → Option Bytes
or_else none other = other
or_else (some value) other = some value

pub same_key :
    (k key name : Bytes) → bytes_eq k name ≡ true → bytes_eq key name ≡ true → bytes_eq k key ≡ true
same_key k key name e f =
    rw (bytes_eq_sound k name e, bytes_eq_sound key name f) (bytes_eq_refl name)

pub find_same :
    (key name : Bytes) (pairs : Pairs) → bytes_eq key name ≡ true → find name pairs ≡ find key pairs
find_same key name pairs e = ap (λ n. find n pairs) (sym (bytes_eq_sound key name e))

pub or_else-none : (o : Option Bytes) → or_else o none ≡ o
or_else-none none = refl
or_else-none (some x) = refl

pub or_else_assoc : (a b c : Option Bytes) → or_else (or_else a b) c ≡ or_else a (or_else b c)
or_else_assoc none b c = refl
or_else_assoc (some x) b c = refl

pub or_else_if :
    (b : Bool) (value : Bytes) (o : Option Bytes)
    → or_else (if b then some value else none) o ≡ (if b then some value else o)
or_else_if true value o = refl
or_else_if false value o = refl

pub find-place :
    (name key value : Bytes) (pairs : Pairs)
    → find key pairs ≡ none
    → find name (place key value pairs)
      ≡ or_else (find name pairs) (if bytes_eq key name then some value else none)
find-place name key value [] h = ground arith
find-place name key value ((k, v) ∷ rest) h =
    ground (arith, find-place name key value rest, same_key k key name, find_same key name rest)

pub find-insert_pair :
    (name key value : Bytes) (pairs : Pairs)
    → find name (insert_pair key value pairs)
      ≡ or_else (find name pairs) (if bytes_eq key name then some value else none)
unfolding insert_pair
find-insert_pair name key value pairs = elim (Option-cases (find key pairs)) [
  | inl e ↦ rw (insert_pair, e) (find-place name key value pairs e)
  | inr e ↦ rw (insert_pair, e.1) (ground (arith, e.1, find_same key name pairs))
]

pub same_test : (k key name : Bytes) → bytes_eq k key ≡ true → bytes_eq k name ≡ bytes_eq key name
same_test k key name e = ap (λ t. bytes_eq t name) (bytes_eq_sound k key e)

pub find-replace :
    (name key value : Bytes) (pairs : Pairs) (old : Bytes)
    → find key pairs ≡ some old
    → find name (replace key value pairs)
      ≡ (if bytes_eq key name then some value else find name pairs)
find-replace name key value [] old h = ground arith
find-replace name key value ((k, v) ∷ rest) old h =
    ground (arith, find-replace name key value rest old, same_key k key name, same_test k key name)

pub or_else_new :
    (b : Bool) (value : Bytes) (o : Option Bytes)
    → (b ≡ true → o ≡ none)
    → or_else o (if b then some value else none) ≡ (if b then some value else o)
or_else_new true value o h = rw (h refl) refl
or_else_new false value o h = or_else-none o

pub find-store :
    (name key value : Bytes) (pairs : Pairs)
    → find name (store key value pairs)
      ≡ (if bytes_eq key name then some value else find name pairs)
unfolding store
find-store name key value pairs = elim (Option-cases (find key pairs)) [
  | inl e ↦
      rw (store, e)
        (find-insert_pair name key value pairs
          ∙ or_else_new (bytes_eq key name) value (find name pairs)
              (λ s. find_same key name pairs s ∙ e))
  | inr e ↦ rw (store, e.1) (find-replace name key value pairs e.0 e.1)
]
