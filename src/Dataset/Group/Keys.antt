-- ===== src/Dataset/Group/Keys.antt =====
-- pkg/dataset/group_reduce.go, getKeyIndexes and isSameGroup: the places of the group keys among
-- the fields, and whether two rows have the same values there.
use text.Mathlib.Text.{◌==◌ as str_eq}
use arana.Prelude.{
  ℕ, suc, Bool, true, false, Option, none, some, List, [], ◌∷◌, String, get_elem?, if◌then◌else◌,
}
use arana.Dataset.Streams.{Outcome, ok, fault}

-- The loop over the fields: the first of the name
unfoldable pub find_field : String → List String → Option ℕ
find_field column [] = none
find_field column (name ∷ names) =
    if str_eq name column
    then some 0
    else elim (find_field column names) [ none ↦ none | some i ↦ some (suc i) ]

module _ {E : Type 0} where
  unfoldable pub index_or_fault : Option ℕ → E → Outcome E (List ℕ) → Outcome E (List ℕ)
  index_or_fault none e rest = fault e
  index_or_fault (some i) e (ok is) = ok (i ∷ is)
  index_or_fault (some i) e (fault f) = fault f

  -- getKeyIndexes, over the names of the fields; the Once keeps the result.
  unfoldable pub find_indexes : (String → E) → List String → List String → Outcome E (List ℕ)
  find_indexes no_field names [] = ok []
  find_indexes no_field names (key ∷ keys) =
      index_or_fault (find_field key names) (no_field key) (find_indexes no_field names keys)

  unfoldable pub get_key_indexes :
      (String → E) → Outcome E (List String) → List String → Outcome E (List ℕ)
  get_key_indexes no_field (fault e) keys = fault e
  get_key_indexes no_field (ok names) keys = find_indexes no_field names keys

-- reflect.DeepEqual on two values, nil being `none`
unfoldable pub deep_equal : {V : Type 0} → (V → V → Bool) → Option V → Option V → Bool
deep_equal eq none none = true
deep_equal eq none (some w) = false
deep_equal eq (some v) none = false
deep_equal eq (some v) (some w) = eq v w

-- dest[index] of a slice of as many values as there are fields, which Scan filled
unfoldable pub at_index : {V : Type 0} → List (Option V) → ℕ → Option V
at_index dest i = elim (get_elem? dest i) [ none ↦ none | some v ↦ v ]

-- The loop over the indexes
unfoldable pub equal_at :
    {V : Type 0} → (V → V → Bool) → List ℕ → List (Option V) → List (Option V) → Bool
equal_at eq [] dest0 dest1 = true
equal_at eq (i ∷ is) dest0 dest1 =
    let rest = equal_at eq is dest0 dest1 in
    if deep_equal eq (at_index dest0 i) (at_index dest1 i) then rest else false

module _ {E R V : Type 0} (scan : R → Outcome E (List (Option V))) (eq : V → V → Bool) where
  unfoldable pub compare_scanned :
      List ℕ → Outcome E (List (Option V)) → Outcome E (List (Option V)) → Outcome E Bool
  compare_scanned is (fault e) dest1 = fault e
  compare_scanned is (ok dest0) (fault e) = fault e
  compare_scanned is (ok dest0) (ok dest1) = ok (equal_at eq is dest0 dest1)

  unfoldable pub is_same_group : List ℕ → R → R → Outcome E Bool
  is_same_group is prev next = compare_scanned is (scan prev) (scan next)
