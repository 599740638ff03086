-- ===== src/Dataset/Group/Examples.antt =====
-- Rows of pkg/dataset/group_reduce.go grouped by their tens, and counted.
use arana.Prelude.{
  ℕ, ◌+◌, ◌*◌, ◌/◌, ◌≤◌, ◌≡◌, ◌⊎◌, refl, arith, Bool, true, false, Option, none, some, String, List,
  [], ◌∷◌, ◌==◌,
}
use arana.Dataset.Streams.{Outcome, ok, fault, at_eof, Yields}
use arana.Dataset.Filter.{virtual_next, virtual_next-Yields}
use arana.Dataset.Transform.{transformed}
use arana.Dataset.Group.{
  Reducer, reduced, reduce_all, group_next, consume, consume_row, stop, pop_buf, finish,
  group_answer, row_or_fault,
}
use arana.Dataset.Group.Keys.{
  get_key_indexes, find_indexes, find_field, index_or_fault, is_same_group, compare_scanned,
  equal_at, deep_equal, at_index,
}
use arana.Dataset.Group.Runs.{concat, AreRuns}
use arana.Dataset.Group.Groups.{group_next-runs}
use arana.Dataset.Group.Race.{Race, start, Schedule, Step, begin, then_step, put, take_row}
use arana.Dataset.Group.Schedules.{Schedule-reduces, Schedule-loses_error}

abbrev rows : List ℕ
rows = 11 ∷ 12 ∷ 20 ∷ 15 ∷ []

abbrev same_tens : ℕ → ℕ → Bool
same_tens a b = a / 10 == b / 10

abbrev judge_tens : ℕ → ℕ → Outcome String Bool
judge_tens a b = ok (same_tens a b)

abbrev add_one : ℕ → ℕ → Outcome String ℕ
add_one t r = ok (t + 1)

abbrev counter : Reducer String ℕ ℕ ℕ
counter = record { fresh = 0; reduce = add_one; row_of = λ t. some t }

group_next-runs_example :
    (gs : List (List ℕ)) × (concat gs ≡ rows)
    × AreRuns same_tens gs
    × Yields
        (group_next virtual_next (ok judge_tens) counter 5)
        (record { inner = rows; buf = none; at_end = false })
        (transformed (reduced counter) gs at_eof).0
        (transformed (reduced counter) gs at_eof).1
group_next-runs_example =
    group_next-runs virtual_next same_tens judge_tens counter 5 rows 11 (12 ∷ 20 ∷ 15 ∷ [])
      (λ a b. refl) (virtual_next-Yields String rows) (omega arith)

-- The first of two rows has been received, and the second has not been sent.
abbrev after_two : Race String ℕ ℕ
after_two = record {
  to_send = 12 ∷ [];
  failing = none;
  closed = false;
  slot = none;
  errs = none;
  acc = 1;
  done = none;
}

two_steps : Schedule add_one (start {E = String} (11 ∷ 12 ∷ []) none 0) 2 after_two
two_steps =
    then_step (then_step begin (put (start (11 ∷ 12 ∷ []) none 0) 11 (12 ∷ []) refl refl))
      (take_row _ 11 1 refl refl refl)

Schedule-reduces_example :
    (2 ≤ 2 * 2 + 2)
    × (((after_two.done ≡ none) × (u : Race String ℕ ℕ) × Step add_one after_two u)
        ⊎ (after_two.done ≡ some (reduce_all add_one 0 (11 ∷ 12 ∷ []))))
Schedule-reduces_example = Schedule-reduces add_one (11 ∷ 12 ∷ []) 0 2 after_two two_steps

all_reduced : reduce_all add_one 0 (11 ∷ 12 ∷ []) ≡ ok 2
unfolding reduce_all
all_reduced = refl

Schedule-loses_error_example :
    (n m : ℕ) × (t u : Race String ℕ ℕ) × Schedule add_one
      (start (11 ∷ 12 ∷ []) (some "lost") 0)
      n
      t
    × (t.done ≡ some (fault "lost"))
    × Schedule add_one (start (11 ∷ 12 ∷ []) (some "lost") 0) m u
    × (u.done ≡ some (ok 2))
Schedule-loses_error_example = Schedule-loses_error add_one (11 ∷ 12 ∷ []) "lost" 0 2 all_reduced

-- The group keys "b" and "a" of a table with the fields "a", "b" and "c"
indexes_found :
    get_key_indexes (λ key. key) (ok ("a" ∷ "b" ∷ "c" ∷ [])) ("b" ∷ "a" ∷ []) ≡ ok (1 ∷ 0 ∷ [])
unfolding get_key_indexes find_indexes find_field index_or_fault
indexes_found = refl

-- A nil value and another are of different groups, two nil values are of the same.
abbrev scan_row : List (Option ℕ) → Outcome String (List (Option ℕ))
scan_row r = ok r

nil_apart : is_same_group scan_row ◌==◌ (0 ∷ []) (none ∷ []) (some 1 ∷ []) ≡ ok false
unfolding is_same_group compare_scanned equal_at deep_equal at_index
nil_apart = refl

nil_together : is_same_group scan_row ◌==◌ (0 ∷ []) (none ∷ []) (none ∷ []) ≡ ok true
unfolding is_same_group compare_scanned equal_at deep_equal at_index
nil_together = refl

-- A data set with no rows gives one row that is nil, and then io.EOF.
nil_row :
    Yields
      (group_next virtual_next (ok judge_tens) (record counter { row_of = λ t. none }) 1)
      (record { inner = []; buf = none; at_end = false })
      (none ∷ [])
      at_eof
unfolding group_next consume consume_row stop pop_buf finish group_answer reduced reduce_all
    row_or_fault virtual_next
nil_row = (refl, refl)
