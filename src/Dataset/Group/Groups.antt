-- ===== src/Dataset/Group/Groups.antt =====
-- pkg/dataset/group_reduce.go, GroupDataset.Next: one row for each run.
use arana.Prelude.{
  ℕ, zero, suc, ◌<◌, ◌≤◌, ◌≡◌, refl, sym, subst, arith, Bool, true, false, Option, none, some, List,
  [], ◌∷◌, length,
}
use arana.Dataset.Streams.{Outcome, ok, fault, Answer, eof, at_eof, Yields, Then, Then-Yields}
use arana.Dataset.Transform.{transform_row, transformed, kept-Then}
use arana.Dataset.Group.{
  Consumed, consume, Reducer, Grouped, reduced, group_answer, finish, group_next,
}
use arana.Dataset.Group.Runs.{split, concat, AreRuns, StartAt-AreRuns, split-StartAt, concat-split}
use arana.Dataset.Group.Consume.{Leaves, consume_row-first, consume-Leaves}

group_answer-none :
    {E Q : Type 0} (o : Outcome E (Option Q)) → group_answer o none ≡ transform_row o
unfolding group_answer transform_row
group_answer-none (ok q) = refl
group_answer-none (fault e) = refl

module _ {E R Q T S : Type 0} (next : S → Answer E R × S) (same : R → R → Bool)
    (is_same : R → R → Outcome E Bool) (judged : (a b : R) → is_same a b ≡ ok (same a b))
    (reducer : Reducer E R Q T) (fuel : ℕ) where
  finish-answer :
      (k : ℕ) (c : Consumed E R S) (g : List R) (gs : List (List R))
      → Leaves next same k c (g ∷ gs)
      → (finish reducer c).0 ≡ transform_row (reduced reducer g)
  unfolding finish
  finish-answer k c g gs h = rw (h.0, h.1, h.2) (group_answer-none (reduced reducer g))

  -- Next where the buffer holds a row and the data set has not ended
  group_next-open :
      (gd : Grouped R S) (n : R)
      → gd.at_end ≡ false
      → gd.buf ≡ some n
      → group_next next (ok is_same) reducer fuel gd
        ≡ finish reducer (consume next is_same fuel gd.inner (some n))
  unfolding group_next
  group_next-open gd n open' b = rw (open', b) refl

  group_next-closed :
      (gd : Grouped R S) → gd.at_end ≡ true → (group_next next (ok is_same) reducer fuel gd).0 ≡ eof
  unfolding group_next
  group_next-closed gd e = rw (e) refl

  Leaves-Then :
      (k : ℕ) (c : Consumed E R S) (gs : List (List R))
      → k ≤ fuel
      → Leaves next same k c gs
      → Then
          (group_next next (ok is_same) reducer fuel)
          (finish reducer c)
          (transformed (reduced reducer) gs at_eof).0
          (transformed (reduced reducer) gs at_eof).1
  unfolding finish
  Leaves-Then k c [] enough h = elim h [ ]
  Leaves-Then k c (g ∷ []) enough h =
      kept-Then (group_next next (ok is_same) reducer fuel) (finish reducer c) (reduced reducer g)
        ([], at_eof) (finish-answer k c g [] h) (group_next-closed (finish reducer c).1 h.3)
  Leaves-Then zero c (g ∷ m ∷ gs) enough h = absurd (omega (arith, h.3.6))
  Leaves-Then (suc k) c (g ∷ m ∷ gs) enough h =
      let (off, n, l, b, y, q, few) = h.3 in
      kept-Then (group_next next (ok is_same) reducer fuel) (finish reducer c) (reduced reducer g)
        (transformed (reduced reducer) (m ∷ gs) at_eof) (finish-answer (suc k) c g (m ∷ gs) h)
        (Then-Yields (group_next next (ok is_same) reducer fuel) (finish reducer c).1
          (transformed (reduced reducer) (m ∷ gs) at_eof).0
          (transformed (reduced reducer) (m ∷ gs) at_eof).1
          (subst
            (λ us.
              Then (group_next next (ok is_same) reducer fuel)
                (group_next next (ok is_same) reducer fuel (finish reducer c).1)
                (transformed (reduced reducer) us at_eof).0
                (transformed (reduced reducer) us at_eof).1)
            (sym q)
            (rw (group_next-open (finish reducer c).1 n off b) (
              Leaves-Then k (consume next is_same fuel c.inner (some n)) (split same n l)
                (omega (arith, enough))
                (consume-Leaves next same is_same judged fuel k l n c.inner y
                  (omega (arith, few, enough)) (omega (arith, few)))))))

first_call :
    {E R Q T S : Type 0} (next : S → Answer E R × S) (same : R → R → Bool)
    (is_same : R → R → Outcome E Bool) (judged : (a b : R) → is_same a b ≡ ok (same a b))
    (reducer : Reducer E R Q T) (fuel : ℕ) (s : S) (r : R) (l : List R)
    → Yields next s (r ∷ l) at_eof
    → length (r ∷ l) < fuel
    → Then
        (group_next next (ok is_same) reducer fuel)
        (group_next next
          (ok is_same)
          reducer
          fuel
          (record { inner = s; buf = none; at_end = false }))
        (transformed (reduced reducer) (split same r l) at_eof).0
        (transformed (reduced reducer) (split same r l) at_eof).1
unfolding group_next consume
first_call next same is_same judged reducer zero s r l h enough = absurd (omega (arith, enough))
first_call next same is_same judged reducer (suc fuel) s r l h enough =
    rw (consume_row-first next is_same (consume next is_same fuel) r (next s) h.0) (
      Leaves-Then next same is_same judged reducer (suc fuel) (length l)
        (consume next is_same fuel (next s).1 (some r)) (split same r l) (omega (arith, enough))
        (consume-Leaves next same is_same judged fuel (length l) l r (next s).1 h.1
          (omega (arith, enough)) (omega arith)))

-- GroupDataset over one row or more that end with io.EOF, where isSameGroup fails on no pair of rows and the
-- fuel is more than the number of rows: the rows are cut into runs of the same group, which the
-- next run does not continue, and there is one row for each run, what the reducer makes of it,
-- then io.EOF; the first error of the reducer is the end.
pub group_next-runs :
    {E R Q T S : Type 0} (next : S → Answer E R × S) (same : R → R → Bool)
    (is_same : R → R → Outcome E Bool) (reducer : Reducer E R Q T) (fuel : ℕ) (s : S) (r : R)
    (l : List R)
    → ((a b : R) → is_same a b ≡ ok (same a b))
    → Yields next s (r ∷ l) at_eof
    → length (r ∷ l) < fuel
    → (gs : List (List R)) × (concat gs ≡ r ∷ l)
      × AreRuns same gs
      × Yields
          (group_next next (ok is_same) reducer fuel)
          (record { inner = s; buf = none; at_end = false })
          (transformed (reduced reducer) gs at_eof).0
          (transformed (reduced reducer) gs at_eof).1
group_next-runs next same is_same reducer fuel s r l judged h enough = (
  split same r l,
  concat-split same r l,
  StartAt-AreRuns same r (split same r l) (split-StartAt same r l),
  Then-Yields (group_next next (ok is_same) reducer fuel)
      (record { inner = s; buf = none; at_end = false })
      (transformed (reduced reducer) (split same r l) at_eof).0
      (transformed (reduced reducer) (split same r l) at_eof).1
      (first_call next same is_same judged reducer fuel s r l h enough),
)
