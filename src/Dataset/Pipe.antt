-- ===== src/Dataset/Pipe.antt =====
-- pkg/dataset/chain.go: Pipe, with its options Filter and Map.
use arana.Prelude.{
  ℕ, suc, ◌≤◌, ◌<◌, ◌≡◌, refl, ap, sym, subst, append_assoc, append-nil, ◌∙◌, arith, Bool, Option,
  none, some, List, [], ◌∷◌, ◌++◌, length, Bool-cases, inl, inr,
}
use arana.Dataset.Streams.{Outcome, ok, fault, Dataset, End, Runs}
use arana.Dataset.Filter.{filter, filter_dataset, filter_dataset-Runs, filter_dataset-nil}
use arana.Dataset.Transform.{
  transformed, transform_dataset, kept, transform_dataset-Runs, transform_dataset-nil,
}

module _ {E F R : Type 0} where
  -- Filter and Map: an option appends a function on data sets to those that are there. The fuel is
  -- for the calls of Next by itself in a filter.
  filter_option :
      ℕ
      → Option (R → Bool)
      → List (Dataset E F R → Dataset E F R)
      → List (Dataset E F R → Dataset E F R)
  filter_option fuel p fs = fs ++ (filter_dataset fuel p ∷ [])

  map_option :
      Option (List F → List F)
      → Option (R → Outcome E R)
      → List (Dataset E F R → Dataset E F R)
      → List (Dataset E F R → Dataset E F R)
  map_option g f fs = fs ++ (transform_dataset g f ∷ [])

  -- Pipe: the options in their order, and then what they appended, each on the one before it
  gather :
      List (List (Dataset E F R → Dataset E F R) → List (Dataset E F R → Dataset E F R))
      → List (Dataset E F R → Dataset E F R)
      → List (Dataset E F R → Dataset E F R)
  gather [] fs = fs
  gather (option ∷ options) fs = gather options (option fs)

  run_through : List (Dataset E F R → Dataset E F R) → Dataset E F R → Dataset E F R
  run_through [] d = d
  run_through (f ∷ fs) d = run_through fs (f d)

  pub pipe :
      Dataset E F R
      → List (List (Dataset E F R → Dataset E F R) → List (Dataset E F R → Dataset E F R))
      → Dataset E F R
  pipe root options = run_through (gather options []) root

-- The arguments of the options, `none` being nil, and what each does to a list of rows and its end
pub data Stage (E F R : Type 0) : Type 0 where
  keep : Option (R → Bool) → Stage E F R
  change : Option (List F → List F) → Option (R → Outcome E R) → Stage E F R

module _ {E F R : Type 0} where
  pub option_of :
      ℕ → Stage E F R → List (Dataset E F R → Dataset E F R) → List (Dataset E F R → Dataset E F R)
  option_of fuel (keep p) = filter_option fuel p
  option_of fuel (change g f) = map_option g f

  pub options_of :
      ℕ
      → List (Stage E F R)
      → List (List (Dataset E F R → Dataset E F R) → List (Dataset E F R → Dataset E F R))
  options_of fuel [] = []
  options_of fuel (s ∷ ss) = option_of fuel s ∷ options_of fuel ss

  abbrev pub stage_rows : Stage E F R → List R × End E → List R × End E
  stage_rows (keep none) (l, e) = (l, e)
  stage_rows (keep (some p)) (l, e) = (filter p l, e)
  stage_rows (change g none) (l, e) = (l, e)
  stage_rows (change g (some f)) (l, e) = transformed f l e

  abbrev pub staged : List (Stage E F R) → List R × End E → List R × End E
  staged [] q = q
  staged (s ∷ ss) q = staged ss (stage_rows s q)

  function_of : ℕ → Stage E F R → Dataset E F R → Dataset E F R
  function_of fuel (keep p) = filter_dataset fuel p
  function_of fuel (change g f) = transform_dataset g f

  functions_of : ℕ → List (Stage E F R) → List (Dataset E F R → Dataset E F R)
  functions_of fuel [] = []
  functions_of fuel (s ∷ ss) = function_of fuel s ∷ functions_of fuel ss

  option-appends :
      (fuel : ℕ) (s : Stage E F R) (fs : List (Dataset E F R → Dataset E F R))
      → option_of fuel s fs ≡ fs ++ (function_of fuel s ∷ [])
  unfolding option_of filter_option map_option function_of
  option-appends fuel (keep p) fs = refl
  option-appends fuel (change g f) fs = refl

  gather-appends :
      (fuel : ℕ) (ss : List (Stage E F R)) (fs : List (Dataset E F R → Dataset E F R))
      → gather (options_of fuel ss) fs ≡ fs ++ functions_of fuel ss
  unfolding gather options_of functions_of
  gather-appends fuel [] fs = sym (append-nil fs)
  gather-appends fuel (s ∷ ss) fs =
      ap (gather (options_of fuel ss)) (option-appends fuel s fs)
      ∙ gather-appends fuel ss (fs ++ (function_of fuel s ∷ []))
      ∙ append_assoc fs (function_of fuel s ∷ []) (functions_of fuel ss)

length-filter : {R : Type 0} (p : R → Bool) (l : List R) → length (filter p l) ≤ length l
length-filter p [] = omega arith
length-filter p (r ∷ l) =
    let rest = length-filter p l in
    elim (Bool-cases (p r)) [
      | inl e ↦ rw (e) (omega (arith, rest))
      | inr e ↦ rw (e) (omega (arith, rest))
    ]

length-kept :
    {E R : Type 0} (o : Outcome E R) (n : ℕ) (q : List R × End E)
    → length q.0 ≤ n
    → length (kept o q).0 ≤ suc n
length-kept (ok r) n q h = omega (arith, h)
length-kept (fault e) n q h = omega arith

length-transformed :
    {E R : Type 0} (f : R → Outcome E R) (l : List R) (e : End E)
    → length (transformed f l e).0 ≤ length l
length-transformed f [] e = omega arith
length-transformed f (r ∷ l) e =
    length-kept (f r) (length l) (transformed f l e) (length-transformed f l e)

length-stage_rows :
    {E F R : Type 0} (s : Stage E F R) (l : List R) (e : End E)
    → length (stage_rows s (l, e)).0 ≤ length l
length-stage_rows (keep none) l e = omega arith
length-stage_rows (keep (some p)) l e = length-filter p l
length-stage_rows (change g none) l e = omega arith
length-stage_rows (change g (some f)) l e = length-transformed f l e

function_of-Runs :
    {E F R : Type 0} (fuel : ℕ) (s : Stage E F R) (d : Dataset E F R) (l : List R) (e : End E)
    → length l < fuel
    → Runs d l e
    → Runs (function_of fuel s d) (stage_rows s (l, e)).0 (stage_rows s (l, e)).1
unfolding function_of
function_of-Runs fuel (keep none) d l e big h = filter_dataset-nil fuel d l e h
function_of-Runs fuel (keep (some p)) d l e big h = filter_dataset-Runs p d l e fuel big h
function_of-Runs fuel (change g none) d l e big h = transform_dataset-nil g d l e h
function_of-Runs fuel (change g (some f)) d l e big h = transform_dataset-Runs g f d l e h

run_through-Runs :
    {E F R : Type 0} (fuel : ℕ) (ss : List (Stage E F R)) (d : Dataset E F R) (l : List R)
    (e : End E)
    → length l < fuel
    → Runs d l e
    → Runs (run_through (functions_of fuel ss) d) (staged ss (l, e)).0 (staged ss (l, e)).1
unfolding run_through functions_of
run_through-Runs fuel [] d l e big h = h
run_through-Runs fuel (s ∷ ss) d l e big h =
    run_through-Runs fuel ss (function_of fuel s d) (stage_rows s (l, e)).0 (stage_rows s (l, e)).1
      (omega (arith, length-stage_rows s l e, big)) (function_of-Runs fuel s d l e big h)

-- Pipe of any options Filter and Map over a data set whose rows are `l`, with an end and fuel of
-- more than their number: the rows and the end are what the options make of them one after the
-- other, a filter by dropping rows, a nil predicate or function by changing nothing, a map by changing them up to the first that it refuses, whose
-- error is then the end.
pub pipe-Runs :
    {E F R : Type 0} (fuel : ℕ) (ss : List (Stage E F R)) (d : Dataset E F R) (l : List R)
    (e : End E)
    → length l < fuel
    → Runs d l e
    → Runs (pipe d (options_of fuel ss)) (staged ss (l, e)).0 (staged ss (l, e)).1
unfolding pipe
pipe-Runs fuel ss d l e big h =
    subst (λ fs. Runs (run_through fs d) (staged ss (l, e)).0 (staged ss (l, e)).1)
      (sym (gather-appends fuel ss [])) (run_through-Runs fuel ss d l e big h)
