-- ===== src/Dataset/Transform.antt =====
-- pkg/dataset/transform.go: a data set that changes the rows of another.
use arana.Prelude.{◌≡◌, refl, ap, Option, none, some, List, [], ◌∷◌}
use arana.Dataset.Streams.{
  Outcome, ok, fault, Answer, row, eof, failed, pending, Dataset, End, at_eof, at_fault, end_answer,
  Yields, Then, Then-Yields, Runs,
}

-- TransformDataset.Next
unfoldable pub transform_row : {E R : Type 0} → Outcome E R → Answer E R
transform_row (ok r) = row r
transform_row (fault e) = failed e

transform_with : {E R S : Type 0} → (R → Outcome E R) → Answer E R × S → Answer E R × S
transform_with f (row r, s) = (transform_row (f r), s)
transform_with f (eof, s) = (eof, s)
transform_with f (failed e, s) = (failed e, s)
transform_with f (pending, s) = (pending, s)

transform_next :
    {E R S : Type 0} → Option (R → Outcome E R) → (S → Answer E R × S) → S → Answer E R × S
transform_next none next s = next s
transform_next (some f) next s = transform_with f (next s)

-- TransformDataset.Fields: of an object that gives its fields always alike, what is kept is what
-- is computed.
transform_fields :
    {E F : Type 0} → Option (List F → List F) → Outcome E (List F) → Outcome E (List F)
transform_fields g (fault e) = fault e
transform_fields none (ok origin) = ok origin
transform_fields (some g) (ok origin) = ok (g origin)

pub transform_dataset :
    {E F R : Type 0}
    → Option (List F → List F)
    → Option (R → Outcome E R)
    → Dataset E F R
    → Dataset E F R
transform_dataset g f d = record d {
  next = transform_next f d.next;
  fields = transform_fields g d.fields;
}

-- The rows up to the first that the function refuses, and the end that this makes
abbrev pub kept : {E R : Type 0} → Outcome E R → List R × End E → List R × End E
kept (ok r) (l, e) = (r ∷ l, e)
kept (fault b) (l, e) = ([], at_fault b)

abbrev pub transformed : {E A R : Type 0} → (A → Outcome E R) → List A → End E → List R × End E
transformed f [] e = ([], e)
transformed f (r ∷ l) e = kept (f r) (transformed f l e)

pub kept-Then :
    {E R S : Type 0} (next : S → Answer E R × S) (q : Answer E R × S) (o : Outcome E R)
    (rest : List R × End E)
    → q.0 ≡ transform_row o
    → Yields next q.1 rest.0 rest.1
    → Then next q (kept o rest).0 (kept o rest).1
unfolding transform_row
kept-Then next q (ok r) (l, e) h rest = (h, rest)
kept-Then next q (fault b) (l, e) h rest = h

transform_with-row :
    {E R S : Type 0} (f : R → Outcome E R) (q : Answer E R × S) (r : R)
    → q.0 ≡ row r
    → transform_with f q ≡ (transform_row (f r), q.1)
unfolding transform_with
transform_with-row f (a, s) r h = rw (h) refl

transform_with-end :
    {E R S : Type 0} (f : R → Outcome E R) (q : Answer E R × S) (e : End E)
    → q.0 ≡ end_answer e
    → (transform_with f q).0 ≡ end_answer e
unfolding transform_with
transform_with-end f (a, s) at_eof h = rw (h) refl
transform_with-end f (a, s) (at_fault e) h = rw (h) refl

transform_next-Yields :
    {E R S : Type 0} (f : R → Outcome E R) (next : S → Answer E R × S) (l : List R) (s : S)
    (e : End E)
    → Yields next s l e
    → Yields (transform_next (some f) next) s (transformed f l e).0 (transformed f l e).1
unfolding transform_next
transform_next-Yields f next [] s e h = transform_with-end f (next s) e h
transform_next-Yields f next (r ∷ l) s e h =
    let q = transform_with-row f (next s) r h.0 in
    Then-Yields (transform_next (some f) next) s (transformed f (r ∷ l) e).0
      (transformed f (r ∷ l) e).1
      (kept-Then (transform_next (some f) next) (transform_with f (next s)) (f r)
        (transformed f l e) (ap (λ t. t.0) q)
        (rw (q) (transform_next-Yields f next l (next s).1 e h.1)))

-- TransformDataset with a function, over a data set whose rows are `l`
pub transform_dataset-Runs :
    {E F R : Type 0} (g : Option (List F → List F)) (f : R → Outcome E R) (d : Dataset E F R)
    (l : List R) (e : End E)
    → Runs d l e
    → Runs (transform_dataset g (some f) d) (transformed f l e).0 (transformed f l e).1
unfolding transform_dataset
transform_dataset-Runs g f d l e h = transform_next-Yields f d.next l d.state e h

transform_next-nil :
    {E R S : Type 0} (next : S → Answer E R × S) (s : S) (l : List R) (e : End E)
    → Yields next s l e
    → Yields (transform_next none next) s l e
unfolding transform_next
transform_next-nil next s l e h = h

-- and without a function
pub transform_dataset-nil :
    {E F R : Type 0} (g : Option (List F → List F)) (d : Dataset E F R) (l : List R) (e : End E)
    → Runs d l e
    → Runs (transform_dataset g none d) l e
unfolding transform_dataset
transform_dataset-nil g d l e h = transform_next-nil d.next d.state l e h
