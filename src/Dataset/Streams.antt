-- ===== src/Dataset/Streams.antt =====
-- proto.Dataset (pkg/proto/data.go): an object whose Next gives its rows one by one. What a reader
-- of the object sees is the list of its rows and the way in which it ends.
use arana.Prelude.{◌≡◌, List, [], ◌∷◌, Option}

-- A value and no error, or an error other than io.EOF
pub data Outcome {ℓ} (E : Type 0) (A : Type ℓ) : Type ℓ where
  ok : A → Outcome E A
  fault : E → Outcome E A

-- What a call of Next gives. `pending` is no answer of the code: the call has not returned within
-- the fuel.
pub data Answer (E R : Type 0) : Type 0 where
  row : R → Answer E R
  eof : Answer E R
  failed : E → Answer E R
  pending : Answer E R

-- An object, its fields and its methods
pub record Dataset (E F R : Type 0) : Type 1 where
  pub State : Type 0
  pub state : State
  pub next : State → Answer E R × State
  pub close : State → Option E × State
  pub fields : Outcome E (List F)

-- How a data set ends
pub data End (E : Type 0) : Type 0 where
  at_eof : End E
  at_fault : E → End E

abbrev pub end_answer : {E R : Type 0} → End E → Answer E R
end_answer at_eof = eof
end_answer (at_fault e) = failed e

-- From the state `s` on, the calls of `next` give the rows of the list and then the end.
abbrev pub Yields : {E R S : Type 0} → (S → Answer E R × S) → S → List R → End E → Type 0
Yields next s [] e = (next s).0 ≡ end_answer e
Yields next s (r ∷ l) e = ((next s).0 ≡ row r) × Yields next (next s).1 l e

-- The same of an answer that has been given
abbrev pub Then : {E R S : Type 0} → (S → Answer E R × S) → Answer E R × S → List R → End E → Type 0
Then next q [] e = q.0 ≡ end_answer e
Then next q (r ∷ l) e = (q.0 ≡ row r) × Yields next q.1 l e

pub Then-Yields :
    {E R S : Type 0} (next : S → Answer E R × S) (s : S) (l : List R) (e : End E)
    → Then next (next s) l e
    → Yields next s l e
Then-Yields next s [] e h = h
Then-Yields next s (r ∷ l) e h = h

pub Yields-Then :
    {E R S : Type 0} (next : S → Answer E R × S) (s : S) (l : List R) (e : End E)
    → Yields next s l e
    → Then next (next s) l e
Yields-Then next s [] e h = h
Yields-Then next s (r ∷ l) e h = h

abbrev pub Runs : {E F R : Type 0} → Dataset E F R → List R → End E → Type 0
Runs d l e = Yields d.next d.state l e
