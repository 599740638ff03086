-- ===== src/Dataset/Fuse.antt =====
-- pkg/dataset/fuse.go: data sets one after the other. `S` is the type of the objects, on which
-- Next, Close and Fields are called; a generator's call gives an object or an error.
use arana.Prelude.{◌≡◌, ap, subst, sym, refl, Option, none, some, List, [], ◌∷◌, ◌++◌}
use arana.Dataset.Streams.{
  Outcome, ok, fault, Answer, row, eof, failed, pending, End, at_eof, at_fault, Yields, Then,
  Then-Yields,
}

pub record Fused (E F S : Type 0) : Type 0 where
  pub columns : List F
  pub current : Option S
  pub generators : List (Outcome E S)

-- FuseableDataset.Close
unfoldable pub fuse_close :
    {E F S : Type 0} → (S → Option E × S) → Fused E F S → Option E × Fused E F S
fuse_close close fu = elim fu.current [
  | none ↦ (none, fu)
  | some s ↦ let (failure, closed) = close s in (failure, record fu { current = some closed })
]

module _ {E F R S : Type 0} where
  -- The end of nextDataset: the object that the generator made, or its error
  start_next :
      Outcome E S
      → List F
      → List (Outcome E S)
      → (S → Answer E R × Fused E F S)
      → Answer E R × Fused E F S
  start_next (ok s) columns rest again = again s
  start_next (fault e) columns rest again =
      (failed e, record { columns = columns; current = none; generators = rest })

  -- nextDataset: the current object is closed, and dropped if that succeeds.
  close_then :
      Option E × S
      → List F
      → List (Outcome E S)
      → Answer E R × Fused E F S
      → Answer E R × Fused E F S
  close_then (some e, s) columns rest moved =
      (failed e, record { columns = columns; current = some s; generators = rest })
  close_then (none, s) columns rest moved = moved

  answer_of :
      Answer E R × S
      → (S → Option E × S)
      → List F
      → List (Outcome E S)
      → Answer E R × Fused E F S
      → Answer E R × Fused E F S
  answer_of (eof, s) close columns rest moved = close_then (close s) columns rest moved
  answer_of (row r, s) close columns rest moved =
      (row r, record { columns = columns; current = some s; generators = rest })
  answer_of (failed e, s) close columns rest moved =
      (failed e, record { columns = columns; current = some s; generators = rest })
  answer_of (pending, s) close columns rest moved =
      (pending, record { columns = columns; current = some s; generators = rest })

module _ {E F R S : Type 0} (next : S → Answer E R × S) (close : S → Option E × S) where
  -- Next with a current object: it calls itself once for each generator at most.
  fuse_from : List F → List (Outcome E S) → S → Answer E R × Fused E F S
  fuse_from columns [] s =
      answer_of (next s) close columns []
        (eof, record { columns = columns; current = none; generators = [] })
  fuse_from columns (g ∷ rest) s =
      answer_of (next s) close columns (g ∷ rest)
        (start_next g columns rest (fuse_from columns rest))

  pub fuse_next : Fused E F S → Answer E R × Fused E F S
  fuse_next fu = elim fu.current [
    | none ↦ (eof, fu)
    | some s ↦ fuse_from fu.columns fu.generators s
  ]

-- Fuse
start_fused :
    {E F S : Type 0} → S → Outcome E (List F) → List (Outcome E S) → Outcome E (Fused E F S)
start_fused s (ok columns) others =
    ok (record { columns = columns; current = some s; generators = others })
start_fused s (fault e) others = fault e

pub fuse :
    {E F S : Type 0}
    → (S → Outcome E (List F))
    → Outcome E S
    → List (Outcome E S)
    → Outcome E (Fused E F S)
fuse fields (fault e) others = fault e
fuse fields (ok s) others = start_fused s (fields s) others

-- What a generator stands for: the rows of its object and their end, or its error
abbrev pub Gives : {E R S : Type 0} → (S → Answer E R × S) → Outcome E S → List R × End E → Type 0
Gives next (ok s) p = Yields next s p.0 p.1
Gives next (fault e) p = p ≡ ([], at_fault e)

abbrev pub AllGive :
    {E R S : Type 0} → (S → Answer E R × S) → List (Outcome E S) → List (List R × End E) → Type 0
AllGive next [] [] = Unit
AllGive next (g ∷ gs) (p ∷ ps) = Gives next g p × AllGive next gs ps
AllGive next [] (p ∷ ps) = ⊥
AllGive next (g ∷ gs) [] = ⊥

-- One after the other, up to the first that ends with an error
abbrev pub joined : {E R : Type 0} → List R × End E → List (List R × End E) → List R × End E
joined (l, at_fault e) ps = (l, at_fault e)
joined (l, at_eof) [] = (l, at_eof)
joined (l, at_eof) (p ∷ ps) = let rest = joined p ps in (l ++ rest.0, rest.1)

module _ {E F R S : Type 0} (next : S → Answer E R × S) (close : S → Option E × S)
    (closes : (s : S) → (close s).0 ≡ none) (columns : List F) where
  answer_of-row :
      (q : Answer E R × S) (r : R) (rest : List (Outcome E S)) (moved : Answer E R × Fused E F S)
      → q.0 ≡ row r
      → answer_of q close columns rest moved
        ≡ (row r, record { columns = columns; current = some q.1; generators = rest })
  unfolding answer_of
  answer_of-row (a, s) r rest moved h = rw (h) refl

  answer_of-fault :
      (q : Answer E R × S) (e : E) (rest : List (Outcome E S)) (moved : Answer E R × Fused E F S)
      → q.0 ≡ failed e
      → (answer_of q close columns rest moved).0 ≡ failed e
  unfolding answer_of
  answer_of-fault (a, s) e rest moved h = rw (h) refl

  close_then-none :
      (q : Option E × S) (rest : List (Outcome E S)) (moved : Answer E R × Fused E F S)
      → q.0 ≡ none
      → close_then q columns rest moved ≡ moved
  unfolding close_then
  close_then-none (a, s) rest moved h = rw (h) refl

  answer_of-eof :
      (q : Answer E R × S) (rest : List (Outcome E S)) (moved : Answer E R × Fused E F S)
      → q.0 ≡ eof
      → answer_of q close columns rest moved ≡ moved
  unfolding answer_of
  answer_of-eof (a, s) rest moved h = rw (h) (close_then-none (close s) rest moved (closes s))

  fuse_from-row :
      (gens : List (Outcome E S)) (s : S) (r : R)
      → (next s).0 ≡ row r
      → fuse_from next close columns gens s
        ≡ (row r, record { columns = columns; current = some (next s).1; generators = gens })
  unfolding fuse_from
  fuse_from-row [] s r h = answer_of-row (next s) r [] _ h
  fuse_from-row (g ∷ gens) s r h = answer_of-row (next s) r (g ∷ gens) _ h

  fuse_from-fault :
      (gens : List (Outcome E S)) (s : S) (e : E)
      → (next s).0 ≡ failed e
      → (fuse_from next close columns gens s).0 ≡ failed e
  unfolding fuse_from
  fuse_from-fault [] s e h = answer_of-fault (next s) e [] _ h
  fuse_from-fault (g ∷ gens) s e h = answer_of-fault (next s) e (g ∷ gens) _ h

  -- A row, and then what the rest of the object and the generators give
  fuse_from-more :
      (gens : List (Outcome E S)) (s : S) (r : R) (l : List R) (e : End E)
      → (next s).0 ≡ row r
      → Then (fuse_next next close) (fuse_from next close columns gens (next s).1) l e
      → Then (fuse_next next close) (fuse_from next close columns gens s) (r ∷ l) e
  unfolding fuse_next
  fuse_from-more gens s r l e h rest =
      let after : Fused E F S = record {
        columns = columns;
        current = some (next s).1;
        generators = gens;
      } in
      rw (fuse_from-row gens s r h) (refl, Then-Yields (fuse_next next close) after l e rest)

  fuse_from-Then :
      (gens : List (Outcome E S)) (ps : List (List R × End E)) (l : List R) (e : End E) (s : S)
      → Yields next s l e
      → AllGive next gens ps
      → Then
          (fuse_next next close)
          (fuse_from next close columns gens s)
          (joined (l, e) ps).0
          (joined (l, e) ps).1
  unfolding fuse_from start_next
  fuse_from-Then gens ps [] (at_fault b) s h all = fuse_from-fault gens s b h
  fuse_from-Then gens ps (r ∷ l) (at_fault b) s h all =
      fuse_from-more gens s r l (at_fault b) h.0
        (fuse_from-Then gens ps l (at_fault b) (next s).1 h.1 all)
  fuse_from-Then [] (p ∷ ps) l at_eof s h all = elim all [ ]
  fuse_from-Then (g ∷ gens) [] l at_eof s h all = elim all [ ]
  fuse_from-Then [] [] [] at_eof s h all = ap (λ q. q.0) (answer_of-eof (next s) [] _ h)
  fuse_from-Then [] [] (r ∷ l) at_eof s h all =
      fuse_from-more [] s r l at_eof h.0 (fuse_from-Then [] [] l at_eof (next s).1 h.1 all)
  fuse_from-Then (ok t ∷ gens) ((m, e) ∷ ps) [] at_eof s h all =
      rw (answer_of-eof (next s) (ok t ∷ gens) (fuse_from next close columns gens t) h)
        (fuse_from-Then gens ps m e t all.0 all.1)
  fuse_from-Then (fault b ∷ gens) (p ∷ ps) [] at_eof s h all =
      let stopped : Fused E F S = record { columns = columns; current = none; generators = gens } in
      subst
        (λ q.
          Then (fuse_next next close) (fuse_from next close columns (fault b ∷ gens) s)
            (joined ([], at_eof) (q ∷ ps)).0 (joined ([], at_eof) (q ∷ ps)).1)
        (sym all.0) (ap (λ q. q.0) (answer_of-eof (next s) (fault b ∷ gens) (failed b, stopped) h))
  fuse_from-Then (g ∷ gens) (p ∷ ps) (r ∷ l) at_eof s h all =
      fuse_from-more (g ∷ gens) s r (l ++ (joined p ps).0) (joined p ps).1 h.0
        (fuse_from-Then (g ∷ gens) (p ∷ ps) l at_eof (next s).1 h.1 all)

-- Fuse of a first object and generators, where the first gives its fields and every Close
-- succeeds: the data set gives the rows of the first and of the generators one after the other, up
-- to the first that ends with an error or that its generator cannot make, and ends with that error
-- or at the end of the last one.
pub fuse-joined :
    {E F R S : Type 0} (next : S → Answer E R × S) (close : S → Option E × S)
    (fields : S → Outcome E (List F)) (s : S) (columns : List F) (l : List R) (e : End E)
    (gens : List (Outcome E S)) (ps : List (List R × End E))
    → ((t : S) → (close t).0 ≡ none)
    → fields s ≡ ok columns
    → Yields next s l e
    → AllGive next gens ps
    → (fu : Fused E F S) × (fuse fields (ok s) gens ≡ ok fu)
      × Yields (fuse_next next close) fu (joined (l, e) ps).0 (joined (l, e) ps).1
unfolding fuse start_fused fuse_next
fuse-joined next close fields s columns l e gens ps closes known h all =
    let fu : Fused _ _ _ = record { columns = columns; current = some s; generators = gens } in
    (
      fu,
      rw (known) refl,
      Then-Yields (fuse_next next close) fu (joined (l, e) ps).0 (joined (l, e) ps).1
          (fuse_from-Then next close closes columns gens ps l e s h all),
    )
