-- ===== src/Rule/Sharding/Routing.antt =====
-- VTable.Shard of pkg/proto/rule/rule.go against the virtual shards that the inputs cover.
use arana.Prelude.{
  ◌≡◌, refl, sym, subst, ◌∙◌, inl, inr, arith, String, ℕ, ◌%◌, ◌^◌, ◌↔◌, true, Option, none, some,
  List, [], ◌∷◌, map, if◌then◌else◌, Bool-cases, Option-cases,
}
use arana.Rule.Sharding.{
  VShard, Inputs, conflict_vshards, no_vshards, Routed, failed, variables, names_of, once, lookup,
  is_some, covers, choose, compute_both, compute_with, compute_or_zero, Metadata, db_failed,
  table_failed, routed, route, shard,
}
use arana.Rule.Sharding.Names.{In, variables-Distinct}

module _ {V : Type 0} (inputs : Inputs V) where
  -- The shards whose variables all have an input
  abbrev pub covering : List (VShard V) → List (VShard V)
  covering [] = []
  covering (vs ∷ shards) =
      if covers inputs (variables vs) then vs ∷ covering shards else covering shards

  -- The value of one computer for the inputs of its variables, 0 where there is none
  abbrev pub index_at : Option (Metadata V) → Option ℕ
  index_at none = some 0
  index_at (some m) = m.computer.compute (map (lookup inputs) m.computer.names)

  -- A database and a table as uint32, or the error of the first that has none
  abbrev pub answer_of : Option ℕ → Option ℕ → Routed
  answer_of none table = failed db_failed
  answer_of (some db) none = failed table_failed
  answer_of (some db) (some table) = routed (db % 2 ^ 32) (table % 2 ^ 32)

  -- What the covering shards make of the inputs
  abbrev pub outcome : List (VShard V) → Routed
  outcome [] = failed no_vshards
  outcome (vs ∷ []) = answer_of (index_at vs.db) (index_at vs.table)
  outcome (vs ∷ other ∷ rest) = failed conflict_vshards

  -- The same behind a shard that was chosen before
  abbrev outcome_after : Option (VShard V) → List (VShard V) → Routed
  outcome_after none shards = outcome shards
  outcome_after (some vs) shards = outcome (vs ∷ shards)

  compute_or_zero-index : (m : Option (Metadata V)) → compute_or_zero inputs m ≡ index_at m
  unfolding compute_with
  compute_or_zero-index none = refl
  compute_or_zero-index (some m) = refl

  compute_both-answer :
      (vs : VShard V) → compute_both inputs vs ≡ answer_of (index_at vs.db) (index_at vs.table)
  unfolding compute_both
  compute_both-answer vs = elim (Option-cases (compute_or_zero inputs vs.db)) [
    | inl e ↦ rw (sym (compute_or_zero-index vs.db), compute_both, e) refl
    | inr (db, e) ↦ elim (Option-cases (compute_or_zero inputs vs.table)) [
      | inl g ↦
          rw
            (
              sym (compute_or_zero-index vs.db),
              sym (compute_or_zero-index vs.table),
              compute_both,
              e,
              g,
            )
            refl
      | inr (table, g) ↦
          rw
            (
              sym (compute_or_zero-index vs.db),
              sym (compute_or_zero-index vs.table),
              compute_both,
              e,
              g,
            )
            refl
    ]
  ]

  outcome-once :
      (vs : VShard V) (shards : List (VShard V))
      → outcome (once vs ∷ shards) ≡ outcome (vs ∷ shards)
  unfolding once
  outcome-once vs [] = refl
  outcome-once vs (x ∷ shards) = refl

  choose-outcome :
      (shards : List (VShard V)) (bingo : Option (VShard V))
      → route inputs (choose inputs shards bingo).0 ≡ outcome_after bingo (covering shards)
  unfolding choose
  choose-outcome [] none = refl
  choose-outcome [] (some vs) = compute_both-answer vs
  choose-outcome (vs ∷ shards) none = elim (Bool-cases (covers inputs (variables vs))) [
    | inl e ↦
        rw (e, choose) (choose-outcome shards (some (once vs)) ∙ outcome-once vs (covering shards))
    | inr e ↦ rw (e, choose) (choose-outcome shards none)
  ]
  choose-outcome (vs ∷ shards) (some b) = elim (Bool-cases (covers inputs (variables vs))) [
    | inl e ↦ rw (e, choose) refl
    | inr e ↦ rw (e, choose) (choose-outcome shards (some b))
  ]

  covers-In :
      (xs : List String) (x : String)
      → covers inputs xs ≡ true
      → In x xs
      → is_some (lookup inputs x) ≡ true
  unfolding covers
  covers-In [] x h k = absurd k
  covers-In (y ∷ xs) x h (inl e) =
      subst (λ z. is_some (lookup inputs z) ≡ true) (sym e) (ground arith)
  covers-In (y ∷ xs) x h (inr k) = covers-In xs x (ground arith) k

  covers-all :
      (xs : List String)
      → ((x : String) → In x xs → is_some (lookup inputs x) ≡ true)
      → covers inputs xs ≡ true
  unfolding covers
  covers-all [] h = refl
  covers-all (x ∷ xs) h = rw (h x (inl refl), covers-all xs λ y k. h y (inr k)) refl

  -- Shard gives the indexes that the computers of the database and of the table make of the inputs of
  -- their variables, 0 where there is no computer, for the one virtual shard whose variables all have
  -- an input; it gives its error for none where there is none, its error for a conflict where there are
  -- several, and the error of the first computer that fails. A virtual shard passes the test exactly if
  -- each of its variables has an input.
  pub shard-covering :
      (shards : List (VShard V))
      → ((shard inputs shards).0 ≡ outcome (covering shards))
        × ((vs : VShard V)
            → (covers inputs (variables vs) ≡ true)
              ↔ ((x : String) → In x (variables vs) → is_some (lookup inputs x) ≡ true))
  unfolding shard
  shard-covering shards = (
    choose-outcome shards none,
    λ vs. ((λ h x k. covers-In (variables vs) x h k), covers-all (variables vs)),
  )

  abbrev pub AllGiven : List (Option V) → Type 0
  AllGiven [] = Unit
  AllGiven (none ∷ xs) = ⊥
  AllGiven (some x ∷ xs) = AllGiven xs

  given_one :
      (o : Option V) (os : List (Option V)) → is_some o ≡ true → AllGiven os → AllGiven (o ∷ os)
  given_one none os h k = ground arith
  given_one (some x) os h k = k

  given_all :
      (xs : List String)
      → ((x : String) → In x xs → is_some (lookup inputs x) ≡ true)
      → AllGiven (map (lookup inputs) xs)
  given_all [] h = tt
  given_all (x ∷ xs) h =
      given_one (lookup inputs x) _ (h x (inl refl)) (given_all xs λ y k. h y (inr k))

  -- Where the inputs cover a virtual shard that has not computed its variables yet, Shard gives a value
  -- of the inputs, never nil, for every variable of both of its computers.
  pub covers-AllGiven :
      (vs : VShard V)
      → vs.visited ≡ none
      → covers inputs (variables vs) ≡ true
      → AllGiven (map (lookup inputs) (names_of vs.db))
        × AllGiven (map (lookup inputs) (names_of vs.table))
  covers-AllGiven vs fresh h = (
    given_all (names_of vs.db)
        (λ x k. covers-In (variables vs) x h ((variables-Distinct vs x fresh).1.1 (inl k))),
    given_all (names_of vs.table)
        λ x k. covers-In (variables vs) x h ((variables-Distinct vs x fresh).1.1 (inr k)),
  )
