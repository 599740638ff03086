-- ===== src/Rule/Sharding/Search.antt =====
-- SearchVShard of pkg/proto/rule/rule.go, and what a call leaves in the virtual shards for the next
-- one.
use text.Mathlib.TextEquality.{eq_iff}
use arana.Prelude.{
  ◌≡◌, ◌≢◌, refl, sym, ap, subst, ◌∙◌, ◌⊎◌, inl, inr, arith, String, true, false, Option, none,
  some, List, [], ◌∷◌, Bool-cases,
}
use arana.Rule.Sharding.{
  VShard, Inputs, variables, once, covers, choose, shard, same_names, search_vshard,
}
use arana.Rule.Sharding.Routing.{covering, outcome, shard-covering}

same_names-≡ : (xs ys : List String) → same_names xs ys ≡ true → xs ≡ ys
unfolding same_names
same_names-≡ [] [] h = refl
same_names-≡ [] (y ∷ ys) h = ground arith
same_names-≡ (x ∷ xs) [] h = ground arith
same_names-≡ (x ∷ xs) (y ∷ ys) h = ground (arith, eq_iff x y, same_names-≡ xs ys)

same_names_refl : (xs : List String) → same_names xs xs ≡ true
unfolding same_names
same_names_refl [] = refl
same_names_refl (x ∷ xs) = rw ((eq_iff x x).1 refl) (same_names_refl xs)

not-same_names : (xs ys : List String) → same_names xs ys ≡ false → xs ≢ ys
not-same_names xs ys h e =
    ground (arith, subst (λ zs. same_names xs zs ≡ true) e (same_names_refl xs))

-- `o` is the first of the shards whose variables are the keys, or none where no shard has them.
abbrev pub IsFirst : {V : Type 0} → List String → List (VShard V) → Option (VShard V) → Type 0
IsFirst keys [] o = o ≡ none
IsFirst keys (vs ∷ rest) o =
    ((variables vs ≡ keys) × (o ≡ some (once vs))) ⊎ ((variables vs ≢ keys) × IsFirst keys rest o)

-- Each shard is as it was, or has its variables computed.
abbrev pub Visited : {V : Type 0} → List (VShard V) → List (VShard V) → Type 0
Visited [] [] = Unit
Visited (vs ∷ shards) (ws ∷ after) = ((ws ≡ vs) ⊎ (ws ≡ once vs)) × Visited shards after
Visited _ _ = ⊥

module _ {V : Type 0} where
  -- SearchVShard gives the first virtual shard whose variables are the keys, in their order, and
  -- nothing where no virtual shard has them.
  pub search_vshard-IsFirst :
      (keys : List String) (shards : List (VShard V))
      → IsFirst keys shards (search_vshard keys shards).0
  unfolding search_vshard
  search_vshard-IsFirst keys [] = refl
  search_vshard-IsFirst keys (vs ∷ rest) = elim (Bool-cases (same_names (variables vs) keys)) [
    | inl e ↦ inl (same_names-≡ (variables vs) keys e, rw (e, search_vshard) refl)
    | inr e ↦ inr (
      not-same_names (variables vs) keys e,
      rw (e, search_vshard) (search_vshard-IsFirst keys rest),
    )
  ]

  Visited-refl : (shards : List (VShard V)) → Visited shards shards
  Visited-refl [] = tt
  Visited-refl (vs ∷ shards) = (inl refl, Visited-refl shards)

  search_vshard-Visited :
      (keys : List String) (shards : List (VShard V)) → Visited shards (search_vshard keys shards).1
  unfolding search_vshard
  search_vshard-Visited keys [] = tt
  search_vshard-Visited keys (vs ∷ rest) = elim (Bool-cases (same_names (variables vs) keys)) [
    | inl e ↦ rw (e, search_vshard) (inr refl, Visited-refl rest)
    | inr e ↦ rw (e, search_vshard) (inr refl, search_vshard-Visited keys rest)
  ]

  choose-Visited :
      (inputs : Inputs V) (shards : List (VShard V)) (bingo : Option (VShard V))
      → Visited shards (choose inputs shards bingo).1
  unfolding choose
  choose-Visited inputs [] bingo = tt
  choose-Visited inputs (vs ∷ rest) none = elim (Bool-cases (covers inputs (variables vs))) [
    | inl e ↦ rw (e, choose) (inr refl, choose-Visited inputs rest (some (once vs)))
    | inr e ↦ rw (e, choose) (inr refl, choose-Visited inputs rest none)
  ]
  choose-Visited inputs (vs ∷ rest) (some b) = elim (Bool-cases (covers inputs (variables vs))) [
    | inl e ↦ rw (e, choose) (inr refl, Visited-refl rest)
    | inr e ↦ rw (e, choose) (inr refl, choose-Visited inputs rest (some b))
  ]

  shard-Visited :
      (inputs : Inputs V) (shards : List (VShard V)) → Visited shards (shard inputs shards).1
  unfolding shard
  shard-Visited inputs shards = choose-Visited inputs shards none

  variables-visited : (vs ws : VShard V) → (ws ≡ vs) ⊎ (ws ≡ once vs) → variables ws ≡ variables vs
  unfolding variables once
  variables-visited vs ws (inl e) = ap variables e
  variables-visited vs ws (inr e) = ap variables e

  outcome-visited :
      (inputs : Inputs V) (vs ws : VShard V)
      → (ws ≡ vs) ⊎ (ws ≡ once vs)
      → outcome inputs (ws ∷ []) ≡ outcome inputs (vs ∷ [])
  unfolding once
  outcome-visited inputs vs ws (inl e) = ap (λ s. outcome inputs (s ∷ [])) e
  outcome-visited inputs vs ws (inr e) = ap (λ s. outcome inputs (s ∷ [])) e

  covering-Visited :
      (inputs : Inputs V) (shards after : List (VShard V))
      → Visited shards after
      → Visited (covering inputs shards) (covering inputs after)
  covering-Visited inputs [] [] h = tt
  covering-Visited inputs [] (ws ∷ after) h = absurd h
  covering-Visited inputs (vs ∷ shards) [] h = absurd h
  covering-Visited inputs (vs ∷ shards) (ws ∷ after) (one, h) =
      elim (Bool-cases (covers inputs (variables vs))) [
        | inl e ↦ rw (variables-visited vs ws one, e) (one, covering-Visited inputs shards after h)
        | inr e ↦ rw (variables-visited vs ws one, e) (covering-Visited inputs shards after h)
      ]

  outcome-Visited :
      (inputs : Inputs V) (shards after : List (VShard V))
      → Visited shards after
      → outcome inputs after ≡ outcome inputs shards
  outcome-Visited inputs [] [] h = refl
  outcome-Visited inputs (vs ∷ []) (ws ∷ []) h = outcome-visited inputs vs ws h.0
  outcome-Visited inputs (vs ∷ x ∷ xs) (ws ∷ y ∷ ys) h = refl
  outcome-Visited inputs [] (ws ∷ after) h = absurd h
  outcome-Visited inputs (vs ∷ shards) [] h = absurd h
  outcome-Visited inputs (vs ∷ []) (ws ∷ y ∷ ys) h = absurd h.1
  outcome-Visited inputs (vs ∷ x ∷ xs) (ws ∷ []) h = absurd h.1

  -- What an earlier call of Shard or of SearchVShard leaves in the virtual shards does not change what
  -- Shard gives.
  pub shard-again :
      (inputs before : Inputs V) (keys : List String) (shards : List (VShard V))
      → ((shard inputs (shard before shards).1).0 ≡ (shard inputs shards).0)
        × ((shard inputs (search_vshard keys shards).1).0 ≡ (shard inputs shards).0)
  shard-again inputs before keys shards = (
    same (shard before shards).1 (shard-Visited before shards),
    same (search_vshard keys shards).1 (search_vshard-Visited keys shards),
  )
    where
      same :
          (after : List (VShard V))
          → Visited shards after
          → (shard inputs after).0 ≡ (shard inputs shards).0
      same after h =
          (shard-covering inputs after).0
          ∙ outcome-Visited inputs (covering inputs shards) (covering inputs after)
              (covering-Visited inputs shards after h)
          ∙ sym (shard-covering inputs shards).0
