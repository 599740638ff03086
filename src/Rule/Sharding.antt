-- ===== src/Rule/Sharding.antt =====
-- pkg/proto/rule/rule.go: virtual shards, and the choice of a shard for the values of a row.
-- A value is of any type; an int is a 64-bit word in two's complement.
mod Names
mod Routing
mod Search
mod Examples
use text.Mathlib.Text.{◌==◌ as str_eq}
use arana.Rule.Steps.{Stepper}
use arana.Prelude.{
  ℕ, ◌%◌, ◌^◌, String, Bool, true, false, ◌&&◌, ◌||◌, Option, none, some, List, [], ◌∷◌, ◌++◌, map,
  if◌then◌else◌,
}

-- The variables and the function of a ShardComputer; `none` is its error.
pub record Computer (V : Type 0) : Type 0 where
  pub names : List String
  pub compute : List (Option V) → Option ℕ

-- `steps` is an int.
pub record ShardColumn : Type 0 where
  pub name : String
  pub steps : ℕ
  pub stepper : Stepper

-- ShardMetadata
pub record Metadata (V : Type 0) : Type 0 where
  pub columns : List ShardColumn
  pub computer : Computer V

-- `visited` is the `variables` field, once the sync.Once has run.
pub record VShard (V : Type 0) : Type 0 where
  pub db : Option (Metadata V)
  pub table : Option (Metadata V)
  pub visited : Option (List String)

abbrev pub Inputs : Type 0 → Type 0
Inputs V = List (String × V)

pub data Fault : Type 0 where
  conflict_vshards : Fault
  no_vshards : Fault
  db_failed : Fault
  table_failed : Fault

pub data Routed : Type 0 where
  routed : ℕ → ℕ → Routed
  failed : Fault → Routed

-- GetShardColumn, on the columns of the metadata
pub get_shard_column : List ShardColumn → String → Option ShardColumn
get_shard_column [] name = none
get_shard_column (c ∷ columns) name =
    let rest = get_shard_column columns name in if str_eq c.name name then some c else rest

-- `visits[x]`
pub has_name : String → List String → Bool
has_name x [] = false
has_name x (y ∷ ys) = str_eq x y || has_name x ys

abbrev pub add_name : List String → String → List String
add_name seen x = if has_name x seen then seen else seen ++ (x ∷ [])

-- the closure `handle`
pub add_names : List String → List String → List String
add_names seen [] = seen
add_names seen (x ∷ xs) = add_names (add_name seen x) xs

pub same_names : List String → List String → Bool
same_names [] [] = true
same_names (x ∷ xs) (y ∷ ys) = str_eq x y && same_names xs ys
same_names _ _ = false

module _ {V : Type 0} where
  abbrev pub names_of : Option (Metadata V) → List String
  names_of none = []
  names_of (some m) = m.computer.names

  -- Variables, and what it leaves in the VShard
  pub variables : VShard V → List String
  variables vs = elim vs.visited [
    | some names ↦ names
    | none ↦ add_names (add_names [] (names_of vs.db)) (names_of vs.table)
  ]

  pub once : VShard V → VShard V
  once vs = record { db = vs.db; table = vs.table; visited = some (variables vs) }

  -- `inputs[key]`
  pub lookup : Inputs V → String → Option V
  lookup [] key = none
  lookup ((k, x) ∷ inputs) key = if str_eq k key then some x else lookup inputs key

  abbrev pub is_some : Option V → Bool
  is_some none = false
  is_some (some x) = true

  pub covers : Inputs V → List String → Bool
  covers inputs [] = true
  covers inputs (x ∷ xs) = is_some (lookup inputs x) && covers inputs xs

  -- One turn of the first loop of Shard; `none` is the conflict.
  abbrev pub next_bingo : Inputs V → VShard V → Option (VShard V) → Option (Option (VShard V))
  next_bingo inputs vs bingo =
      if covers inputs (variables vs)
      then (elim bingo [ some other ↦ none | none ↦ some (some (once vs)) ])
      else some bingo

  -- The loop, with the shards as it leaves them.
  pub choose :
      Inputs V → List (VShard V) → Option (VShard V) → Option (Option (VShard V)) × List (VShard V)
  choose inputs [] bingo = (some bingo, [])
  choose inputs (vs ∷ rest) bingo = elim (next_bingo inputs vs bingo) [
    | none ↦ (none, once vs ∷ rest)
    | some b ↦ let r = choose inputs rest b in (r.0, once vs ∷ r.1)
  ]

  -- the closure `compute`
  pub compute_with : Inputs V → Computer V → Option ℕ
  compute_with inputs c = c.compute (map (lookup inputs) c.names)

  abbrev pub compute_or_zero : Inputs V → Option (Metadata V) → Option ℕ
  compute_or_zero inputs none = some 0
  compute_or_zero inputs (some m) = compute_with inputs m.computer

  pub compute_both : Inputs V → VShard V → Routed
  compute_both inputs vs = elim (compute_or_zero inputs vs.db) [
    | none ↦ failed db_failed
    | some db ↦ elim (compute_or_zero inputs vs.table) [
      | none ↦ failed table_failed
      | some table ↦ routed (db % 2 ^ 32) (table % 2 ^ 32)
    ]
  ]

  abbrev pub route : Inputs V → Option (Option (VShard V)) → Routed
  route inputs none = failed conflict_vshards
  route inputs (some none) = failed no_vshards
  route inputs (some (some vs)) = compute_both inputs vs

  -- VTable.Shard on the shards of the table
  pub shard : Inputs V → List (VShard V) → Routed × List (VShard V)
  shard inputs shards = let r = choose inputs shards none in (route inputs r.0, r.1)

  -- SearchVShard
  pub search_vshard : List String → List (VShard V) → Option (VShard V) × List (VShard V)
  search_vshard keys [] = (none, [])
  search_vshard keys (vs ∷ rest) =
      let r = search_vshard keys rest in
      if same_names (variables vs) keys
      then (some (once vs), once vs ∷ rest)
      else (r.0, once vs ∷ r.1)

  -- HasVShard
  abbrev pub has_vshard : List String → List (VShard V) → Bool
  has_vshard keys shards = elim (search_vshard keys shards).0 [ none ↦ false | some vs ↦ true ]

  -- AddVShards
  abbrev pub add_vshards : List (VShard V) → VShard V → List (VShard V)
  add_vshards shards vs = shards ++ (vs ∷ [])
