-- ===== src/Rule/Sharding/Examples.antt =====
-- A table on whose virtual shards the theorems on pkg/proto/rule/rule.go are used.
use arana.Prelude.{String, ℕ, ◌≡◌, refl, true, ◌↔◌, Option, none, some, List, [], ◌∷◌}
use arana.Rule.Steps.{num}
use arana.Rule.Sharding.{
  ShardColumn, Metadata, VShard, Inputs, has_name, add_names, variables, lookup, is_some, covers,
  shard, search_vshard,
}
use arana.Rule.Sharding.Names.{In}
use arana.Rule.Sharding.Routing.{covering, outcome, shard-covering}
use arana.Rule.Sharding.Search.{IsFirst, search_vshard-IsFirst}

-- The first argument, and an error where it is missing
abbrev first_value : List (Option ℕ) → Option ℕ
first_value (some x ∷ xs) = some x
first_value _ = none

abbrev column : String → ShardColumn
column name = record { name = name; steps = 1; stepper = record { n = 1; unit = num } }

abbrev by_uid : Metadata ℕ
by_uid = record {
  columns = column "uid" ∷ [];
  computer = record { names = "uid" ∷ []; compute = first_value };
}

abbrev by_name : Metadata ℕ
by_name = record {
  columns = column "name" ∷ [];
  computer = record { names = "name" ∷ "uid" ∷ []; compute = first_value };
}

abbrev both : VShard ℕ
both = record { db = some by_uid; table = some by_name; visited = none }

abbrev shards : List (VShard ℕ)
shards = both ∷ record { db = none; table = some by_uid; visited = none } ∷ []

abbrev values : Inputs ℕ
values = ("uid", 42) ∷ ("age", 3) ∷ []

abbrev row : Inputs ℕ
row = ("uid", 42) ∷ ("name", 3) ∷ []

both_covered : covers row (variables both) ≡ true
unfolding covers lookup variables add_names has_name
both_covered = refl

shard-covering_example :
    ((shard values shards).0 ≡ outcome values (covering values shards))
    × ((vs : VShard ℕ)
        → (covers values (variables vs) ≡ true)
          ↔ ((x : String) → In x (variables vs) → is_some (lookup values x) ≡ true))
shard-covering_example = shard-covering values shards

search_vshard-IsFirst_example : IsFirst ("uid" ∷ []) shards (search_vshard ("uid" ∷ []) shards).0
search_vshard-IsFirst_example = search_vshard-IsFirst ("uid" ∷ []) shards
