-- ===== src/Rule/Shards.antt =====
-- pkg/proto/rule/shards.go: sets of shards, each a database and a table packed into a uint64. The
-- B-tree that holds them is a parameter; it is read by its ascending walk. A nil *Shards, whose Each
-- does nothing, is no tree: it stands for an empty one, which has the same walk.
pub mod Keys
pub mod Intersection
pub mod Sets
pub mod Union
mod Examples
use arana.Prelude.{
  ℕ, ◌+◌, ◌*◌, ◌/◌, ◌%◌, ◌^◌, bit_or, Bool, true, false, ◌||◌, List, [], ◌∷◌, ltb, ◌==◌,
  if◌then◌else◌,
}
use arana.Prelude.Go.{Go, ret, panic, ◌>>=◌}
use arana.Calc.BTree.{BTree}

-- uint64(db)<<32 | uint64(tb)
pub key : ℕ → ℕ → ℕ
key db tb = bit_or (db * 2 ^ 32 % 2 ^ 64) tb

-- getDB and getTable
pub get_db : ℕ → ℕ
get_db s = s / 2 ^ 32 % 2 ^ 32

pub get_table : ℕ → ℕ
get_table s = s % 2 ^ 32

-- Less
pub less_shard : ℕ → ℕ → Bool
less_shard s that =
    if get_db s == get_db that
    then ltb (get_table s) (get_table that)
    else ltb (get_db s) (get_db that)

pub has_key : ℕ → List ℕ → Bool
has_key k [] = false
has_key k (x ∷ xs) = k == x || has_key k xs

module _ (bt : BTree ℕ) where
  -- Add, with the other tables of its database
  pub add : ℕ → List ℕ → bt.Tree → Go bt.Tree
  add db [] t = ret t
  add db (tb ∷ others) t = bt.replace_or_insert (key db tb) t >>= λ u. add db others u

  -- the closure `h` of IntersectionShards, on what was visited and the result
  pub visit : ℕ → ℕ → List ℕ × bt.Tree → Go (List ℕ × bt.Tree)
  visit db tb (visits, t) =
      if has_key (key db tb) visits
      then (add db (tb ∷ []) t >>= λ u. ret (visits, u))
      else ret (key db tb ∷ visits, t)

  -- Each with that closure, which never stops
  pub visit_each : List ℕ → List ℕ × bt.Tree → Go (List ℕ × bt.Tree)
  visit_each [] s = ret s
  visit_each (k ∷ ks) s = visit (get_db k) (get_table k) s >>= λ u. visit_each ks u

  pub visit_others : List bt.Tree → List ℕ × bt.Tree → Go (List ℕ × bt.Tree)
  visit_others [] s = ret s
  visit_others (next ∷ others) s = visit_each (bt.ascend next) s >>= λ u. visit_others others u

  -- IntersectionShards
  pub intersection_shards : bt.Tree → bt.Tree → List bt.Tree → Go bt.Tree
  intersection_shards first second others =
      visit_others (first ∷ second ∷ others) ([], bt.new) >>= λ r. ret r.1

  -- UnionShards
  pub add_each : List ℕ → bt.Tree → Go bt.Tree
  add_each [] t = ret t
  add_each (k ∷ ks) t = add (get_db k) (get_table k ∷ []) t >>= λ u. add_each ks u

  pub add_others : List bt.Tree → bt.Tree → Go bt.Tree
  add_others [] t = ret t
  add_others (next ∷ others) t = add_each (bt.ascend next) t >>= λ u. add_others others u

  pub union_shards : bt.Tree → bt.Tree → List bt.Tree → Go bt.Tree
  union_shards first second others = add_others (first ∷ second ∷ others) bt.new
