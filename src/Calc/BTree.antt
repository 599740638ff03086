-- ===== src/Calc/BTree.antt =====
-- github.com/google/btree, of which the code uses insertion and the ascending walk. The tree is a
-- parameter; an item order that panics makes an insertion panic.
use arana.Prelude.{List}
use arana.Prelude.Go.{Go}

pub record BTree (X : Type 0) : Type 1 where
  pub Tree : Type 0
  pub new : Tree
  pub replace_or_insert : X → Tree → Go Tree
  pub ascend : Tree → List X
