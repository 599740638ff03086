-- ===== src/Dataset/Parallel/Examples.antt =====
-- Building parallel data sets of one generator and of two.
use arana.Prelude.{ℕ, ◌≡◌, refl, some, String, List, [], ◌∷◌}
use arana.Dataset.Streams.{ok, fault}
use arana.Dataset.Parallel.{build, parallel_of, all_given, to_parallel}

-- Build of a single generator calls it, and then takes the missing others for one that is nil.
build_one : build {E = String} {S = List ℕ} "none" "nil" (some (ok (1 ∷ [])) ∷ []) ≡ fault "nil"
unfolding build parallel_of all_given
build_one = refl

build_two :
    build {E = String} {S = List ℕ} "none" "nil" (some (ok (1 ∷ [])) ∷ some (ok (2 ∷ [])) ∷ [])
    ≡ ok (to_parallel (1 ∷ []) (ok (2 ∷ []) ∷ []))
unfolding build parallel_of all_given
build_two = refl
