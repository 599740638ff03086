-- ===== src/Dataset/Group/Consume.antt =====
-- pkg/dataset/group_reduce.go, consumeUntilDifferent: it sends one run and leaves the next ones.
use arana.Prelude.{
  ℕ, zero, suc, ◌<◌, ◌≤◌, ◌≡◌, inl, inr, refl, ap, arith, Bool, true, false, Option, none, some,
  List, [], ◌∷◌, length, Bool-cases,
}
use arana.Dataset.Streams.{Outcome, ok, Answer, row, eof, at_eof, Yields}
use arana.Dataset.Group.{Consumed, pop_buf, stop, send, judge, offer, consume_row, consume}
use arana.Dataset.Group.Runs.{onto, split, StartAt, split-StartAt}

-- What consumeUntilDifferent leaves for the groups `gs`, from the object `s` and the buffer on
abbrev pub Rest :
    {E R S : Type 0}
    → (S → Answer E R × S)
    → (R → R → Bool)
    → ℕ
    → S
    → Option R
    → Bool
    → List (List R)
    → Type 0
Rest next same k s buf at_end [] = at_end ≡ true
Rest {R = R} next same k s buf at_end (g ∷ gs) =
    (at_end ≡ false)
    × (n : R) × (l : List R) × (buf ≡ some n)
    × Yields next s l at_eof
    × ((g ∷ gs) ≡ split same n l)
    × (length l < k)

abbrev pub Leaves :
    {E R S : Type 0}
    → (S → Answer E R × S)
    → (R → R → Bool)
    → ℕ
    → Consumed E R S
    → List (List R)
    → Type 0
Leaves next same k c [] = ⊥
Leaves next same k c (g ∷ gs) =
    (c.returned ≡ true)
    × (c.failure ≡ none)
    × (c.sent ≡ g)
    × Rest next same k c.inner c.buf c.at_end gs

send-Leaves :
    {E R S : Type 0} (next : S → Answer E R × S) (same : R → R → Bool) (k : ℕ) (r : R)
    (c : Consumed E R S) (gs : List (List R))
    → Leaves next same k c gs
    → Leaves next same k (send r c) (onto r gs)
unfolding send
send-Leaves next same k r c [] h = elim h [ ]
send-Leaves next same k r c (g ∷ gs) h = (h.0, h.1, ap (λ l. r ∷ l) h.2, h.3)

split-Rest :
    {E R S : Type 0} (next : S → Answer E R × S) (same : R → R → Bool) (k : ℕ) (s : S) (n : R)
    (l : List R) (gs : List (List R))
    → gs ≡ split same n l
    → StartAt same n gs
    → Yields next s l at_eof
    → length l < k
    → Rest next same k s (some n) false gs
split-Rest next same k s n l [] q start h few = elim start [ ]
split-Rest next same k s n l (g ∷ gs) q start h few = (refl, n, l, refl, h, q, few)

pub consume_row-first :
    {E R S : Type 0} (next : S → Answer E R × S) (is_same : R → R → Outcome E Bool)
    (again : S → Option R → Consumed E R S) (n : R) (q : Answer E R × S)
    → q.0 ≡ row n
    → consume_row is_same again none q ≡ again q.1 (some n)
unfolding consume_row offer
consume_row-first next is_same again n (a, s) h = rw (h) refl

module _ {E R S : Type 0} (next : S → Answer E R × S) (same : R → R → Bool)
    (is_same : R → R → Outcome E Bool) (judged : (a b : R) → is_same a b ≡ ok (same a b)) where
  consume_row-eof :
      (again : S → Option R → Consumed E R S) (buf : Option R) (q : Answer E R × S)
      → q.0 ≡ eof
      → consume_row is_same again buf q ≡ stop (pop_buf buf) none q.1 none true
  unfolding consume_row
  consume_row-eof again buf (a, s) h = rw (h) refl

  consume_row-row :
      (again : S → Option R → Consumed E R S) (r n : R) (q : Answer E R × S)
      → q.0 ≡ row n
      → consume_row is_same again (some r) q ≡ judge (ok (same r n)) again r n q.1
  unfolding consume_row offer
  consume_row-row again r n (a, s) h = rw (h, judged r n) refl

  pub consume-Leaves :
      (fuel k : ℕ) (l : List R) (r : R) (s : S)
      → Yields next s l at_eof
      → length l < fuel
      → length l ≤ k
      → Leaves next same k (consume next is_same fuel s (some r)) (split same r l)
  unfolding consume judge stop pop_buf
  consume-Leaves zero k l r s h big few = absurd (omega (arith, big))
  consume-Leaves (suc fuel) k [] r s h big few =
      rw (consume_row-eof (consume next is_same fuel) (some r) (next s) h) (refl, refl, refl, refl)
  consume-Leaves (suc fuel) k (n ∷ l) r s h big few = elim (Bool-cases (same r n)) [
    | inl e ↦
        rw (consume_row-row (consume next is_same fuel) r n (next s) h.0, e)
          (send-Leaves next same k r (consume next is_same fuel (next s).1 (some n))
            (split same n l)
            (consume-Leaves fuel k l n (next s).1 h.1 (omega (arith, big)) (omega (arith, few))))
    | inr e ↦
        rw (consume_row-row (consume next is_same fuel) r n (next s) h.0, e)
          (
            refl,
            refl,
            refl,
            split-Rest next same k (next s).1 n l (split same n l) refl (split-StartAt same n l) h.1
                (omega (arith, few)),
          )
  ]
