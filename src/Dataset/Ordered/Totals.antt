-- ===== src/Dataset/Ordered/Totals.antt =====
-- The rows that several streams have left, counted by a test, and streams in order.
use arana.Prelude.{
  ℕ, zero, suc, ◌+◌, ◌≤◌, ◌<◌, ◌≡◌, refl, ap, ◌∙◌, arith, Bool, false, List, [], ◌∷◌, ◌==◌,
  Bool-cases, inl, inr,
}
use arana.Dataset.Queue.Counting.{bit, updated}

module _ {R : Type 0} where
  abbrev pub count_list : (R → Bool) → List R → ℕ
  count_list p [] = 0
  count_list p (r ∷ l) = bit (p r) + count_list p l

  pub total : (R → Bool) → ℕ → (ℕ → List R) → ℕ
  total p zero rests = 0
  total p (suc n) rests = total p n rests + count_list p (rests n)

  total-above :
      (p : R → Bool) (n i : ℕ) (rests : ℕ → List R) (l : List R)
      → n ≤ i
      → total p n (updated rests i l) ≡ total p n rests
  unfolding total
  total-above p zero i rests l h = refl
  total-above p (suc n) i rests l h =
      let before = total-above p n i rests l (omega (arith, h)) in
      let apart : (n == i) ≡ false = ground (arith, h) in rw (before, apart) refl

  pub total-updated :
      (p : R → Bool) (n i : ℕ) (rests : ℕ → List R) (r : R) (l : List R)
      → i < n
      → rests i ≡ r ∷ l
      → total p n rests ≡ total p n (updated rests i l) + bit (p r)
  unfolding total
  total-updated p zero i rests r l h e = absurd (omega (arith, h))
  total-updated p (suc n) i rests r l h e = elim (Bool-cases (n == i)) [
    | inl f ↦
        let q : n ≡ i = ground (arith, f) in
        let before = total-above p n i rests l (omega (arith, q)) in
        let has = ap (count_list p) (ap rests q ∙ e) in rw (f) (omega (arith, before, has))
    | inr f ↦
        let before = total-updated p n i rests r l (ground (arith, f, h)) e in
        rw (f) (omega (arith, before))
  ]

  pub total-none :
      (p : R → Bool) (n : ℕ) (rests : ℕ → List R)
      → ((k : ℕ) → k < n → count_list p (rests k) ≡ 0)
      → total p n rests ≡ 0
  unfolding total
  total-none p zero rests h = refl
  total-none p (suc n) rests h =
      let before = total-none p n rests (λ k below. h k (omega (arith, below))) in
      omega (arith, before, h n (omega arith))

  -- No row is less than the one before it.
  abbrev pub Follows : (R → R → Bool) → R → List R → Type 0
  Follows less r [] = Unit
  Follows less r (n ∷ l) = less n r ≡ false

  abbrev pub IsSorted : (R → R → Bool) → List R → Type 0
  IsSorted less [] = Unit
  IsSorted less (r ∷ l) = Follows less r l × IsSorted less l

  -- Where the first is not less than x, none is.
  pub none_below :
      (less : R → R → Bool) (x r : R) (l : List R)
      → ((a b c : R) → less b a ≡ false → less c b ≡ false → less c a ≡ false)
      → less r x ≡ false
      → IsSorted less (r ∷ l)
      → count_list (λ y. less y x) (r ∷ l) ≡ 0
  none_below less x r [] trans h s = rw (h) refl
  none_below less x r (n ∷ l) trans h s =
      let rest = none_below less x n l trans (trans x r n h s.0) s.1 in rw (h) (omega (arith, rest))

  -- A list none of whose rows is less than x is in order behind it.
  pub Follows-none :
      (less : R → R → Bool) (x : R) (l : List R)
      → count_list (λ y. less y x) l ≡ 0
      → Follows less x l
  Follows-none less x [] h = tt
  Follows-none less x (r ∷ l) h = ground (arith, h)
