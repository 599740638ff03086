-- ===== src/Dataset/Queue/Sift.antt =====
-- The whole of down of Go's container/heap, over the rows of pkg/dataset/priority_queue.go.
use arana.Prelude.{
  ℕ, zero, suc, ◌+◌, ◌*◌, ◌≤◌, ◌<◌, ◌≡◌, refl, sym, subst, ◌∙◌, arith, Bool, true, false, leb,
  Bool-cases, inl, inr,
}
use arana.Dataset.Queue.{Slots, swap, less_at, child, down}
use arana.Dataset.Queue.Counting.{count, count-swap}
use arana.Dataset.Queue.Up.{IsHeap, swapped-other, less_at-in}
use arana.Dataset.Queue.Down.{
  IsHeapUnder, IsLeast, child-IsLeast, below_parent, lowered, bottom, placed,
}

module _ {A : Type 0} (less : A → A → Bool) where
  -- The three ways in which a turn of down goes
  pub down-bottom :
      (fuel : ℕ) (q : Slots A) (n i : ℕ) → n ≤ 2 * i + 1 → down less (suc fuel) q n i ≡ (q, i)
  unfolding down
  down-bottom fuel q n i h = let e : leb n (2 * i + 1) ≡ true = ground (arith, h) in rw (e) refl

  down-stays :
      (fuel : ℕ) (q : Slots A) (n i : ℕ)
      → less_at less q (child less q n i) i ≡ false
      → down less (suc fuel) q n i ≡ (q, i)
  unfolding down
  down-stays fuel q n i h = elim (Bool-cases (leb n (2 * i + 1))) [
    | inl e ↦ rw (e) refl
    | inr e ↦ rw (e, h) refl
  ]

  down-turns :
      (fuel : ℕ) (q : Slots A) (n i : ℕ)
      → 2 * i + 1 < n
      → less_at less q (child less q n i) i ≡ true
      → down less (suc fuel) q n i
        ≡ down less fuel (swap q i (child less q n i)) n (child less q n i)
  unfolding down
  down-turns fuel q n i inside h =
      let e : leb n (2 * i + 1) ≡ false = ground (arith, inside) in rw (e, h) refl

module _ {A : Type 0} (less : A → A → Bool) (asym : (a b : A) → less a b ≡ true → less b a ≡ false)
    (trans : (a b c : A) → less b a ≡ false → less c b ≡ false → less c a ≡ false) where
  -- What down leaves: the length, the elements from n on, the counts of tests, and a heap below n
  unfoldable pub Sifted : Slots A → ℕ → Slots A → Type 0
  Sifted q n r =
      (r.len ≡ q.len)
      × IsHeap less n r.at
      × ((k : ℕ) → n ≤ k → r.at k ≡ q.at k)
      × ((p : A → Bool) → count p n r.at ≡ count p n q.at)

  turn-Sifted :
      (q : Slots A) (n i j : ℕ) (r : Slots A)
      → i < n
      → j < n
      → Sifted (swap q i j) n r
      → Sifted q n r
  unfolding Sifted swap
  turn-Sifted q n i j r hi hj h = (
    h.0,
    h.1,
    λ k out.
        h.2 k out ∙ swapped-other q.at i j k (ground (arith, out, hi)) (ground (arith, out, hj)),
    λ p. h.3 p ∙ count-swap p n i j q.at hi hj,
  )

  stop-Sifted : (q : Slots A) (n : ℕ) → IsHeap less n q.at → Sifted q n q
  unfolding Sifted
  stop-Sifted q n h = (refl, h, λ k out. refl, λ p. refl)

  pub down-Sifted :
      (fuel : ℕ) (q : Slots A) (n i : ℕ)
      → n ≤ i + fuel
      → n ≤ q.len
      → IsHeapUnder less n i q.at
      → Sifted q n (down less fuel q n i).0
  unfolding IsLeast swap down
  down-Sifted zero q n i enough small h =
      stop-Sifted q n (bottom less asym trans n q.at i (omega (arith, enough)) h)
  down-Sifted (suc fuel) q n i enough small h = elim (Bool-cases (leb n (2 * i + 1))) [
    | inl e ↦
        let low : n ≤ 2 * i + 1 = ground (arith, e) in
        subst (λ r. Sifted q n r.0) (sym (down-bottom less fuel q n i low))
          (stop-Sifted q n (bottom less asym trans n q.at i low h))
    | inr e ↦
        let inside : 2 * i + 1 < n = ground (arith, e) in
        let j = child less q n i in
        let least = child-IsLeast less asym trans q n i small inside in
        let here : i < n = omega (arith, inside) in
        let same =
          less_at-in less q j i (omega (arith, least.1, small)) (omega (arith, here, small)) in
        elim (Bool-cases (less_at less q j i)) [
          | inr f ↦
              subst (λ r. Sifted q n r.0) (sym (down-stays less fuel q n i f))
                (stop-Sifted q n (placed less asym trans n q.at i j least (sym same ∙ f) h))
          | inl f ↦
              let under = below_parent less asym trans n q.at i j least (sym same ∙ f) h in
              subst (λ r. Sifted q n r.0) (sym (down-turns less fuel q n i inside f))
                (turn-Sifted q n i j (down less fuel (swap q i j) n j).0 here least.1 (
                  down-Sifted fuel (swap q i j) n j (omega (arith, enough, under.1)) small
                    (lowered less asym trans n q.at i j least (sym same ∙ f) h)))
        ]
  ]
