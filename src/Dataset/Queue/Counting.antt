-- ===== src/Dataset/Queue/Counting.antt =====
-- How many of the elements of a slice pass a test: what a permutation of the slice keeps.
use arana.Prelude.{
  ℕ, zero, suc, ◌+◌, ◌≤◌, ◌<◌, ◌≡◌, refl, ap, subst, arith, Bool, true, false, ◌==◌, if◌then◌else◌,
  Bool-cases, inl, inr,
}
use arana.Dataset.Queue.{swapped}

abbrev pub bit : Bool → ℕ
bit true = 1
bit false = 0

abbrev pub updated : {A : Type 0} → (ℕ → A) → ℕ → A → ℕ → A
updated at i v k = if k == i then v else at k

pub updated-other :
    {A : Type 0} (at : ℕ → A) (i k : ℕ) (v : A) → (k == i) ≡ false → updated at i v k ≡ at k
updated-other at i k v e = rw (e) refl

module _ {A : Type 0} (p : A → Bool) where
  unfoldable pub count : ℕ → (ℕ → A) → ℕ
  count zero at = 0
  count (suc n) at = count n at + bit (p (at n))

  pub count-above : (n i : ℕ) (at : ℕ → A) (v : A) → n ≤ i → count n (updated at i v) ≡ count n at
  unfolding count
  count-above zero i at v h = refl
  count-above (suc n) i at v h =
      let before = count-above n i at v (omega (arith, h)) in
      let apart : (n == i) ≡ false = ground (arith, h) in rw (before, apart) refl

  pub count-updated :
      (n i : ℕ) (at : ℕ → A) (v : A)
      → i < n
      → count n (updated at i v) + bit (p (at i)) ≡ count n at + bit (p v)
  unfolding count
  count-updated zero i at v h = absurd (omega (arith, h))
  count-updated (suc n) i at v h = elim (Bool-cases (n == i)) [
    | inl e ↦
        let q : n ≡ i = ground (arith, e) in
        let before = count-above n i at v (omega (arith, q)) in rw (before, e, q) (omega arith)
    | inr e ↦
        let before = count-updated n i at v (ground (arith, e, h)) in rw (e) (omega (arith, before))
  ]

  pub count-swap : (n i j : ℕ) (at : ℕ → A) → i < n → j < n → count n (swapped at i j) ≡ count n at
  count-swap n i j at hi hj =
      let first = count-updated n j at (at i) hj in
      let second = count-updated n i (updated at j (at i)) (at j) hi in
      let same : updated at j (at i) i ≡ at i = elim (Bool-cases (i == j)) [
        | inl e ↦ rw (e) refl
        | inr e ↦ rw (e) refl
      ] in
      omega (arith, first, second, ap (λ v. bit (p v)) same)

  pub count-none : (n : ℕ) (at : ℕ → A) → ((k : ℕ) → k < n → p (at k) ≡ false) → count n at ≡ 0
  unfolding count
  count-none zero at h = refl
  count-none (suc n) at h =
      rw (count-none n at (λ k below. h k (omega (arith, below))), h n (omega arith)) refl

  pub count-some : (n : ℕ) (at : ℕ → A) → 0 < count n at → (k : ℕ) × (k < n) × (p (at k) ≡ true)
  unfolding count
  count-some zero at h = absurd (omega (arith, h))
  count-some (suc n) at h = elim (Bool-cases (p (at n))) [
    | inl e ↦ (n, omega arith, e)
    | inr e ↦
        let (k, below, t) = count-some n at (ground (arith, h, e)) in (k, omega (arith, below), t)
  ]

  pub count-at : (n k : ℕ) (at : ℕ → A) → k < n → p (at k) ≡ true → 0 < count n at
  unfolding count
  count-at zero k at h t = absurd (omega (arith, h))
  count-at (suc n) k at h t = elim (Bool-cases (k == n)) [
    | inl e ↦
        let q : k ≡ n = ground (arith, e) in
        let here : p (at n) ≡ true = subst (λ m. p (at m) ≡ true) q t in rw (here) (omega arith)
    | inr e ↦ let before = count-at n k at (ground (arith, e, h)) t in omega (arith, before)
  ]

pub count_mono :
    {A : Type 0} (p q : A → Bool) (n : ℕ) (at : ℕ → A)
    → ((a : A) → p a ≡ true → q a ≡ true)
    → count p n at ≤ count q n at
unfolding count
count_mono p q zero at h = omega arith
count_mono p q (suc n) at h =
    let before = count_mono p q n at h in
    elim (Bool-cases (p (at n))) [
      | inl e ↦ rw (e, h (at n) e) (omega (arith, before))
      | inr e ↦ rw (e) (omega (arith, before))
    ]
