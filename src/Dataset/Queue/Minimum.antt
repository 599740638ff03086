-- ===== src/Dataset/Queue/Minimum.antt =====
-- The operations of pkg/dataset/priority_queue.go through Go's container/heap: what a push and a
-- pop do to a heap.
use arana.Prelude.{
  ℕ, zero, suc, ◌+◌, ◌-◌, ◌*◌, ◌/◌, ◌≤◌, ◌<◌, ◌≡◌, refl, ap, sym, subst, ◌∙◌, arith, Bool, true,
  false, ◌==◌, ltb, Bool-cases, inl, inr, none, some,
}
use arana.Dataset.Queue.{
  Slots, swapped, swap, up, down, fix_from, fix, append, queue_push, heap_push, queue_pop, heap_pop,
}
use arana.Dataset.Queue.Counting.{bit, count, count-swap, count-above, updated-other, count-none}
use arana.Dataset.Queue.Up.{
  IsHeap, IsHeapBut, swapped-other, swapped-right, not_less, up-IsHeap, up-len, up-count,
}
use arana.Dataset.Queue.Down.{IsHeapUnder, irreflexive}
use arana.Dataset.Queue.Sift.{Sifted, down-Sifted, down-bottom}

module _ {A : Type 0} (less : A → A → Bool) (asym : (a b : A) → less a b ≡ true → less b a ≡ false)
    (trans : (a b c : A) → less b a ≡ false → less c b ≡ false → less c a ≡ false) where
  root_min :
      (n : ℕ) (at : ℕ → A) (bound k : ℕ)
      → IsHeap less n at
      → k ≤ bound
      → k < n
      → less (at k) (at 0) ≡ false
  root_min n at zero k h small below =
      let top : k ≡ 0 = omega (arith, small) in
      not_less less (ap at top) refl (irreflexive less asym trans (at 0))
  root_min n at (suc bound) k h small below = elim (Bool-cases (k == 0)) [
    | inl e ↦
        let top : k ≡ 0 = ground (arith, e) in
        not_less less (ap at top) refl (irreflexive less asym trans (at 0))
    | inr e ↦
        let p = (k - 1) / 2 in
        let deep : 0 < k = ground (arith, e) in
        trans (at 0) (at p) (at k)
          (root_min n at bound p h (omega (arith, small, deep)) (omega (arith, below, deep)))
          (h k p deep below refl)
  ]

  append-IsHeapBut :
      (q : Slots A) (x : A)
      → IsHeap less q.len q.at
      → IsHeapBut less (suc q.len) q.len (append q x).at
  unfolding append
  append-IsHeapBut q x h = (
    λ k p positive below apart r.
        not_less less (updated-other q.at q.len k x apart)
          (updated-other q.at q.len p x (ground (arith, r, apart, below, positive)))
          (h k p positive (ground (arith, apart, below)) r),
    λ k p positive below deep r s. absurd (omega (arith, positive, below, r)),
  )

  stays : (q : Slots A) (i : ℕ) → ltb i i ≡ false → fix_from less i (q, i) ≡ up less i q i
  unfolding fix_from
  stays q i e = rw (e) refl

  queue_push-up : (q : Slots A) (x : A) → queue_push less q x ≡ up less q.len (append q x) q.len
  unfolding queue_push fix append
  queue_push-up q x =
      let pushed = append q x in
      let low : suc q.len ≤ 2 * q.len + 1 = omega arith in
      let e : ltb q.len q.len ≡ false = ground arith in
      ap (fix_from less q.len) (down-bottom less q.len pushed (suc q.len) q.len low)
      ∙ stays pushed q.len e

  -- A push keeps the heap, adds one to the length, and adds what was pushed and nothing else.
  unfoldable pub Pushed : Slots A → A → Slots A → Type 0
  Pushed q x r =
      (r.len ≡ suc q.len)
      × IsHeap less r.len r.at
      × ((p : A → Bool) → count p r.len r.at ≡ count p q.len q.at + bit (p x))

  append-count :
      (p : A → Bool) (q : Slots A) (x : A)
      → count p (suc q.len) (append q x).at ≡ count p q.len q.at + bit (p x)
  unfolding append count
  append-count p q x =
      let e : (q.len == q.len) ≡ true = ground arith in
      let before = count-above p q.len q.len q.at x (omega arith) in rw (before, e) refl

  pub queue_push-Pushed :
      (q : Slots A) (x : A) → IsHeap less q.len q.at → Pushed q x (queue_push less q x)
  unfolding Pushed append
  queue_push-Pushed q x h =
      let pushed = append q x in
      let size = up-len less asym trans q.len pushed q.len in
      let heap =
        up-IsHeap less asym trans q.len pushed q.len (omega arith) (omega arith)
          (append-IsHeapBut q x h) in
      subst
        (λ r.
          (r.len ≡ suc q.len)
          × IsHeap less r.len r.at
          × ((p : A → Bool) → count p r.len r.at ≡ count p q.len q.at + bit (p x)))
        (sym (queue_push-up q x))
        (
          size,
          subst (λ m. IsHeap less m (up less q.len pushed q.len).at) (sym size) heap,
          λ p.
              subst
                (λ m. count p m (up less q.len pushed q.len).at ≡ count p q.len q.at + bit (p x))
                (sym size)
                (up-count less asym trans p q.len pushed q.len (omega arith) ∙ append-count p q x),
        )

  -- A second up from the last index changes no length, no count and keeps the heap.
  last_up :
      (r : Slots A) (n : ℕ)
      → r.len ≡ suc n
      → IsHeap less r.len r.at
      → ((up less n r n).len ≡ r.len)
        × IsHeap less r.len (up less n r n).at
        × ((p : A → Bool) → count p r.len (up less n r n).at ≡ count p r.len r.at)
  last_up r n size h = (
    up-len less asym trans n r n,
    up-IsHeap less asym trans n r n (omega arith) (omega (arith, size)) (
      λ k p positive below apart s. h k p positive below s,
      λ k p positive below deep s t.
          trans (r.at p) (r.at n) (r.at k) (h n p deep (omega (arith, size)) t)
            (h k n positive below s),
    ),
    λ p. up-count less asym trans p n r n (omega (arith, size)),
  )

  pub heap_push-Pushed :
      (q : Slots A) (x : A) → IsHeap less q.len q.at → Pushed q x (heap_push less q x)
  unfolding Pushed heap_push
  heap_push-Pushed q x h =
      let r = queue_push less q x in
      let once = queue_push-Pushed q x h in
      let n = r.len - 1 in
      let twice = last_up r n (omega (arith, once.0)) once.1 in
      (
        twice.0 ∙ once.0,
        subst (λ m. IsHeap less m (up less n r n).at) (sym twice.0) twice.1,
        λ p.
            subst (λ m. count p m (up less n r n).at ≡ count p q.len q.at + bit (p x)) (sym twice.0)
              (twice.2 p ∙ once.2 p),
      )

  -- A pop takes one element away, none is less than it, and what is left is a heap.
  unfoldable pub Popped : Slots A → A → Slots A → Type 0
  Popped q x r =
      (q.len ≡ suc r.len)
      × IsHeap less r.len r.at
      × ((p : A → Bool) → count p q.len q.at ≡ count p r.len r.at + bit (p x))
      × (count (λ y. less y x) q.len q.at ≡ 0)

  under_root :
      (q : Slots A) (n : ℕ)
      → n ≤ q.len
      → IsHeap less q.len q.at
      → IsHeapUnder less n 0 (swap q 0 n).at
  unfolding swap
  under_root q n small h = (
    λ k p positive below apart r.
        not_less less (swapped-other q.at 0 n k (ground (arith, positive)) (ground (arith, below)))
          (swapped-other q.at 0 n p apart (ground (arith, r, below)))
          (h k p positive (omega (arith, below, small)) r),
    λ k p positive below never r s. absurd (omega (arith, never)),
  )

  -- The queue of n + 1 elements once its root is at n and the rest is a heap
  module _ (q : Slots A) (n : ℕ) (size : q.len ≡ suc n) (h : IsHeap less q.len q.at) (d : Slots A)
      (sifted : Sifted less asym trans (swap q 0 n) n d) where
    last_is_root : d.at n ≡ q.at 0
    unfolding Sifted swap
    last_is_root = sifted.2 n (omega arith) ∙ swapped-right q.at 0 n n refl

    counts_kept : (p : A → Bool) → count p q.len q.at ≡ count p n d.at + bit (p (d.at n))
    unfolding Sifted swap count
    counts_kept p =
        let same = count-swap p q.len 0 n q.at (omega (arith, size)) (omega (arith, size)) in
        let split = ap (λ m. count p m (swapped q.at 0 n)) size in
        let below = sifted.3 p in
        let last = ap (λ v. bit (p v)) (sifted.2 n (omega arith)) in
        omega (arith, same, split, below, last)

    none_less : count (λ y. less y (d.at n)) q.len q.at ≡ 0
    none_less =
        count-none (λ y. less y (d.at n)) q.len q.at
          (λ k below.
            not_less less refl last_is_root (root_min q.len q.at k k h (omega arith) below))

  pub heap_pop-Popped :
      (q : Slots A)
      → 0 < q.len
      → IsHeap less q.len q.at
      → (x : A) × (r : Slots A) × (heap_pop less q ≡ some (x, r)) × Popped q x r
  unfolding Popped heap_pop queue_pop Sifted swap
  heap_pop-Popped q positive h =
      let n = q.len - 1 in
      let size : q.len ≡ suc n = omega (arith, positive) in
      let d = (down less n (swap q 0 n) n 0).0 in
      let sifted =
        down-Sifted less asym trans n (swap q 0 n) n 0 (omega arith) (omega arith)
          (under_root q n (omega arith) h) in
      let stays : d.len ≡ q.len = sifted.0 in
      let full : (d.len == 0) ≡ false = ground (arith, stays, positive) in
      let less_one : d.len - 1 ≡ n = omega (arith, stays) in
      (
        d.at n,
        record d { len = n },
        rw (full, less_one) refl,
        (size, sifted.1, λ p. counts_kept q n size h d sifted p, none_less q n size h d sifted),
      )

pub heap_pop-empty :
    {A : Type 0} (less : A → A → Bool) (q : Slots A) → q.len ≡ 0 → heap_pop less q ≡ none
unfolding heap_pop queue_pop down swap
heap_pop-empty less q h =
    let e : (q.len == 0) ≡ true = ground (arith, h) in
    let n : q.len - 1 ≡ 0 = omega (arith, h) in rw (n, e) refl
