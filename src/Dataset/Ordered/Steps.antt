-- ===== src/Dataset/Ordered/Steps.antt =====
-- pkg/dataset/ordered.go: the loop for the first rows, and a pop.
use arana.Prelude.{
  ℕ, zero, suc, ◌+◌, ◌*◌, ◌^◌, ◌≤◌, ◌<◌, ◌≡◌, refl, sym, subst, ◌∙◌, arith, Bool, true, false, List,
  [], ◌∷◌, inl, inr, Option, none,
}
use arana.Dataset.Streams.{Answer, row, eof}
use arana.Dataset.Queue.{Slots}
use arana.Dataset.Queue.Counting.{updated}
use arana.Dataset.Queue.Minimum.{Pushed}
use arana.Dataset.Parallel.{Parallel}
use arana.Dataset.Parallel.Turn.{Pulled}
use arana.Dataset.Ordered.{RowItem, less_item, next_of}
use arana.Dataset.Queue.{queue_push}
use arana.Dataset.Queue.Minimum.{queue_push-Pushed}
use arana.Dataset.Ordered.{Ordered, fill, fill_turn}
use arana.Dataset.Ordered.Merge.{Steady, rows_left, next_of-Pulled, pushed_all}
use arana.Dataset.Ordered.Refill.{Waits, WaitsBut}

module _ {E R S : Type 0} (next : S → Answer E R × S) (Holds : S → List R → Type 0)
    (gives : (s : S) (r : R) (l : List R)
      → Holds s (r ∷ l)
      → ((next s).0 ≡ row r) × Holds (next s).1 l)
    (ends : (s : S) → Holds s [] → ((next s).0 ≡ eof) × Holds (next s).1 []) (less : R → R → Bool)
    (asym : (a b : R) → less a b ≡ true → less b a ≡ false)
    (trans : (a b c : R) → less b a ≡ false → less c b ≡ false → less c a ≡ false) (len : ℕ)
    (small : 2 * len ≤ 2 ^ 32) where
  pub asym_item : (a b : RowItem R) → less_item less a b ≡ true → less_item less b a ≡ false
  asym_item a b h = asym a.item_row b.item_row h

  pub trans_item :
      (a b c : RowItem R)
      → less_item less b a ≡ false
      → less_item less c b ≡ false
      → less_item less c a ≡ false
  trans_item a b c h i = trans a.item_row b.item_row c.item_row h i

  unfoldable pub IsSteady : Parallel E S → (ℕ → List R) → Slots (RowItem R) → Type 0
  IsSteady pa rests q = Steady next Holds gives ends less asym trans len small pa rests q

  unfoldable pub left_over : (R → Bool) → (ℕ → List R) → Slots (RowItem R) → ℕ
  left_over p rests q = rows_left next Holds gives ends less asym trans len small p rests q

  -- What the loop for the first rows leaves
  unfoldable pub Filled :
      (ℕ → List R) → Slots (RowItem R) → Option (Answer E R) × Ordered E R S → Type 0
  Filled rests q f =
      (f.0 ≡ none)
      × (f.1.first_row ≡ false)
      × (after : ℕ → List R) × IsSteady f.1.sources after f.1.queue
      × Waits less trans len after f.1.queue
      × ((p : R → Bool) → left_over p after f.1.queue ≡ left_over p rests q)

  fill_turn-row :
      (rest : Ordered E R S → Option (Answer E R) × Ordered E R S) (o : Ordered E R S) (i : ℕ)
      (q : Answer E R × Parallel E S) (r : R)
      → q.0 ≡ row r
      → fill_turn next less rest o i q
        ≡ rest (record {
          sources = q.1;
          queue = queue_push (less_item less) o.queue (record { item_row = r; stream_idx = i });
          first_row = o.first_row;
        })
  unfolding fill_turn
  fill_turn-row rest o i (a, pa) r e = rw (e) refl

  fill_turn-eof :
      (rest : Ordered E R S → Option (Answer E R) × Ordered E R S) (o : Ordered E R S) (i : ℕ)
      (q : Answer E R × Parallel E S)
      → q.0 ≡ eof
      → fill_turn next less rest o i q ≡ rest (record o { sources = q.1 })
  unfolding fill_turn
  fill_turn-eof rest o i (a, pa) e = rw (e) refl

  -- Where every stream is at its end, none has to wait.
  pub Waits-ended :
      (m : ℕ) (rests : ℕ → List R) (q : Slots (RowItem R))
      → m ≤ len
      → ((k : ℕ) → k < len → rests k ≡ [])
      → Waits less trans m rests q
  unfolding Waits
  Waits-ended m rests q low ended k r l below e =
      let clash : r ∷ l ≡ [] = sym e ∙ ended k (omega (arith, below, low)) in absurd (cc)

  same-Filled :
      (rests after : ℕ → List R) (q r : Slots (RowItem R)) (f : Option (Answer E R) × Ordered E R S)
      → ((p : R → Bool) → left_over p after r ≡ left_over p rests q)
      → Filled after r f
      → Filled rests q f
  unfolding Filled
  same-Filled rests after q r f same (a, b, c, d, w, e) = (a, b, c, d, w, λ p. e p ∙ same p)

  turn-Filled :
      (rest : Ordered E R S → Option (Answer E R) × Ordered E R S) (o : Ordered E R S) (i : ℕ)
      (rests : ℕ → List R) (q : Answer E R × Parallel E S)
      → i < len
      → o.first_row ≡ false
      → IsSteady o.sources rests o.queue
      → Waits less trans i rests o.queue
      → Pulled next Holds gives ends i rests len q
      → ((p : Ordered E R S) (after : ℕ → List R)
          → p.first_row ≡ false
          → IsSteady p.sources after p.queue
          → Waits less trans (suc i) after p.queue
          → Filled after p.queue (rest p))
      → Filled rests o.queue (fill_turn next less rest o i q)
  unfolding Pulled Steady IsSteady left_over Waits WaitsBut Pushed
  turn-Filled rest o i rests q inside first h w (size, inl (is_eof, ended, held)) again =
      subst (Filled rests o.queue) (sym (fill_turn-eof rest o i q is_eof)) (
        again (record o { sources = q.1 }) rests first (size, held, h.2, h.3, h.4)
          (Waits-ended (suc i) rests o.queue inside ended))
  turn-Filled rest o i rests q inside first h w
        (size, inr (k, r, l, below, has, is_row, held, from)) again =
      let x : RowItem R = record { item_row = r; stream_idx = i } in
      let q1 = queue_push (less_item less) o.queue x in
      let pushed = queue_push-Pushed (less_item less) asym_item trans_item o.queue x h.2 in
      let (steady, waiting, same) =
        pushed_all next Holds gives ends less asym trans len small o.sources q.1 rests o.queue q1 i
          k r l inside below has h size held pushed (suc i)
          (λ j s t under apart e. w j s t (ground (arith, under, apart)) e) from in
      subst (Filled rests o.queue) (sym (fill_turn-row rest o i q r is_row)) (
        same-Filled rests (updated rests k l) o.queue q1
          (rest (record { sources = q.1; queue = q1; first_row = o.first_row })) same
          (again (record { sources = q.1; queue = q1; first_row = o.first_row }) (updated rests k l)
            first steady waiting))

  pub fill-Filled :
      (n i : ℕ) (o : Ordered E R S) (rests : ℕ → List R)
      → i + n ≡ len
      → o.first_row ≡ false
      → IsSteady o.sources rests o.queue
      → Waits less trans i rests o.queue
      → Filled rests o.queue (fill next less n i o)
  unfolding fill Filled IsSteady
  fill-Filled zero i o rests whole first h w = (
    refl,
    first,
    rests,
    h,
    subst (λ m. Waits less trans m rests o.queue) (omega (arith, whole)) w,
    λ p. refl,
  )
  fill-Filled (suc n) i o rests whole first h w =
      turn-Filled (fill next less n (suc i)) o i rests (next_of next o.sources i)
        (omega (arith, whole)) first h w
        (next_of-Pulled next Holds gives ends less asym trans len small o.sources rests o.queue i
          (omega (arith, whole)) h)
        (λ p after first' h' w'. fill-Filled n (suc i) p after (omega (arith, whole)) first' h' w')
