-- ===== src/Dataset/Group/Schedules.antt =====
-- pkg/dataset/group_reduce.go, GroupDataset.Next: how every schedule of its two goroutines ends.
use arana.Prelude.{
  ℕ, suc, ◌+◌, ◌*◌, ◌≤◌, ◌≡◌, ◌⊎◌, inl, inr, refl, ap, subst, arith, Bool, true, Option, none, some,
  List, [], ◌∷◌, length, Option-cases, Bool-cases,
}
use arana.Dataset.Streams.{Outcome, ok, fault}
use arana.Dataset.Group.{reduce_all}
use arana.Dataset.Group.Race.{
  Race, start, Step, put, put_error, close, take_row, refuse_row, take_close, take_error, Schedule,
  begin, then_step, Schedule-measure, IsOnTrack, Schedule-IsSafe,
}

module _ {E R T : Type 0} (reduce : T → R → Outcome E T) where
  Outcome-cases : (x : Outcome E T) → ((t : T) × (x ≡ ok t)) ⊎ ((e : E) × (x ≡ fault e))
  Outcome-cases (ok t) = inl (t, refl)
  Outcome-cases (fault e) = inr (e, refl)

  List-cases : (l : List R) → (l ≡ []) ⊎ ((r : R) × (m : List R) × (l ≡ r ∷ m))
  List-cases [] = inl refl
  List-cases (r ∷ m) = inr (r, m, refl)

  receive_row :
      (s : Race E R T) (r : R)
      → s.done ≡ none
      → s.slot ≡ some r
      → (u : Race E R T) × Step reduce s u
  receive_row s r d f = elim (Outcome-cases (reduce s.acc r)) [
    | inl (t, g) ↦ (record s { slot = none; acc = t }, take_row s r t d f g)
    | inr (e, g) ↦ (record s { slot = none; done = some (fault e) }, refuse_row s r e d f g)
  ]

  finish_rows :
      (s : Race E R T)
      → s.done ≡ none
      → s.slot ≡ none
      → s.failing ≡ none
      → s.to_send ≡ []
      → (u : Race E R T) × Step reduce s u
  finish_rows s d f g q = elim (Bool-cases s.closed) [
    | inl c ↦ (record s { done = some (ok s.acc) }, take_close s d f c)
    | inr c ↦ (record s { closed = true }, close s q g c)
  ]

  progress :
      (s : Race E R T) → s.done ≡ none → s.failing ≡ none → (u : Race E R T) × Step reduce s u
  progress s d g = elim (Option-cases s.slot) [
    | inr (r, f) ↦ receive_row s r d f
    | inl f ↦ elim (List-cases s.to_send) [
      | inl q ↦ finish_rows s d f g q
      | inr (r, l, q) ↦ (record s { to_send = l; slot = some r }, put s r l q f)
    ]
  ]

  result :
      (o : Outcome E T) (d : Option (Outcome E T)) (acc : T) (slot : Option R) (l : List R)
      (closed : Bool)
      → IsOnTrack reduce o d acc slot l closed
      → (d ≡ none) ⊎ (d ≡ some o)
  result o none acc slot l closed h = inl refl
  result o (some p) acc slot l closed h = inr (ap some h)

-- However the two goroutines are scheduled for rows with no error after them, they take at most
-- two steps for each row and two more, and after each of them either the loop has ended with what
-- reducing the rows one after the other gives, or it has not ended and one of the two can go on.
pub Schedule-reduces :
    {E R T : Type 0} (reduce : T → R → Outcome E T) (sent : List R) (fresh : T) (n : ℕ)
    (t : Race E R T)
    → Schedule reduce (start sent none fresh) n t
    → (n ≤ 2 * length sent + 2)
      × (((t.done ≡ none) × (u : Race E R T) × Step reduce t u)
          ⊎ (t.done ≡ some (reduce_all reduce fresh sent)))
Schedule-reduces {E} reduce sent fresh n t run =
    let o = reduce_all reduce fresh sent in
    let safe = Schedule-IsSafe reduce o run (refl, refl, (refl, inl refl)) in
    (
      omega (arith, Schedule-measure reduce run),
      elim (result reduce o t.done t.acc t.slot t.to_send t.closed safe.2) [
        | inl d ↦ let (u, st) = progress reduce t d safe.0 in inl (d, u, st)
        | inr d ↦ inr d
      ],
    )

module _ {E R T : Type 0} (reduce : T → R → Outcome E T) where
  reduce_all-first :
      (acc v : T) (r : R) (l : List R)
      → reduce_all reduce acc (r ∷ l) ≡ ok v
      → (u : T) × (reduce acc r ≡ ok u) × (reduce_all reduce u l ≡ ok v)
  unfolding reduce_all
  reduce_all-first acc v r l h = elim (Outcome-cases reduce (reduce acc r)) [
    | inl (u, g) ↦ (u, g, subst (λ q. q ≡ ok v) (rw (g, reduce_all) refl) h)
    | inr (e, g) ↦
        let clash : fault e ≡ ok v = subst (λ q. q ≡ ok v) (rw (g, reduce_all) refl) h in
        absurd (cc)
  ]

  -- One row after the other is sent and received.
  feed :
      {s : Race E R T} {n : ℕ} (e : E) (l : List R) (acc v : T)
      → Schedule reduce s n (start l (some e) acc)
      → reduce_all reduce acc l ≡ ok v
      → (m : ℕ) × Schedule reduce s m (start [] (some e) v)
  unfolding reduce_all
  feed {s} {n} e [] acc v run h =
      (n, subst (λ x. Schedule reduce s n (start [] (some e) x)) (cc) run)
  feed e (r ∷ l) acc v run h =
      let (u, g, rest) = reduce_all-first acc v r l h in
      feed e l u v
        (then_step (then_step run (put (start (r ∷ l) (some e) acc) r l refl refl))
          (take_row _ r u refl refl g))
        rest

-- Rows that can be reduced, and an error after them: one schedule ends the loop with the error, and
-- in another the sender has closed `rowsChan` by the time that the loop looks, which ends with the
-- reduced rows as if there had been no error.
pub Schedule-loses_error :
    {E R T : Type 0} (reduce : T → R → Outcome E T) (sent : List R) (e : E) (fresh v : T)
    → reduce_all reduce fresh sent ≡ ok v
    → (n m : ℕ) × (t u : Race E R T) × Schedule reduce (start sent (some e) fresh) n t
      × (t.done ≡ some (fault e))
      × Schedule reduce (start sent (some e) fresh) m u
      × (u.done ≡ some (ok v))
Schedule-loses_error reduce sent e fresh v h =
    let (k, fed) = feed reduce e sent fresh v begin h in
    let reported = then_step fed (put_error (start [] (some e) v) e refl refl) in
    (
      suc (suc k),
      suc (suc (suc k)),
      _,
      _,
      then_step reported (take_error _ e refl refl),
      refl,
      then_step (then_step reported (close _ refl refl refl)) (take_close _ refl refl refl),
      refl,
    )
