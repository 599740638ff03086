-- ===== src/Dataset/Group/Race.antt =====
-- pkg/dataset/group_reduce.go, GroupDataset.Next: the goroutine that sends rows over `rowsChan` and
-- at most one error over `errChan`, both with room for one, and then closes `rowsChan`; and the
-- loop that selects what it receives. A schedule is a sequence of steps of the two.
use arana.Prelude.{
  ℕ, suc, ◌+◌, ◌*◌, ◌≤◌, ◌≡◌, ◌⊎◌, inl, inr, refl, sym, ◌∙◌, ap, subst, arith, Bool, true, false,
  Option, none, some, List, [], ◌∷◌, length,
}
use arana.Dataset.Streams.{Outcome, ok, fault}
use arana.Dataset.Group.{reduce_all}

-- `to_send` and `failing` are what the sender still has to send, `slot` and `errs` the channels,
-- `acc` the reducer, and `done` what the loop ended with.
pub record Race (E R T : Type 0) : Type 0 where
  pub to_send : List R
  pub failing : Option E
  pub closed : Bool
  pub slot : Option R
  pub errs : Option E
  pub acc : T
  pub done : Option (Outcome E T)

abbrev pub start : {E R T : Type 0} → List R → Option E → T → Race E R T
start sent failing fresh = record {
  to_send = sent;
  failing = failing;
  closed = false;
  slot = none;
  errs = none;
  acc = fresh;
  done = none;
}

module _ {E R T : Type 0} (reduce : T → R → Outcome E T) where
  pub data Step : Race E R T → Race E R T → Type 0 where
    put :
        (s : Race E R T) (r : R) (l : List R)
        → s.to_send ≡ r ∷ l
        → s.slot ≡ none
        → Step s (record s { to_send = l; slot = some r })
    put_error :
        (s : Race E R T) (e : E)
        → s.to_send ≡ []
        → s.failing ≡ some e
        → Step s (record s { failing = none; errs = some e })
    close :
        (s : Race E R T)
        → s.to_send ≡ []
        → s.failing ≡ none
        → s.closed ≡ false
        → Step s (record s { closed = true })
    take_row :
        (s : Race E R T) (r : R) (t : T)
        → s.done ≡ none
        → s.slot ≡ some r
        → reduce s.acc r ≡ ok t
        → Step s (record s { slot = none; acc = t })
    refuse_row :
        (s : Race E R T) (r : R) (e : E)
        → s.done ≡ none
        → s.slot ≡ some r
        → reduce s.acc r ≡ fault e
        → Step s (record s { slot = none; done = some (fault e) })
    take_close :
        (s : Race E R T)
        → s.done ≡ none
        → s.slot ≡ none
        → s.closed ≡ true
        → Step s (record s { done = some (ok s.acc) })
    take_error :
        (s : Race E R T) (e : E)
        → s.done ≡ none
        → s.errs ≡ some e
        → Step s (record s { errs = none; done = some (fault e) })

  pub data Schedule (s : Race E R T) : ℕ → Race E R T → Type 0 where
    begin : Schedule s 0 s
    then_step : {n : ℕ} {t u : Race E R T} → Schedule s n t → Step t u → Schedule s (suc n) u

-- What is left to do
abbrev pub one_of {ℓ} : {A : Type ℓ} → Option A → ℕ
one_of none = 0
one_of (some a) = 1

abbrev pub none_of {ℓ} : {A : Type ℓ} → Option A → ℕ
none_of none = 1
none_of (some a) = 0

abbrev pub left_open : Bool → ℕ
left_open true = 0
left_open false = 1

abbrev pub measure : {E R T : Type 0} → Race E R T → ℕ
measure s =
    2 * length s.to_send
    + 2 * one_of s.failing
    + left_open s.closed
    + one_of s.slot
    + one_of s.errs
    + none_of s.done

module _ {E R T : Type 0} (reduce : T → R → Outcome E T) where
  Step-measure : (s t : Race E R T) → Step reduce s t → suc (measure t) ≤ measure s
  Step-measure s t (put _ r l e f) = rw (e, f) (omega arith)
  Step-measure s t (put_error _ e f g) = rw (f, g) (omega arith)
  Step-measure s t (close _ f g h) = rw (h) (omega arith)
  Step-measure s t (take_row _ r u d f g) = rw (f) (omega arith)
  Step-measure s t (refuse_row _ r e d f g) = rw (d, f) (omega arith)
  Step-measure s t (take_close _ d f g) = rw (d) (omega arith)
  Step-measure s t (take_error _ e d f) = rw (d, f) (omega arith)

  pub Schedule-measure :
      {s t : Race E R T} {n : ℕ} → Schedule reduce s n t → n + measure t ≤ measure s
  Schedule-measure begin = omega arith
  Schedule-measure (then_step {t = t} {u = u} run st) =
      omega (arith, Schedule-measure run, Step-measure t u st)

  -- The rows that the loop has yet to receive
  abbrev pub waiting : Option R → List R → List R
  waiting none l = l
  waiting (some r) l = r ∷ l

  -- Without an error to send: what the loop has reduced and what is on its way make up the rows.
  abbrev pub IsOnTrack : Outcome E T → Option (Outcome E T) → T → Option R → List R → Bool → Type 0
  IsOnTrack o (some p) acc slot l closed = p ≡ o
  IsOnTrack o none acc slot l closed =
      (reduce_all reduce acc (waiting slot l) ≡ o) × ((closed ≡ false) ⊎ (l ≡ []))

  abbrev pub IsSafe : Outcome E T → Race E R T → Type 0
  IsSafe o s =
      (s.failing ≡ none) × (s.errs ≡ none) × IsOnTrack o s.done s.acc s.slot s.to_send s.closed

  module _ (o : Outcome E T) (acc : T) where
    on_track :
        (d : Option (Outcome E T)) (slot : Option R) (l : List R) (closed : Bool)
        → d ≡ none
        → IsOnTrack o d acc slot l closed
        → (reduce_all reduce acc (waiting slot l) ≡ o) × ((closed ≡ false) ⊎ (l ≡ []))
    on_track d slot l closed e h = subst (λ x. IsOnTrack o x acc slot l closed) e h

    on_put :
        (d : Option (Outcome E T)) (slot : Option R) (to_send : List R) (closed : Bool) (r : R)
        (l : List R)
        → to_send ≡ r ∷ l
        → slot ≡ none
        → IsOnTrack o d acc slot to_send closed
        → IsOnTrack o d acc (some r) l closed
    on_put (some p) slot to_send closed r l e f h = h
    on_put none slot to_send closed r l e f h =
        let moved : waiting slot to_send ≡ r ∷ l = rw (f) e in
        (
          sym (ap (reduce_all reduce acc) moved) ∙ h.0,
          elim h.1 [ inl c ↦ inl c | inr q ↦ absurd (cc) ],
        )

    on_close :
        (d : Option (Outcome E T)) (slot : Option R) (to_send : List R) (closed : Bool)
        → to_send ≡ []
        → IsOnTrack o d acc slot to_send closed
        → IsOnTrack o d acc slot to_send true
    on_close (some p) slot to_send closed e h = h
    on_close none slot to_send closed e h = (h.0, inr e)

    on_take :
        (slot : Option R) (to_send : List R) (r : R) (u : T)
        → slot ≡ some r
        → reduce acc r ≡ ok u
        → reduce_all reduce acc (waiting slot to_send) ≡ o
        → reduce_all reduce u to_send ≡ o
    unfolding reduce_all
    on_take slot to_send r u f g h =
        let moved : waiting slot to_send ≡ r ∷ to_send = rw (f) refl in
        let went : reduce_all reduce acc (r ∷ to_send) ≡ reduce_all reduce u to_send =
          rw (g, reduce_all) refl in
        sym went ∙ sym (ap (reduce_all reduce acc) moved) ∙ h

    on_refuse :
        (slot : Option R) (to_send : List R) (r : R) (e : E)
        → slot ≡ some r
        → reduce acc r ≡ fault e
        → reduce_all reduce acc (waiting slot to_send) ≡ o
        → fault e ≡ o
    unfolding reduce_all
    on_refuse slot to_send r e f g h =
        let moved : waiting slot to_send ≡ r ∷ to_send = rw (f) refl in
        let went : reduce_all reduce acc (r ∷ to_send) ≡ fault e = rw (g, reduce_all) refl in
        sym went ∙ sym (ap (reduce_all reduce acc) moved) ∙ h

    on_end :
        (slot : Option R) (to_send : List R) (closed : Bool)
        → slot ≡ none
        → closed ≡ true
        → (reduce_all reduce acc (waiting slot to_send) ≡ o)
        → ((closed ≡ false) ⊎ (to_send ≡ []))
        → ok acc ≡ o
    unfolding reduce_all
    on_end slot to_send closed f g h (inl c) = absurd (cc)
    on_end slot to_send closed f g h (inr q) =
        let moved : waiting slot to_send ≡ [] = rw (f) q in
        sym (ap (reduce_all reduce acc) moved) ∙ h

  Step-IsSafe : (o : Outcome E T) (s t : Race E R T) → Step reduce s t → IsSafe o s → IsSafe o t
  Step-IsSafe o s t (put _ r l e f) h =
      (h.0, h.1, on_put o s.acc s.done s.slot s.to_send s.closed r l e f h.2)
  Step-IsSafe o s t (put_error _ e f g) h = absurd (cc)
  Step-IsSafe o s t (close _ f g c) h =
      (h.0, h.1, on_close o s.acc s.done s.slot s.to_send s.closed f h.2)
  Step-IsSafe o s t (take_row _ r u d f g) h =
      let (went, open') = on_track o s.acc s.done s.slot s.to_send s.closed d h.2 in
      (
        h.0,
        h.1,
        subst (λ x. IsOnTrack o x u none s.to_send s.closed) (sym d)
            (on_take o s.acc s.slot s.to_send r u f g went, open'),
      )
  Step-IsSafe o s t (refuse_row _ r e d f g) h =
      let (went, open') = on_track o s.acc s.done s.slot s.to_send s.closed d h.2 in
      (h.0, h.1, on_refuse o s.acc s.slot s.to_send r e f g went)
  Step-IsSafe o s t (take_close _ d f g) h =
      let (went, open') = on_track o s.acc s.done s.slot s.to_send s.closed d h.2 in
      (h.0, h.1, on_end o s.acc s.slot s.to_send s.closed f g went open')
  Step-IsSafe o s t (take_error _ e d f) h = absurd (cc)

  pub Schedule-IsSafe :
      {s t : Race E R T} {n : ℕ} (o : Outcome E T) → Schedule reduce s n t → IsSafe o s → IsSafe o t
  Schedule-IsSafe o begin h = h
  Schedule-IsSafe o (then_step {t = t} {u = u} run st) h =
      Step-IsSafe o t u st (Schedule-IsSafe o run h)
