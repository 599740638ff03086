-- ===== src/Mysql/Packets/Writing.antt =====
-- One turn of the loop of writePacket in pkg/mysql/conn.go, and readOnePacket of what it writes.
use arana.Prelude.{
  ℕ, zero, suc, ◌+◌, ◌-◌, ◌*◌, ◌/◌, ◌%◌, ◌^◌, ◌≤◌, ◌<◌, ◌≡◌, inl, inr, refl, ap, sym, subst, ◌∙◌,
  arith, true, false, List, [], ◌∷◌, ◌++◌, length, take, drop, ◌==◌, ltb, Bool-cases, length-append,
}
use arana.Mysql.Packets.{
  next_sequence, header, behind, write_empty, write_loop, done, read_full, read_one_packet,
}
use arana.Prelude.{append-nil, take-length, take-append, drop-append}

pub ltb-true : (a b : ℕ) → a < b → ltb a b ≡ true
ltb-true a b h = ground arith

pub ltb-false : (a b : ℕ) → b ≤ a → ltb a b ≡ false
ltb-false a b h = ground arith

pub ==_true : (a b : ℕ) → a ≡ b → (a == b) ≡ true
==_true a b h = ground arith

==_false : (a b : ℕ) → a < b → (a == b) ≡ false
==_false a b h = ground arith

pub ==_false_above : (a b : ℕ) → b < a → (a == b) ≡ false
==_false_above a b h = ground arith

drop-all : (l : List ℕ) → drop (length l) l ≡ []
drop-all [] = refl
drop-all (x ∷ l) = drop-all l

pub length-take : (n : ℕ) (l : List ℕ) → n ≤ length l → length (take n l) ≡ n
length-take zero l h = refl
length-take (suc n) [] h = absurd (omega (arith, h))
length-take (suc n) (x ∷ l) h = ap suc (length-take n l (omega (arith, h)))

read_full-whole :
    (n sequence : ℕ) (body rest : List ℕ)
    → length body ≡ n
    → read_full n (body ++ rest) sequence ≡ done body rest sequence
unfolding read_full
read_full-whole n sequence body rest h =
    rw
      (
        ← h,
        ltb-false (length (body ++ rest)) (length body) (omega (arith, length-append body rest)),
        take-append body rest,
        drop-append body rest,
      )
      refl

pub read_one_packet-header :
    (n sequence : ℕ) (body rest : List ℕ)
    → n < 2 ^ 24
    → length body ≡ n
    → read_one_packet sequence ((header n sequence ++ body) ++ rest)
      ≡ done body rest (next_sequence sequence)
unfolding read_one_packet header
read_one_packet-header n sequence body rest small h =
    let whole : n % 2 ^ 8 + n / 2 ^ 8 % 2 ^ 8 * 2 ^ 8 + n / 2 ^ 16 % 2 ^ 8 * 2 ^ 16 ≡ n =
      omega (arith, small) in
    rw (==_true sequence sequence refl, whole)
      (read_full-whole n (next_sequence sequence) body rest h)

module _ (max : ℕ) (positive : 0 < max) where
  -- The last packet, shorter than the largest
  pub write_loop-last :
      (fuel sequence : ℕ) (l : List ℕ)
      → length l < max
      → write_loop (suc fuel) max sequence l
        ≡ (header (length l) sequence ++ l, next_sequence sequence)
  unfolding write_loop write_empty
  write_loop-last fuel sequence l h =
      rw
        (
          ltb-false max (length l) (omega arith),
          ==_true (length l - length l) 0 (omega arith),
          ==_false (length l) max h,
          take-length l,
          append-nil (header (length l) sequence ++ l),
        )
        refl

  length-exact : (l : List ℕ) → length l ≡ max → drop max l ≡ []
  length-exact l h = subst (λ n. drop n l ≡ []) h (drop-all l)

  write_loop-more :
      (fuel sequence : ℕ) (l : List ℕ)
      → ltb max (length l) ≡ true
      → write_loop (suc fuel) max sequence l
        ≡ behind
            (header max sequence ++ take max l)
            (write_loop fuel max (next_sequence sequence) (drop max l))
  unfolding write_loop
  write_loop-more fuel sequence l more =
      let some_left : (length l - max == 0) ≡ false = ground (arith, more) in
      rw (more, some_left) refl

  write_loop-whole :
      (fuel sequence : ℕ) (l : List ℕ)
      → length l ≡ max
      → write_loop (suc (suc fuel)) max sequence l
        ≡ behind
            (header max sequence ++ take max l)
            (header 0 (next_sequence sequence) ++ [], next_sequence (next_sequence sequence))
  unfolding write_loop write_empty header
  write_loop-whole fuel sequence l h =
      rw
        (
          h,
          ltb-false max max (omega arith),
          ==_true (max - max) 0 (omega arith),
          ==_true max max refl,
        )
        refl

  write_loop-exact :
      (fuel sequence : ℕ) (l : List ℕ)
      → length l ≡ max
      → write_loop (suc (suc fuel)) max sequence l
        ≡ behind
            (header max sequence ++ take max l)
            (write_loop (suc fuel) max (next_sequence sequence) (drop max l))
  write_loop-exact fuel sequence l h =
      write_loop-whole fuel sequence l h
      ∙ ap (behind (header max sequence ++ take max l)) (
          sym (
            ap (write_loop (suc fuel) max (next_sequence sequence)) (length-exact l h)
            ∙ write_loop-last fuel (next_sequence sequence) [] positive))

  -- A packet of the largest size, and then what is written of the rest
  pub write_loop-full :
      (fuel sequence : ℕ) (l : List ℕ)
      → max ≤ length l
      → write_loop (suc (suc fuel)) max sequence l
        ≡ behind
            (header max sequence ++ take max l)
            (write_loop (suc fuel) max (next_sequence sequence) (drop max l))
  write_loop-full fuel sequence l h = elim (Bool-cases (ltb max (length l))) [
    | inl more ↦ write_loop-more (suc fuel) sequence l more
    | inr exact ↦ write_loop-exact fuel sequence l (ground (arith, h, exact))
  ]
