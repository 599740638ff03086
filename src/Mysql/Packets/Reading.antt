-- ===== src/Mysql/Packets/Reading.antt =====
-- The loop of readPacket in pkg/mysql/conn.go over what the loop of writePacket writes.
use arana.Prelude.{
  ℕ, zero, suc, ◌^◌, ◌≤◌, ◌<◌, ◌≡◌, inl, inr, refl, ap, sym, subst, ◌∙◌, arith, List, [], ◌∷◌, ◌++◌,
  length, take, drop, ltb, Bool-cases, length-drop,
}
use arana.Mysql.Packets.{next_sequence, header, write_loop, Read, done, read_next, read_loop}
use arana.Prelude.{append_assoc, append-nil, take-drop}
use arana.Mysql.Packets.Writing.{
  ltb-true, ltb-false, ==_false_above, read_one_packet-header, length-take, write_loop-last,
  write_loop-full,
}

module _ (max : ℕ) (positive : 0 < max) where
  read_next-last :
      (again : ℕ → List ℕ → List ℕ → Read) (so_far l rest : List ℕ) (sequence : ℕ)
      → length l < max
      → read_next max again so_far (done l rest sequence) ≡ done (so_far ++ l) rest sequence
  unfolding read_next
  read_next-last again so_far [] rest sequence h = rw (append-nil so_far) refl
  read_next-last again so_far (x ∷ l) rest sequence h =
      rw (==_false_above (length (x ∷ l)) 0 (omega arith), ltb-true (length (x ∷ l)) max h) refl

  read_next-full :
      (again : ℕ → List ℕ → List ℕ → Read) (so_far l rest : List ℕ) (sequence : ℕ)
      → length l ≡ max
      → read_next max again so_far (done l rest sequence) ≡ again sequence rest (so_far ++ l)
  unfolding read_next
  read_next-full again so_far l rest sequence h =
      rw (h, ==_false_above max 0 positive, ltb-false max max (omega arith)) refl

  module _ (small : max < 2 ^ 24) where
    read_loop-one :
        (fuel sequence n : ℕ) (l so_far rest : List ℕ)
        → n < 2 ^ 24
        → length l ≡ n
        → read_loop (suc fuel) max sequence ((header n sequence ++ l) ++ rest) so_far
          ≡ read_next max (read_loop fuel max) so_far (done l rest (next_sequence sequence))
    unfolding read_loop
    read_loop-one fuel sequence n l so_far rest fits h =
        ap (read_next max (read_loop fuel max) so_far)
          (read_one_packet-header n sequence l rest fits h)

    read_loop-last :
        (fuel w sequence : ℕ) (l so_far rest : List ℕ)
        → length l < max
        → read_loop (suc fuel) max sequence ((write_loop (suc w) max sequence l).0 ++ rest) so_far
          ≡ done (so_far ++ l) rest (write_loop (suc w) max sequence l).1
    read_loop-last fuel w sequence l so_far rest h =
        subst
          (λ q.
            read_loop (suc fuel) max sequence (q.0 ++ rest) so_far ≡ done (so_far ++ l) rest q.1)
          (sym (write_loop-last max positive w sequence l h))
          (read_loop-one fuel sequence (length l) l so_far rest (omega (arith, h, small)) refl
            ∙ read_next-last (read_loop fuel max) so_far l rest (next_sequence sequence) h)

    read_loop-full :
        (fuel sequence : ℕ) (l so_far rest more : List ℕ)
        → max ≤ length l
        → read_loop
            (suc fuel)
            max
            sequence
            (((header max sequence ++ take max l) ++ more) ++ rest)
            so_far
          ≡ read_loop fuel max (next_sequence sequence) (more ++ rest) (so_far ++ take max l)
    read_loop-full fuel sequence l so_far rest more h =
        ap (λ q. read_loop (suc fuel) max sequence q so_far)
          (append_assoc (header max sequence ++ take max l) more rest)
        ∙ read_loop-one fuel sequence max (take max l) so_far (more ++ rest) small
            (length-take max l h)
        ∙ read_next-full (read_loop fuel max) so_far (take max l) (more ++ rest)
            (next_sequence sequence) (length-take max l h)

    pub read_loop-write_loop :
        (fuel w : ℕ) (l so_far rest : List ℕ) (sequence : ℕ)
        → length l < fuel
        → length l < w
        → read_loop fuel max sequence ((write_loop w max sequence l).0 ++ rest) so_far
          ≡ done (so_far ++ l) rest (write_loop w max sequence l).1
    read_loop-write_loop zero w l so_far rest sequence enough room = absurd (omega (arith, enough))
    read_loop-write_loop (suc fuel) zero l so_far rest sequence enough room =
        absurd (omega (arith, room))
    read_loop-write_loop (suc fuel) (suc zero) l so_far rest sequence enough room =
        read_loop-last fuel zero sequence l so_far rest (omega (arith, room, positive))
    read_loop-write_loop (suc fuel) (suc (suc w)) l so_far rest sequence enough room =
        elim (Bool-cases (ltb (length l) max)) [
          | inl less ↦ read_loop-last fuel (suc w) sequence l so_far rest (ground (arith, less))
          | inr full ↦
              let h : max ≤ length l = ground (arith, full) in
              let m = drop max l in
              let shorter : length m < length l = omega (arith, length-drop max l, h, positive) in
              let W = write_loop (suc w) max (next_sequence sequence) m in
              subst
                (λ q.
                  read_loop (suc fuel) max sequence (q.0 ++ rest) so_far
                  ≡ done (so_far ++ l) rest q.1)
                (sym (write_loop-full max positive w sequence l h))
                (read_loop-full fuel sequence l so_far rest W.0 h
                  ∙ read_loop-write_loop fuel (suc w) m (so_far ++ take max l) rest
                      (next_sequence sequence) (omega (arith, enough, shorter))
                      (omega (arith, room, shorter))
                  ∙ ap (λ q. done q rest W.1)
                      (append_assoc so_far (take max l) m
                        ∙ ap (λ q. so_far ++ q) (take-drop max l)))
        ]
