-- ===== src/Mysql/Ephemeral/Agreement.antt =====
-- readEphemeralPacket of pkg/mysql/conn.go against its readPacket
use arana.Prelude.{
  ℕ, zero, suc, ◌<◌, ◌≡◌, refl, ap, ◌∙◌, arith, List, [], ◌∷◌, ◌==◌, ltb, length, take, Bool-cases,
  inl, inr,
}
use arana.Prelude.Go.{Go, ret, panic}
use arana.Mysql.Packets.{
  Read, next_sequence, max_packet_size, read_full, read_loop, read_one_packet, read_first,
  read_packet,
}
use arana.Mysql.Packets.Writing.{==_false_above, ltb-true, ltb-false, length-take}
use arana.Mysql.Ephemeral.{
  Policy, ephemeral_unused, ephemeral_write, ephemeral_read, Ephemeral, fill_buffer, append_more,
  read_body, read_packet_into, read_ephemeral_packet,
}

module _ (fuel max : ℕ) (positive : 0 < max) (c : Ephemeral) where
  read_body-first :
      (n : ℕ) (bytes : List ℕ) (sequence : ℕ)
      → (read_body fuel max c n bytes sequence).0
        ≡ read_first max (read_loop fuel max) (read_full n bytes sequence)
  unfolding read_body read_full read_first fill_buffer append_more
  read_body-first zero bytes sequence =
      rw (ltb-false (length bytes) 0 (omega arith), ltb-true 0 max positive) refl
  read_body-first (suc n) bytes sequence = elim (Bool-cases (ltb (suc n) max)) [
    | inl small ↦ elim (Bool-cases (ltb (length bytes) (suc n))) [
      | inl few ↦ rw (==_false_above (suc n) 0 (omega arith), small, few) refl
      | inr enough ↦
          let whole : length (take (suc n) bytes) ≡ suc n =
            length-take (suc n) bytes (ground arith) in
          rw (==_false_above (suc n) 0 (omega arith), small, enough, whole, small) refl
    ]
    | inr large ↦ elim (Bool-cases (ltb (length bytes) (suc n))) [
      | inl few ↦ rw (==_false_above (suc n) 0 (omega arith), large, few) refl
      | inr enough ↦
          let whole : length (take (suc n) bytes) ≡ suc n =
            length-take (suc n) bytes (ground arith) in
          rw (==_false_above (suc n) 0 (omega arith), large, enough, whole, large) refl
    ]
  ]

  read_packet_into-first :
      (sequence : ℕ) (bytes : List ℕ)
      → (read_packet_into fuel max c sequence bytes).0
        ≡ read_first max (read_loop fuel max) (read_one_packet sequence bytes)
  unfolding read_packet_into read_one_packet read_first
  read_packet_into-first sequence [] = refl
  read_packet_into-first sequence (b0 ∷ []) = refl
  read_packet_into-first sequence (b0 ∷ b1 ∷ []) = refl
  read_packet_into-first sequence (b0 ∷ b1 ∷ b2 ∷ []) = refl
  read_packet_into-first sequence (b0 ∷ b1 ∷ b2 ∷ b3 ∷ bytes) = elim (Bool-cases (b3 == sequence)) [
    | inl t ↦ rw (t) (read_body-first _ bytes (next_sequence sequence))
    | inr f ↦ rw (f) refl
  ]

if_unused :
    (p : Policy) (q : Go (Read × Ephemeral))
    → p ≡ ephemeral_unused
    → (elim p [ ephemeral_unused ↦ q | ephemeral_write ↦ panic | ephemeral_read ↦ panic ]) ≡ q
if_unused p q h = rw (h) refl

read_ephemeral_packet-unused :
    (fuel sequence : ℕ) (bytes : List ℕ) (c : Ephemeral)
    → c.policy ≡ ephemeral_unused
    → read_ephemeral_packet fuel sequence bytes c
      ≡ ret (read_packet_into fuel max_packet_size c sequence bytes)
unfolding read_ephemeral_packet
read_ephemeral_packet-unused fuel sequence bytes c h = if_unused c.policy _ h

-- On a connection with no buffer in use, readEphemeralPacket does not panic and gives what
-- readPacket gives: the same payload with the same bytes and sequence number behind it, or the same
-- failure.
pub read_ephemeral_packet-agrees :
    (fuel sequence : ℕ) (bytes : List ℕ) (c : Ephemeral)
    → c.policy ≡ ephemeral_unused
    → (c' : Ephemeral) × (read_ephemeral_packet fuel sequence bytes c
        ≡ ret (read_packet fuel sequence bytes, c'))
unfolding read_packet max_packet_size
read_ephemeral_packet-agrees fuel sequence bytes c h =
    let c' = (read_packet_into fuel max_packet_size c sequence bytes).1 in
    (
      c',
      read_ephemeral_packet-unused fuel sequence bytes c h
          ∙ ap (λ r. ret (r, c'))
              (read_packet_into-first fuel max_packet_size (omega arith) c sequence bytes),
    )
