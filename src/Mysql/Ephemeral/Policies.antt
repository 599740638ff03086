-- ===== src/Mysql/Ephemeral/Policies.antt =====
-- The policies of the buffer of a connection (pkg/mysql/conn.go): which call may follow which
use arana.Prelude.{
  ℕ, zero, suc, ◌+◌, ◌*◌, ◌^◌, ◌≡◌, ◌&&◌, length, if◌then◌else◌, refl, Bool, true, false, Option,
  none, some, List, [], ◌∷◌, ◌==◌, ltb, Bool-cases, inl, inr, arith,
}
use arana.Prelude.Go.{Go, ret, panic, ◌>>=◌}
use arana.Mysql.Packets.{read_full, max_packet_size}
use arana.Mysql.Packets.Writing.{ltb-false, ==_false_above}
use arana.Mysql.Ephemeral.{
  Policy, ephemeral_unused, ephemeral_write, ephemeral_read, Ephemeral, start_packet, put_back,
  recycle_write_packet, write_buffer, write_ephemeral_packet, recycle_buffer, recycle_read_packet,
  fill_buffer, read_body, read_packet_into, read_ephemeral_packet,
}

-- The calls, with their arguments
pub data Call : Type 0 where
  start_call : ℕ → Call
  write_call : ℕ → Call
  recycle_write_call : Call
  read_call : ℕ → ℕ → List ℕ → Call
  recycle_read_call : Call

-- What a call leaves of the buffer
unfoldable pub run_call : (ℕ → List ℕ) → Call → Ephemeral → Go Ephemeral
run_call get (start_call n) c = start_packet get n c
run_call get (write_call sequence) c = write_ephemeral_packet sequence c >>= λ q. ret q.1
run_call get recycle_write_call c = recycle_write_packet c
run_call get (read_call fuel sequence bytes) c =
    read_ephemeral_packet fuel sequence bytes c >>= λ q. ret q.1
run_call get recycle_read_call c = recycle_read_packet c

-- The policy under which a call is made
abbrev pub wanted : Call → Policy
wanted (start_call n) = ephemeral_unused
wanted (write_call sequence) = ephemeral_write
wanted recycle_write_call = ephemeral_write
wanted (read_call fuel sequence bytes) = ephemeral_unused
wanted recycle_read_call = ephemeral_read

abbrev pub same_policy : Policy → Policy → Bool
same_policy ephemeral_unused ephemeral_unused = true
same_policy ephemeral_write ephemeral_write = true
same_policy ephemeral_read ephemeral_read = true
same_policy _ _ = false

-- A packet that is written has a buffer, one that has been read may have one, and nothing else
-- has; the buffer is the only one taken.
abbrev pub Shape : Policy → Option (List ℕ) → ℕ → Type 0
Shape ephemeral_unused none n = n ≡ 0
Shape ephemeral_unused (some b) n = ⊥
Shape ephemeral_write none n = ⊥
Shape ephemeral_write (some b) n = n ≡ 1
Shape ephemeral_read none n = n ≡ 0
Shape ephemeral_read (some b) n = n ≡ 1

abbrev pub Steady : Ephemeral → Type 0
Steady c = Shape c.policy c.buffer c.taken

-- A body of n bytes of which m have come: below the largest size it goes to a buffer, which is given
-- back if it cannot be filled, and otherwise the packet counts as read, also where it is empty.
abbrev pub body_leaves : ℕ → ℕ → ℕ → Policy
body_leaves max n m = if ltb m n && ltb n max then ephemeral_unused else ephemeral_read

-- The packet counts as read only behind a whole header with the sequence number.
abbrev pub read_leaves : ℕ → ℕ → List ℕ → Policy
read_leaves max sequence (b0 ∷ b1 ∷ b2 ∷ b3 ∷ rest) =
    if b3 == sequence
    then body_leaves max (b0 + b1 * 2 ^ 8 + b2 * 2 ^ 16) (length rest)
    else ephemeral_unused
read_leaves max sequence bytes = ephemeral_unused

-- The policy behind a call
abbrev pub Leaves : Call → Policy → Type 0
Leaves (start_call n) p = p ≡ ephemeral_write
Leaves (write_call sequence) p = p ≡ ephemeral_unused
Leaves recycle_write_call p = p ≡ ephemeral_unused
Leaves (read_call fuel sequence bytes) p = p ≡ read_leaves max_packet_size sequence bytes
Leaves recycle_read_call p = p ≡ ephemeral_unused

abbrev pub Follows : Call → Bool → Go Ephemeral → Type 0
Follows call true q = (c : Ephemeral) × (q ≡ ret c) × Steady c × Leaves call c.policy
Follows call false q = q ≡ panic

abbrev Held : Policy → Ephemeral → Type 0
Held p c = Steady c × (c.policy ≡ p)

fill_buffer-Held :
    (k n : ℕ) (bytes : List ℕ) (sequence : ℕ)
    → k ≡ 0
    → Held
        (if ltb (length bytes) n then ephemeral_unused else ephemeral_read)
        (fill_buffer
          (record { policy = ephemeral_unused; buffer = none; taken = k })
          (read_full n bytes sequence)).1
unfolding fill_buffer read_full
fill_buffer-Held k n bytes sequence h = elim (Bool-cases (ltb (length bytes) n)) [
  | inl few ↦ rw (few) (omega arith, refl)
  | inr enough ↦ rw (enough) (omega arith, refl)
]

read_body-Held :
    (fuel max k n : ℕ) (bytes : List ℕ) (sequence : ℕ)
    → k ≡ 0
    → Held
        (body_leaves max n (length bytes))
        (read_body fuel max
          (record { policy = ephemeral_unused; buffer = none; taken = k })
          n
          bytes
          sequence).1
unfolding read_body
read_body-Held fuel max k zero bytes sequence h =
    rw (ltb-false (length bytes) 0 (omega arith)) (h, refl)
read_body-Held fuel max k (suc n) bytes sequence h =
    let filled = fill_buffer-Held k (suc n) bytes sequence h in
    let some_left = ==_false_above (suc n) 0 (omega arith) in
    elim (Bool-cases (ltb (suc n) max)) [
      | inl small ↦ elim (Bool-cases (ltb (length bytes) (suc n))) [
        | inl few ↦ rw (some_left, small, few) (rw few at filled)
        | inr enough ↦ rw (some_left, small, enough) (rw enough at filled)
      ]
      | inr large ↦ elim (Bool-cases (ltb (length bytes) (suc n))) [
        | inl few ↦ rw (some_left, large, few) (h, refl)
        | inr enough ↦ rw (some_left, large, enough) (h, refl)
      ]
    ]

read_packet_into-Held :
    (fuel max k sequence : ℕ) (bytes : List ℕ)
    → k ≡ 0
    → Held
        (read_leaves max sequence bytes)
        (read_packet_into fuel max
          (record { policy = ephemeral_unused; buffer = none; taken = k })
          sequence
          bytes).1
unfolding read_packet_into
read_packet_into-Held fuel max k sequence [] h = (h, refl)
read_packet_into-Held fuel max k sequence (b0 ∷ []) h = (h, refl)
read_packet_into-Held fuel max k sequence (b0 ∷ b1 ∷ []) h = (h, refl)
read_packet_into-Held fuel max k sequence (b0 ∷ b1 ∷ b2 ∷ []) h = (h, refl)
read_packet_into-Held fuel max k sequence (b0 ∷ b1 ∷ b2 ∷ b3 ∷ bytes) h =
    elim (Bool-cases (b3 == sequence)) [
      | inl t ↦ rw (t) (read_body-Held fuel max k _ bytes _ h)
      | inr f ↦ rw (f) (h, refl)
    ]

run_call-Shape :
    (get : ℕ → List ℕ) (call : Call) (p : Policy) (b : Option (List ℕ)) (n : ℕ)
    → Shape p b n
    → Follows call
        (same_policy p (wanted call))
        (run_call get call (record { policy = p; buffer = b; taken = n }))
unfolding run_call start_packet put_back recycle_write_packet write_buffer write_ephemeral_packet
    recycle_buffer recycle_read_packet read_ephemeral_packet
run_call-Shape get (start_call n) ephemeral_unused none k h = (_, refl, omega arith, refl)
run_call-Shape get (start_call n) ephemeral_unused (some b) k h = absurd h
run_call-Shape get (start_call n) ephemeral_write b k h = refl
run_call-Shape get (start_call n) ephemeral_read b k h = refl
run_call-Shape get (write_call sequence) ephemeral_unused b k h = refl
run_call-Shape get (write_call sequence) ephemeral_write none k h = absurd h
run_call-Shape get (write_call sequence) ephemeral_write (some b) k h = (_, refl, omega arith, refl)
run_call-Shape get (write_call sequence) ephemeral_read b k h = refl
run_call-Shape get recycle_write_call ephemeral_unused b k h = refl
run_call-Shape get recycle_write_call ephemeral_write none k h = absurd h
run_call-Shape get recycle_write_call ephemeral_write (some b) k h = (_, refl, omega arith, refl)
run_call-Shape get recycle_write_call ephemeral_read b k h = refl
run_call-Shape get (read_call fuel sequence bytes) ephemeral_unused none k h =
    let held = read_packet_into-Held fuel max_packet_size k sequence bytes h in
    (_, refl, held.0, held.1)
run_call-Shape get (read_call fuel sequence bytes) ephemeral_unused (some b) k h = absurd h
run_call-Shape get (read_call fuel sequence bytes) ephemeral_write b k h = refl
run_call-Shape get (read_call fuel sequence bytes) ephemeral_read b k h = refl
run_call-Shape get recycle_read_call ephemeral_unused b k h = refl
run_call-Shape get recycle_read_call ephemeral_write b k h = refl
run_call-Shape get recycle_read_call ephemeral_read none k h = (_, refl, h, refl)
run_call-Shape get recycle_read_call ephemeral_read (some b) k h = (_, refl, omega arith, refl)

-- On a connection whose buffer is as its policy has it, a call under the policy that it is made
-- under returns, and leaves the policy that goes with it and a buffer as that has it, with no other
-- taken from bufPool; a read leaves ephemeralRead exactly if a whole header with the sequence number
-- has come and no body below the largest size is cut off, and otherwise ephemeralUnused. Under another
-- policy the call panics.
pub run_call-Follows :
    (get : ℕ → List ℕ) (call : Call) (c : Ephemeral)
    → Steady c
    → Follows call (same_policy c.policy (wanted call)) (run_call get call c)
run_call-Follows get call c h = run_call-Shape get call c.policy c.buffer c.taken h
