-- ===== src/Mysql/Encoding/Integers.antt =====
-- The integers of the wire format are read back as they were written.
use native.Mathlib.Nat.{mod-eq_of_lt}
use arana.Prelude.{
  ℕ, ◌+◌, ◌*◌, ◌%◌, ◌^◌, ◌≤◌, ◌<◌, ◌≡◌, ◌⊎◌, ◌↔◌, some, [], ◌∷◌, arith, length, get_elem?, ltb,
  if◌then◌else◌, bit_or, dec_lt,
}
use arana.Prelude.Bits.{bit_or-low_high}
use arana.Prelude.Go.{ret, panic}
use arana.Mysql.Encoding.{
  Bytes, byte, shr, shl64, at, len_enc_int_size, write_len_enc_int, read_len_enc_int, read_two,
  join_eight, read_three, read_eight,
}
use arana.Mysql.Encoding.Memory.{
  splice, write_at-splice, length-splice, at-splice, write_at-panics, get-splice_outside,
}

-- The bytes that stand for an integer.
abbrev two : ℕ → Bytes
two i = 0xfc ∷ byte i ∷ byte (shr i 8) ∷ []

abbrev three : ℕ → Bytes
three i = 0xfd ∷ byte i ∷ byte (shr i 8) ∷ byte (shr i 16) ∷ []

abbrev eight : ℕ → Bytes
eight i =
    0xfe
    ∷ byte i
    ∷ byte (shr i 8)
    ∷ byte (shr i 16)
    ∷ byte (shr i 24)
    ∷ byte (shr i 32)
    ∷ byte (shr i 40)
    ∷ byte (shr i 48)
    ∷ byte (shr i 56)
    ∷ []

pub len_enc_bytes : ℕ → Bytes
len_enc_bytes i =
    if ltb i 251
    then byte i ∷ []
    else if ltb i (2 ^ 16)
    then two i
    else if ltb i (2 ^ 24)
    then three i
    else eight i

pub length-len_enc_bytes : (i : ℕ) → length (len_enc_bytes i) ≡ len_enc_int_size i
unfolding len_enc_int_size len_enc_bytes
length-len_enc_bytes i = ground arith

pub write_len_enc_int-splice :
    (xs : Bytes) (pos i : ℕ)
    → pos + len_enc_int_size i ≤ length xs
    → write_len_enc_int xs pos i ≡ ret (splice xs pos (len_enc_bytes i), pos + len_enc_int_size i)
unfolding write_len_enc_int len_enc_int_size len_enc_bytes
write_len_enc_int-splice xs pos i h = ground (
  arith,
  write_at-splice pos xs (byte i ∷ []),
  write_at-splice pos xs (two i),
  write_at-splice pos xs (three i),
  write_at-splice pos xs (eight i),
)

or_byte : (k r b : ℕ) → r < 2 ^ k → b * 2 ^ k < 2 ^ 64 → bit_or r (shl64 b k) ≡ r + b * 2 ^ k
or_byte k r b small fits = rw (mod-eq_of_lt fits) (bit_or-low_high k r b small)

-- Joining byte number k/8 to the bytes below it.
join8 : (i : ℕ) → bit_or (byte i) (shl64 (byte (shr i 8)) 8) ≡ i % 2 ^ 16
join8 i = omega (arith, or_byte 8 (byte i) (byte (shr i 8)))

join16 : (i : ℕ) → bit_or (i % 2 ^ 16) (shl64 (byte (shr i 16)) 16) ≡ i % 2 ^ 24
join16 i = omega (arith, or_byte 16 (i % 2 ^ 16) (byte (shr i 16)))

join24 : (i : ℕ) → bit_or (i % 2 ^ 24) (shl64 (byte (shr i 24)) 24) ≡ i % 2 ^ 32
join24 i = omega (arith, or_byte 24 (i % 2 ^ 24) (byte (shr i 24)))

join32 : (i : ℕ) → bit_or (i % 2 ^ 32) (shl64 (byte (shr i 32)) 32) ≡ i % 2 ^ 40
join32 i = omega (arith, or_byte 32 (i % 2 ^ 32) (byte (shr i 32)))

join40 : (i : ℕ) → bit_or (i % 2 ^ 40) (shl64 (byte (shr i 40)) 40) ≡ i % 2 ^ 48
join40 i = omega (arith, or_byte 40 (i % 2 ^ 40) (byte (shr i 40)))

join48 : (i : ℕ) → bit_or (i % 2 ^ 48) (shl64 (byte (shr i 48)) 48) ≡ i % 2 ^ 56
join48 i = omega (arith, or_byte 48 (i % 2 ^ 48) (byte (shr i 48)))

join56 : (i : ℕ) → bit_or (i % 2 ^ 56) (shl64 (byte (shr i 56)) 56) ≡ i % 2 ^ 64
join56 i = omega (arith, or_byte 56 (i % 2 ^ 56) (byte (shr i 56)))

join_eight-bytes :
    (i : ℕ)
    → join_eight
        (byte i)
        (byte (shr i 8))
        (byte (shr i 16))
        (byte (shr i 24))
        (byte (shr i 32))
        (byte (shr i 40))
        (byte (shr i 48))
        (byte (shr i 56))
      ≡ i % 2 ^ 64
unfolding join_eight
join_eight-bytes i = rw (join8 i, join16 i, join24 i, join32 i, join40 i, join48 i) (join56 i)

module _ (d : Bytes) (pos i : ℕ) where
  read_two-bytes :
      i < 2 ^ 16
      → pos + 3 ≤ length d
      → ((k : ℕ) → k < 3 → at d (pos + k) ≡ at (two i) k)
      → read_two d pos ≡ ret (some (i, pos + 3))
  unfolding read_two at
  read_two-bytes h room written =
      ground (arith, written 1, written 2, or_byte 8 (byte i) (byte (shr i 8)))

  read_three-bytes :
      i < 2 ^ 24
      → pos + 4 ≤ length d
      → ((k : ℕ) → k < 4 → at d (pos + k) ≡ at (three i) k)
      → read_three d pos ≡ ret (some (i, pos + 4))
  unfolding read_three at
  read_three-bytes h room written = ground (
    arith,
    written 1,
    written 2,
    written 3,
    or_byte 8 (byte i) (byte (shr i 8)),
    or_byte 16 (i % 2 ^ 16) (byte (shr i 16)),
  )

  read_eight-bytes :
      i < 2 ^ 64
      → pos + 9 ≤ length d
      → ((k : ℕ) → k < 9 → at d (pos + k) ≡ at (eight i) k)
      → read_eight d pos ≡ ret (some (i, pos + 9))
  unfolding read_eight at
  read_eight-bytes h room written = ground (
    arith,
    written 1,
    written 2,
    written 3,
    written 4,
    written 5,
    written 6,
    written 7,
    written 8,
    join_eight-bytes i,
  )

  pub read_len_enc_int-bytes :
      i < 2 ^ 64
      → pos + len_enc_int_size i ≤ length d
      → ((k : ℕ) → k < len_enc_int_size i → at d (pos + k) ≡ at (len_enc_bytes i) k)
      → read_len_enc_int d pos ≡ ret (some (i, pos + len_enc_int_size i))
  unfolding read_len_enc_int len_enc_int_size len_enc_bytes at
  read_len_enc_int-bytes h room written =
      ground (arith, written 0, read_two-bytes, read_three-bytes, read_eight-bytes)

-- `d` differs from `xs` at most in the `n` bytes from `pos` on.
pub record SameOutside (xs d : Bytes) (pos n : ℕ) : Type 0 where
  pub same_length : length d ≡ length xs
  pub same_byte : (j : ℕ) → (j < pos) ⊎ (pos + n ≤ j) → get_elem? d j ≡ get_elem? xs j

pub splice-SameOutside :
    (pos : ℕ) (xs bs : Bytes) (n : ℕ)
    → length bs ≡ n
    → pos + n ≤ length xs
    → SameOutside xs (splice xs pos bs) pos n
splice-SameOutside pos xs bs n e h = record {
  same_length = length-splice pos xs bs (omega arith);
  same_byte = λ j out. get-splice_outside pos xs bs j (omega arith) (omega arith);
}

-- Where the packet has room for it, every uint64 is written, read back from the same place with
-- the same next position, and no byte outside those that encode it changes.
pub read-write_len_enc_int :
    (xs : Bytes) (pos i : ℕ)
    → i < 2 ^ 64
    → pos + len_enc_int_size i ≤ length xs
    → (d : Bytes) × (write_len_enc_int xs pos i ≡ ret (d, pos + len_enc_int_size i))
      × (read_len_enc_int d pos ≡ ret (some (i, pos + len_enc_int_size i)))
      × SameOutside xs d pos (len_enc_int_size i)
read-write_len_enc_int xs pos i h room = (
  splice xs pos (len_enc_bytes i),
  write_len_enc_int-splice xs pos i room,
  read_len_enc_int-bytes _ pos i h
      (omega (arith, length-len_enc_bytes i, length-splice pos xs (len_enc_bytes i)))
      (λ k lt.
        at-splice pos xs (len_enc_bytes i) k (omega (arith, length-len_enc_bytes i))
          (omega (arith, length-len_enc_bytes i))),
  splice-SameOutside pos xs (len_enc_bytes i) _ (length-len_enc_bytes i) room,
)

write_len_enc_int-panics :
    (xs : Bytes) (pos i : ℕ)
    → length xs < pos + len_enc_int_size i
    → write_len_enc_int xs pos i ≡ panic
unfolding write_len_enc_int len_enc_int_size
write_len_enc_int-panics xs pos i h = ground (
  arith,
  write_at-panics pos xs (byte i ∷ []),
  write_at-panics pos xs (two i),
  write_at-panics pos xs (three i),
  write_at-panics pos xs (eight i),
)

write_len_enc_int-panics_only :
    (xs : Bytes) (pos i : ℕ)
    → write_len_enc_int xs pos i ≡ panic
    → length xs < pos + len_enc_int_size i
write_len_enc_int-panics_only xs pos i e = elim (dec_lt (length xs) (pos + len_enc_int_size i)) [
  | yes h ↦ h
  | no h ↦ cc (e, write_len_enc_int-splice xs pos i (omega arith))
]

-- The encoder panics exactly where the packet is too short.
pub write_len_enc_int-panic_iff :
    (xs : Bytes) (pos i : ℕ)
    → (write_len_enc_int xs pos i ≡ panic) ↔ (length xs < pos + len_enc_int_size i)
write_len_enc_int-panic_iff xs pos i =
    (write_len_enc_int-panics_only xs pos i, write_len_enc_int-panics xs pos i)
