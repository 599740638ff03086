-- ===== src/Mysql/Encoding/Hostile.antt =====
-- The decoders on packets that no encoder wrote.
use arana.Prelude.{
  ℕ, zero, suc, ◌+◌, ◌^◌, ◌≤◌, ◌<◌, ◌≡◌, ◌↔◌, refl, subst, Option, none, some, [], ◌∷◌, arith,
  length, get_elem?, dec_lt,
}
use arana.Prelude.Go.{ret, panic}
use arana.Mysql.Encoding.{
  Bytes, Read, at, slice, read_two, read_three, read_eight, read_len_enc_int, read_len_enc_string,
  skip_len_enc_string, read_len_enc_string_copy, stop_index,
}

get_elem?-lt : (d : Bytes) (i : ℕ) → i < length d → (b : ℕ) × (get_elem? d i ≡ some b)
get_elem?-lt [] i h = absurd (omega arith)
get_elem?-lt (x ∷ xs) zero h = (x, refl)
get_elem?-lt (x ∷ xs) (suc i) h = get_elem?-lt xs i (omega arith)

at-lt : (d : Bytes) (i : ℕ) → i < length d → (b : ℕ) × (at d i ≡ ret b)
unfolding at
at-lt d i h = let (b, e) = get_elem?-lt d i h in (b, rw (e, at))

-- A decoder that returned without a panic; a value comes with a next position inside the packet.
abbrev pub Advances : Bytes → ℕ → Read ℕ → Type 0
Advances d pos panic = ⊥
Advances d pos (ret none) = Unit
Advances d pos (ret (some (v, next))) = (pos < next) × (next ≤ length d)

module _ (d : Bytes) (pos : ℕ) where
  read_two-Advances : pos < length d → Advances d pos (read_two d pos)
  unfolding read_two
  read_two-Advances h = elim (dec_lt (pos + 2) (length d)) [
    | yes lt ↦ ground (arith, at-lt d (pos + 1) (omega arith), at-lt d (pos + 2) lt)
    | no le ↦ ground arith
  ]

  read_three-Advances : pos < length d → Advances d pos (read_three d pos)
  unfolding read_three
  read_three-Advances h = elim (dec_lt (pos + 3) (length d)) [
    | yes lt ↦ ground (
      arith,
      at-lt d (pos + 1) (omega arith),
      at-lt d (pos + 2) (omega arith),
      at-lt d (pos + 3) lt,
    )
    | no le ↦ ground arith
  ]

  read_eight-Advances : pos < length d → Advances d pos (read_eight d pos)
  unfolding read_eight
  read_eight-Advances h = elim (dec_lt (pos + 8) (length d)) [
    | yes lt ↦ ground (
      arith,
      at-lt d (pos + 1) (omega arith),
      at-lt d (pos + 2) (omega arith),
      at-lt d (pos + 3) (omega arith),
      at-lt d (pos + 4) (omega arith),
      at-lt d (pos + 5) (omega arith),
      at-lt d (pos + 6) (omega arith),
      at-lt d (pos + 7) (omega arith),
      at-lt d (pos + 8) lt,
    )
    | no le ↦ ground arith
  ]

pub read_len_enc_int-Advances : (d : Bytes) (pos : ℕ) → Advances d pos (read_len_enc_int d pos)
unfolding read_len_enc_int
read_len_enc_int-Advances d pos = elim (dec_lt pos (length d)) [
  | yes lt ↦ ground (
    arith,
    at-lt d pos lt,
    read_two-Advances d pos lt,
    read_three-Advances d pos lt,
    read_eight-Advances d pos lt,
  )
  | no le ↦ ground arith
]

-- The position behind a length prefix is inside the packet.
prefix-le :
    (d : Bytes) (start size pos : ℕ)
    → read_len_enc_int d start ≡ ret (some (size, pos))
    → pos ≤ length d
prefix-le d start size pos e =
    let inside : Advances d start (ret (some (size, pos))) =
      subst (Advances d start) e (read_len_enc_int-Advances d start) in
    inside.1

-- In a packet of fewer than 2 ^ 63 bytes, a string whose length prefix is `size`, read with the
-- bytes behind the prefix at `pos`: the decoder panics exactly if `pos + size` is above 2 ^ 63, so that
-- the index of its last byte is no Go `int`.
pub read_len_enc_string-panic_iff :
    (d : Bytes) (start size pos : ℕ)
    → length d < 2 ^ 63
    → size < 2 ^ 64
    → read_len_enc_int d start ≡ ret (some (size, pos))
    → (read_len_enc_string d start ≡ panic) ↔ (2 ^ 63 < pos + size)
unfolding read_len_enc_string slice
read_len_enc_string-panic_iff d start size pos int word e =
    let inside = prefix-le d start size pos e in
    (λ panics. ground (arith, e, inside), λ large. ground (arith, e, inside))

-- The next position of a decoded string
abbrev pub next_of : Option (Bytes × ℕ) → Option ℕ
next_of none = none
next_of (some (s, next)) = some next

-- The two other readers against readLenEncString
abbrev pub AgreeWith : Bytes → ℕ → Option (Bytes × ℕ) → Type 0
AgreeWith d start r =
    (skip_len_enc_string d start ≡ ret (next_of r)) × (read_len_enc_string_copy d start ≡ ret r)

agree_some :
    (d : Bytes) (start size pos : ℕ) (r : Option (Bytes × ℕ))
    → length d < 2 ^ 63
    → size < 2 ^ 64
    → read_len_enc_int d start ≡ ret (some (size, pos))
    → read_len_enc_string d start ≡ ret r
    → AgreeWith d start r
unfolding read_len_enc_string skip_len_enc_string read_len_enc_string_copy slice
agree_some d start size pos none int word e h =
    let inside = prefix-le d start size pos e in ground (arith, e, inside, h)
agree_some d start size pos (some r) int word e h =
    let inside = prefix-le d start size pos e in ground (arith, e, inside, h)

-- The same for a prefix that is cut off
agree_none :
    (d : Bytes) (start : ℕ) (r : Option (Bytes × ℕ))
    → read_len_enc_int d start ≡ ret none
    → read_len_enc_string d start ≡ ret r
    → AgreeWith d start r
unfolding read_len_enc_string skip_len_enc_string read_len_enc_string_copy
agree_none d start none e h = ground (arith, e, h)
agree_none d start (some r) e h = ground (arith, e, h)

agree_at :
    (d : Bytes) (start : ℕ) (r : Option (Bytes × ℕ)) (q : Read ℕ)
    → length d < 2 ^ 63
    → ((size pos : ℕ) → read_len_enc_int d start ≡ ret (some (size, pos)) → size < 2 ^ 64)
    → read_len_enc_string d start ≡ ret r
    → read_len_enc_int d start ≡ q
    → AgreeWith d start r
agree_at d start r panic int word h e =
    absurd (subst (Advances d start) e (read_len_enc_int-Advances d start))
agree_at d start r (ret none) int word h e = agree_none d start r e h
agree_at d start r (ret (some (size, pos))) int word h e =
    agree_some d start size pos r int (word size pos e) e h

-- In a packet of fewer than 2 ^ 63 bytes, at a position whose length prefix, if there is a whole one,
-- is a uint64: wherever readLenEncString returns, accepting or not, skipLenEncString goes to the same
-- next position and readLenEncStringAsBytesCopy gives the same answer.
pub read_len_enc_string_agree :
    (d : Bytes) (start : ℕ) (r : Option (Bytes × ℕ))
    → length d < 2 ^ 63
    → ((size pos : ℕ) → read_len_enc_int d start ≡ ret (some (size, pos)) → size < 2 ^ 64)
    → read_len_enc_string d start ≡ ret r
    → (skip_len_enc_string d start ≡ ret (next_of r)) × (read_len_enc_string_copy d start ≡ ret r)
read_len_enc_string_agree d start r int word h =
    agree_at d start r (read_len_enc_int d start) int word h refl

-- In a packet of fewer than 2 ^ 63 bytes, a prefix that passes the largest Go `int` by less than
-- the position behind it sends skipLenEncString back, to a position before the string's first byte.
pub skip_len_enc_string-backward :
    (d : Bytes) (start size pos : ℕ)
    → length d < 2 ^ 63
    → size < 2 ^ 64
    → 2 ^ 64 ≤ pos + size
    → read_len_enc_int d start ≡ ret (some (size, pos))
    → (next : ℕ) × (skip_len_enc_string d start ≡ ret (some next)) × (next < pos)
unfolding skip_len_enc_string
skip_len_enc_string-backward d start size pos int word large e =
    let inside = prefix-le d start size pos e in
    (stop_index pos size, ground (arith, e, inside), ground (arith, e, inside))
