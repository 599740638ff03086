-- ===== src/Mysql/Encoding/Strings.antt =====
-- Strings of the wire format are read back as they were written.
use arana.Prelude.{
  ℕ, zero, suc, ◌+◌, ◌^◌, ◌≤◌, ◌<◌, ◌≡◌, ◌≢◌, refl, ap, sym, ◌∙◌, inl, some, [], ◌∷◌, ◌++◌, arith,
  length, false, drop, length-append, length-drop, take,
}
use mathlib.Core.List.{append_assoc}
use native.Mathlib.Nat.{add_assoc, zero-add, suc-add}
use arana.Prelude.Go.{ret}
use arana.Mysql.Encoding.{
  Bytes, at, slice, copy_at, put, write_at, len_enc_string_size, len_null_string, write_eof_string,
  write_null_string, write_len_enc_string, read_len_enc_string, read_null_string, index_zero,
  read_len_enc_int, stop_index, past_end,
}
use arana.Mysql.Encoding.Memory.{
  splice, write_at-splice, overwrite-splice, length-splice, at-splice, get-splice_outside,
  slice-splice,
}
use arana.Mysql.Encoding.Integers.{
  len_enc_bytes, length-len_enc_bytes, write_len_enc_int-splice, read_len_enc_int-bytes,
  SameOutside, splice-SameOutside,
}

splice-behind :
    (ys xs bs : Bytes)
    → length ys + length bs ≤ length xs
    → splice (ys ++ drop (length ys) xs) (length ys) bs ≡ (ys ++ bs) ++ drop (length (ys ++ bs)) xs
splice-behind [] xs bs h = refl
splice-behind (y ∷ ys) [] bs h = absurd (omega arith)
splice-behind (y ∷ ys) (x ∷ xs) bs h = ap (λ d. y ∷ d) (splice-behind ys xs bs (omega arith))

-- Two writes, one behind the other, are one.
pub splice-splice :
    (pos : ℕ) (xs ys bs : Bytes)
    → pos + length ys + length bs ≤ length xs
    → splice (splice xs pos ys) (pos + length ys) bs ≡ splice xs pos (ys ++ bs)
splice-splice zero xs ys bs h = rw zero-add (splice-behind ys xs bs (omega arith))
splice-splice (suc pos) [] ys bs h = absurd (omega arith)
splice-splice (suc pos) (x ∷ xs) ys bs h =
    rw suc-add (ap (λ d. x ∷ d) (splice-splice pos xs ys bs (omega arith)))

write_eof_string-splice :
    (xs : Bytes) (pos : ℕ) (value : Bytes)
    → pos + length value ≤ length xs
    → write_eof_string xs pos value ≡ ret (splice xs pos value, pos + length value)
unfolding write_eof_string copy_at
write_eof_string-splice xs pos value h = ground (arith, overwrite-splice pos xs value h)

abbrev len_enc_string_bytes : Bytes → Bytes
len_enc_string_bytes value = len_enc_bytes (length value) ++ value

length-len_enc_string_bytes :
    (value : Bytes) → length (len_enc_string_bytes value) ≡ len_enc_string_size value
unfolding len_enc_string_size
length-len_enc_string_bytes value = omega (
  arith,
  length-append {0} (len_enc_bytes (length value)) value,
  length-len_enc_bytes (length value),
)

write_len_enc_string-splice :
    (xs : Bytes) (pos : ℕ) (value : Bytes)
    → pos + len_enc_string_size value ≤ length xs
    → write_len_enc_string xs pos value
      ≡ ret (splice xs pos (len_enc_string_bytes value), pos + len_enc_string_size value)
unfolding write_len_enc_string len_enc_string_size
write_len_enc_string-splice xs pos value h =
    let bs = len_enc_bytes (length value) in
    let size = length-len_enc_bytes (length value) in
    rw (write_len_enc_int-splice xs pos (length value) (omega arith), ← size)
      (rw
        (write_eof_string-splice (splice xs pos bs) (pos + length bs) value
          (omega (arith, length-splice pos xs bs)))
        (rw (splice-splice pos xs bs value (omega arith), add_assoc)))

write_null_string-splice :
    (xs : Bytes) (pos : ℕ) (value : Bytes)
    → pos + len_null_string value ≤ length xs
    → write_null_string xs pos value
      ≡ ret (splice xs pos (value ++ 0 ∷ []), pos + len_null_string value)
unfolding write_null_string copy_at len_null_string put write_at
write_null_string-splice xs pos value h = ground (
  arith,
  overwrite-splice pos xs value,
  write_at-splice (pos + length value) (splice xs pos value) (0 ∷ []),
  length-splice pos xs value,
  splice-splice pos xs value (0 ∷ []),
)

abbrev pub AllNonzero : Bytes → Type 0
AllNonzero [] = Unit
AllNonzero (b ∷ bs) = (b ≢ 0) × AllNonzero bs

index_zero-append :
    (value rest : Bytes) → AllNonzero value → index_zero (value ++ 0 ∷ rest) ≡ some (length value)
unfolding index_zero
index_zero-append [] rest h = refl
index_zero-append (b ∷ bs) rest h = ground (arith, index_zero-append bs rest h.1)

drop-splice_all :
    (pos : ℕ) (xs bs : Bytes)
    → pos + length bs ≤ length xs
    → drop pos (splice xs pos bs) ≡ bs ++ drop (length bs) (drop pos xs)
drop-splice_all zero xs bs h = refl
drop-splice_all (suc pos) [] bs h = absurd (omega arith)
drop-splice_all (suc pos) (x ∷ xs) bs h = drop-splice_all pos xs bs (omega arith)

read_len_enc_string-slice :
    (d : Bytes) (start n pos : ℕ) (value : Bytes)
    → read_len_enc_int d start ≡ ret (some (n, pos))
    → slice d pos (pos + n) ≡ ret value
    → pos + n ≤ length d
    → length d < 2 ^ 63
    → read_len_enc_string d start ≡ ret (some (value, pos + n))
unfolding read_len_enc_string
read_len_enc_string-slice d start n pos value e s room int =
    let stop : stop_index pos n ≡ pos + n = omega arith in
    let inside : past_end d pos n ≡ false = ground arith in rw (e, inside, stop, s)

-- The packet after the length and then the value have been written.
module _ (xs : Bytes) (pos : ℕ) (value : Bytes)
    (room : pos + len_enc_string_size value ≤ length xs) where
  abbrev first : Bytes
  first = len_enc_bytes (length value)

  abbrev written : Bytes
  written = splice (splice xs pos first) (pos + length first) value

  room_for_both : pos + length first + length value ≤ length xs
  unfolding len_enc_string_size
  room_for_both = omega (arith, length-len_enc_bytes (length value))

  length-written : length written ≡ length xs
  length-written = omega (
    arith,
    room_for_both,
    length-splice (pos + length first) (splice xs pos first) value,
    length-splice pos xs first,
  )

  at-written : (k : ℕ) → k < length first → at written (pos + k) ≡ at first k
  unfolding at
  at-written k lt =
      rw
        (
          get-splice_outside (pos + length first) (splice xs pos first) value (pos + k)
              (omega (arith, room_for_both, length-splice pos xs first)) (inl (omega arith)),
          at,
        )
        (at-splice pos xs first k (omega (arith, room_for_both)) lt)

  read_len_enc_string-written :
      length xs < 2 ^ 63
      → read_len_enc_string written pos ≡ ret (some (value, pos + len_enc_string_size value))
  unfolding len_enc_string_size
  read_len_enc_string-written int =
      let n = length value in
      let size = length-len_enc_bytes n in
      let middle = pos + length first in
      rw (← size, ← add_assoc)
        (read_len_enc_string-slice written pos n middle value
          (read_len_enc_int-bytes written pos n (omega (arith, room_for_both))
              (omega (arith, room_for_both, length-written, size))
              (λ k lt. at-written k (omega (arith, size)))
            ∙ ap (λ k. ret (some (n, pos + k))) (sym size))
          (slice-splice middle (splice xs pos first) value
            (omega (arith, room_for_both, length-splice pos xs first)))
          (omega (arith, length-written, room_for_both)) (omega (arith, length-written)))

-- In a packet with room, of fewer than 2 ^ 63 bytes, a value is written with its length before it
-- and read back; no byte outside changes.
pub read-write_len_enc_string :
    (xs : Bytes) (pos : ℕ) (value : Bytes)
    → pos + len_enc_string_size value ≤ length xs
    → length xs < 2 ^ 63
    → (d : Bytes) × (write_len_enc_string xs pos value ≡ ret (d, pos + len_enc_string_size value))
      × (read_len_enc_string d pos ≡ ret (some (value, pos + len_enc_string_size value)))
      × SameOutside xs d pos (len_enc_string_size value)
read-write_len_enc_string xs pos value room int =
    let bs = len_enc_string_bytes value in
    (
      splice xs pos bs,
      write_len_enc_string-splice xs pos value room,
      rw
          (← splice-splice pos xs (len_enc_bytes (length value)) value
            (room_for_both xs pos value room))
          (read_len_enc_string-written xs pos value room int),
      splice-SameOutside pos xs bs _ (length-len_enc_string_bytes value) room,
    )

take-length : (xs : Bytes) → take (length xs) xs ≡ xs
take-length [] = refl
take-length (x ∷ xs) = rw (take-length xs)

take-append : (xs ys : Bytes) → take (length xs) (xs ++ ys) ≡ xs
take-append [] ys = refl
take-append (x ∷ xs) ys = rw (take-append xs ys)

slice-take :
    (d : Bytes) (pos n : ℕ) → pos + n ≤ length d → slice d pos (pos + n) ≡ ret (take n (drop pos d))
unfolding slice
slice-take d pos n h = ground arith

slice-tail : (d : Bytes) (pos : ℕ) → pos ≤ length d → slice d pos (length d) ≡ ret (drop pos d)
unfolding slice
slice-tail d pos h = ground (arith, take-length (drop pos d), length-drop {0} pos d)

read_null_string-written :
    (xs : Bytes) (pos : ℕ) (value : Bytes)
    → AllNonzero value
    → pos + len_null_string value ≤ length xs
    → read_null_string (splice xs pos (value ++ 0 ∷ [])) pos
      ≡ ret (some (value, pos + len_null_string value))
unfolding read_null_string len_null_string
read_null_string-written xs pos value nonzero room =
    let bs = value ++ 0 ∷ [] in
    let d = splice xs pos bs in
    let rest = drop (length bs) (drop pos xs) in
    let size = length-append {0} value (0 ∷ []) in
    let same = length-splice pos xs bs (omega (arith, size)) in
    let tail : drop pos d ≡ value ++ 0 ∷ rest =
      drop-splice_all pos xs bs (omega (arith, size)) ∙ append_assoc value (0 ∷ []) rest in
    ground (
      arith,
      slice-tail d pos (omega (arith, size, same)),
      tail,
      index_zero-append value rest nonzero,
      slice-take d pos (length value) (omega (arith, size, same)),
      take-append value (0 ∷ rest),
    )

-- A value with no zero byte is written in the room that it needs and read back up to its zero.
pub read-write_null_string :
    (xs : Bytes) (pos : ℕ) (value : Bytes)
    → AllNonzero value
    → pos + len_null_string value ≤ length xs
    → (d : Bytes) × (write_null_string xs pos value ≡ ret (d, pos + len_null_string value))
      × (read_null_string d pos ≡ ret (some (value, pos + len_null_string value)))
      × SameOutside xs d pos (len_null_string value)
read-write_null_string xs pos value nonzero room = (
  splice xs pos (value ++ 0 ∷ []),
  write_null_string-splice xs pos value room,
  read_null_string-written xs pos value nonzero room,
  splice-SameOutside pos xs (value ++ 0 ∷ []) _
      (unfold len_null_string in omega (arith, length-append {0} value (0 ∷ []))) room,
)
