-- ===== src/Mysql/Encoding/Fixed.antt =====
-- The integers of a fixed width are read back as they were written.
use arana.Prelude.{ℕ, ◌+◌, ◌*◌, ◌^◌, ◌≤◌, ◌<◌, ◌≡◌, refl, some, [], ◌∷◌, arith, length}
use arana.Prelude.Go.{Go, ret}
use arana.Mysql.Encoding.{
  write_uint16, write_uint32, write_uint64, read_uint16, read_uint32, read_uint64, read_uint,
  little_endian, slice, Bytes, Read, byte, shr,
}
use arana.Mysql.Encoding.Memory.{slice-splice, splice, write_at-splice, length-splice}
use arana.Mysql.Encoding.Integers.{SameOutside, splice-SameOutside}

pub data Width : Type 0 where
  w16 w32 w64 : Width

abbrev pub bytes_of : Width → ℕ
bytes_of w16 = 2
bytes_of w32 = 4
bytes_of w64 = 8

abbrev pub write_uint : Width → Bytes → ℕ → ℕ → Go (Bytes × ℕ)
write_uint w16 = write_uint16
write_uint w32 = write_uint32
write_uint w64 = write_uint64

abbrev pub read_uint_at : Width → Bytes → ℕ → Read ℕ
read_uint_at w16 = read_uint16
read_uint_at w32 = read_uint32
read_uint_at w64 = read_uint64

abbrev uint_bytes : Width → ℕ → Bytes
uint_bytes w16 v = byte v ∷ byte (shr v 8) ∷ []
uint_bytes w32 v = byte v ∷ byte (shr v 8) ∷ byte (shr v 16) ∷ byte (shr v 24) ∷ []
uint_bytes w64 v =
    byte v
    ∷ byte (shr v 8)
    ∷ byte (shr v 16)
    ∷ byte (shr v 24)
    ∷ byte (shr v 32)
    ∷ byte (shr v 40)
    ∷ byte (shr v 48)
    ∷ byte (shr v 56)
    ∷ []

little_endian-uint_bytes :
    (w : Width) (v : ℕ) → v < 2 ^ (8 * bytes_of w) → little_endian (uint_bytes w v) ≡ v
unfolding little_endian
little_endian-uint_bytes w16 v h = omega arith
little_endian-uint_bytes w32 v h = omega arith
little_endian-uint_bytes w64 v h = omega arith

write_uint-splice :
    (w : Width) (xs : Bytes) (pos v : ℕ)
    → pos + bytes_of w ≤ length xs
    → write_uint w xs pos v ≡ ret (splice xs pos (uint_bytes w v), pos + bytes_of w)
unfolding write_uint16 write_uint32 write_uint64
write_uint-splice w16 xs pos v h = rw (write_at-splice pos xs (uint_bytes w16 v) h)
write_uint-splice w32 xs pos v h = rw (write_at-splice pos xs (uint_bytes w32 v) h)
write_uint-splice w64 xs pos v h = rw (write_at-splice pos xs (uint_bytes w64 v) h)

read_uint-slice :
    (w : Width) (d : Bytes) (pos : ℕ) (s : Bytes)
    → pos + bytes_of w ≤ length d
    → slice d pos (pos + bytes_of w) ≡ ret s
    → read_uint_at w d pos ≡ ret (some (little_endian s, pos + bytes_of w))
unfolding read_uint16 read_uint32 read_uint64 read_uint
read_uint-slice w16 d pos s h e = ground arith
read_uint-slice w32 d pos s h e = ground arith
read_uint-slice w64 d pos s h e = ground arith

length-uint_bytes : (w : Width) (v : ℕ) → length (uint_bytes w v) ≡ bytes_of w
length-uint_bytes w16 v = refl
length-uint_bytes w32 v = refl
length-uint_bytes w64 v = refl

read_uint_at-splice :
    (w : Width) (xs : Bytes) (pos v : ℕ)
    → v < 2 ^ (8 * bytes_of w)
    → pos + bytes_of w ≤ length xs
    → read_uint_at w (splice xs pos (uint_bytes w v)) pos ≡ ret (some (v, pos + bytes_of w))
read_uint_at-splice w xs pos v h room =
    let size = length-uint_bytes w v in
    rw
      (read_uint-slice w (splice xs pos (uint_bytes w v)) pos (uint_bytes w v)
        (omega (arith, length-splice pos xs (uint_bytes w v)))
        (rw (← size) (slice-splice pos xs (uint_bytes w v) (omega arith))))
      (rw (little_endian-uint_bytes w v h))

-- A value that fits its width is written in the room that it needs, is read back, and leaves the
-- other bytes as they were, at each of the widths 16, 32 and 64.
pub read-write_uint :
    (w : Width) (xs : Bytes) (pos v : ℕ)
    → v < 2 ^ (8 * bytes_of w)
    → pos + bytes_of w ≤ length xs
    → (d : Bytes) × (write_uint w xs pos v ≡ ret (d, pos + bytes_of w))
      × (read_uint_at w d pos ≡ ret (some (v, pos + bytes_of w)))
      × SameOutside xs d pos (bytes_of w)
read-write_uint w xs pos v h room = (
  splice xs pos (uint_bytes w v),
  write_uint-splice w xs pos v room,
  read_uint_at-splice w xs pos v h room,
  splice-SameOutside pos xs (uint_bytes w v) _ (length-uint_bytes w v) room,
)
