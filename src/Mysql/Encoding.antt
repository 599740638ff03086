-- ===== src/Mysql/Encoding.antt =====
-- pkg/mysql/encoding.go: the integers and strings of MySQL's wire format, written into and read
-- from a packet. A packet is its list of bytes; `pos` and `size` are Go's `int`.
mod Memory
pub mod Integers
pub mod Fixed
mod Strings
mod Hostile
mod Examples
use arana.Prelude.{
  ℕ, zero, suc, ◌+◌, ◌-◌, ◌*◌, ◌/◌, ◌%◌, ◌^◌, bit_or, Bool, true, false, not, ◌&&◌, Option, none,
  some, List, [], ◌∷◌, ltb, leb, ◌==◌, if◌then◌else◌, length, get_elem?, set, take, drop, replicate,
}
use Prim.Native.Nat.{min}
use arana.Prelude.Go.{Go, ret, panic, ◌>>=◌}

abbrev pub Bytes : Type 0
Bytes = List ℕ

-- A decoder gives the value and the next position, or `none` where its `ok` is false.
abbrev pub Read : Type 0 → Type 0
Read A = Go (Option (A × ℕ))

-- byte(v), and v >> k
abbrev pub byte : ℕ → ℕ
byte v = v % 2 ^ 8

abbrev pub shr : ℕ → ℕ → ℕ
shr v k = v / 2 ^ k

-- uint64(b) << k
abbrev pub shl64 : ℕ → ℕ → ℕ
shl64 b k = b * 2 ^ k % 2 ^ 64

-- data[pos] = v
pub put : Bytes → ℕ → ℕ → Go Bytes
put data' pos v = if ltb pos (length data') then ret (set data' pos v) else panic

-- data[pos] = b0; data[pos + 1] = b1; …
pub write_at : Bytes → ℕ → Bytes → Go Bytes
write_at data' pos [] = ret data'
write_at data' pos (b ∷ bs) = put data' pos b >>= λ d. write_at d (suc pos) bs

-- data[i]
pub at : Bytes → ℕ → Go ℕ
at data' i = elim (get_elem? data' i) [ none ↦ panic | some b ↦ ret b ]

-- data[lo : hi]
pub slice : Bytes → ℕ → ℕ → Go Bytes
slice data' lo hi =
    if leb lo hi && leb hi (length data') then ret (take (hi - lo) (drop lo data')) else panic

-- copy(data[pos:], value), with the number of bytes that it copies
pub overwrite : Bytes → ℕ → Bytes → Bytes
overwrite data' pos [] = data'
overwrite data' pos (b ∷ bs) = overwrite (set data' pos b) (suc pos) bs

pub copy_at : Bytes → ℕ → Bytes → Go (Bytes × ℕ)
copy_at data' pos value =
    if leb pos (length data')
    then ret (overwrite data' pos value, min (length data' - pos) (length value))
    else panic

-- Encoders: the packet after the write, and the next position.
pub len_enc_int_size : ℕ → ℕ
len_enc_int_size i =
    if ltb i 251 then 1 else if ltb i (2 ^ 16) then 3 else if ltb i (2 ^ 24) then 4 else 9

pub write_len_enc_int : Bytes → ℕ → ℕ → Go (Bytes × ℕ)
write_len_enc_int data' pos i =
    if ltb i 251
    then (do d ← write_at data' pos (byte i ∷ []); ret (d, pos + 1))
    else if ltb i (2 ^ 16)
    then (do d ← write_at data' pos (0xfc ∷ byte i ∷ byte (shr i 8) ∷ []); ret (d, pos + 3))
    else if ltb i (2 ^ 24)
    then (do
      d ← write_at data' pos (0xfd ∷ byte i ∷ byte (shr i 8) ∷ byte (shr i 16) ∷ [])
      ret (d, pos + 4))
    else (do
      d ← write_at data' pos (
          0xfe
          ∷ byte i
          ∷ byte (shr i 8)
          ∷ byte (shr i 16)
          ∷ byte (shr i 24)
          ∷ byte (shr i 32)
          ∷ byte (shr i 40)
          ∷ byte (shr i 48)
          ∷ byte (shr i 56)
          ∷ [])
      ret (d, pos + 9))

pub len_null_string : Bytes → ℕ
len_null_string value = length value + 1

pub len_eof_string : Bytes → ℕ
len_eof_string value = length value

pub write_null_string : Bytes → ℕ → Bytes → Go (Bytes × ℕ)
write_null_string data' pos value = do
  (d, n) ← copy_at data' pos value
  d' ← put d (pos + n) 0
  ret (d', pos + n + 1)

pub write_eof_string : Bytes → ℕ → Bytes → Go (Bytes × ℕ)
write_eof_string data' pos value = do (d, n) ← copy_at data' pos value; ret (d, pos + n)

pub write_byte : Bytes → ℕ → ℕ → Go (Bytes × ℕ)
write_byte data' pos value = do d ← put data' pos value; ret (d, pos + 1)

pub write_uint16 : Bytes → ℕ → ℕ → Go (Bytes × ℕ)
write_uint16 data' pos v = do
  d ← write_at data' pos (byte v ∷ byte (shr v 8) ∷ [])
  ret (d, pos + 2)

pub write_uint32 : Bytes → ℕ → ℕ → Go (Bytes × ℕ)
write_uint32 data' pos v = do
  d ← write_at data' pos (byte v ∷ byte (shr v 8) ∷ byte (shr v 16) ∷ byte (shr v 24) ∷ [])
  ret (d, pos + 4)

pub write_uint64 : Bytes → ℕ → ℕ → Go (Bytes × ℕ)
write_uint64 data' pos v = do
  d ← write_at data' pos (
      byte v
      ∷ byte (shr v 8)
      ∷ byte (shr v 16)
      ∷ byte (shr v 24)
      ∷ byte (shr v 32)
      ∷ byte (shr v 40)
      ∷ byte (shr v 48)
      ∷ byte (shr v 56)
      ∷ [])
  ret (d, pos + 8)

pub len_enc_string_size : Bytes → ℕ
len_enc_string_size value = len_enc_int_size (length value) + length value

pub write_len_enc_string : Bytes → ℕ → Bytes → Go (Bytes × ℕ)
write_len_enc_string data' pos value = do
  (d, next) ← write_len_enc_int data' pos (length value)
  write_eof_string d next value

pub write_zeroes : Bytes → ℕ → ℕ → Go (Bytes × ℕ)
write_zeroes data' pos n = do d ← write_at data' pos (replicate n 0); ret (d, pos + n)

-- Decoders. `pos + size - 1 >= len(data)` is `len(data) + 1 <= pos + size` on integers.
pub read_byte : Bytes → ℕ → Read ℕ
read_byte data' pos =
    if leb (length data') pos then ret none else (do b ← at data' pos; ret (some (b, pos + 1)))

-- bytes.IndexByte(data, 0)
pub index_zero : Bytes → Option ℕ
index_zero [] = none
index_zero (b ∷ bs) =
    let rest = index_zero bs in
    if b == 0 then some 0 else elim rest [ none ↦ none | some n ↦ some (suc n) ]

pub read_null_string : Bytes → ℕ → Read Bytes
read_null_string data' pos = do
  tail ← slice data' pos (length data')
  elim (index_zero tail) [
    | none ↦ ret none
    | some end ↦ (do s ← slice data' pos (pos + end); ret (some (s, pos + end + 1)))
  ]

pub read_eof_string : Bytes → ℕ → Read Bytes
read_eof_string data' pos = do
  s ← slice data' pos (length data')
  ret (some (s, length data' - pos))

-- binary.LittleEndian
pub little_endian : Bytes → ℕ
little_endian [] = 0
little_endian (b ∷ bs) = b + 2 ^ 8 * little_endian bs

-- readUint16, readUint32 and readUint64 differ in the width n = 2, 4, 8 alone.
pub read_uint : ℕ → Bytes → ℕ → Read ℕ
read_uint n data' pos =
    if leb (length data') (pos + (n - 1))
    then ret none
    else (do s ← slice data' pos (pos + n); ret (some (little_endian s, pos + n)))

pub read_uint16 : Bytes → ℕ → Read ℕ
read_uint16 = read_uint 2

pub read_uint32 : Bytes → ℕ → Read ℕ
read_uint32 = read_uint 4

pub read_uint64 : Bytes → ℕ → Read ℕ
read_uint64 = read_uint 8

read_two : Bytes → ℕ → Read ℕ
read_two data' pos = if leb (length data') (pos + 2) then ret none else (do
  b1 ← at data' (pos + 1)
  b2 ← at data' (pos + 2)
  ret (some (bit_or b1 (shl64 b2 8), pos + 3)))

read_three : Bytes → ℕ → Read ℕ
read_three data' pos = if leb (length data') (pos + 3) then ret none else (do
  b1 ← at data' (pos + 1)
  b2 ← at data' (pos + 2)
  b3 ← at data' (pos + 3)
  ret (some (bit_or (bit_or b1 (shl64 b2 8)) (shl64 b3 16), pos + 4)))

-- uint64(b1) | uint64(b2)<<8 | … | uint64(b8)<<56
pub join_eight : ℕ → ℕ → ℕ → ℕ → ℕ → ℕ → ℕ → ℕ → ℕ
join_eight b1 b2 b3 b4 b5 b6 b7 b8 =
    let x2 = bit_or b1 (shl64 b2 8) in
    let x3 = bit_or x2 (shl64 b3 16) in
    let x4 = bit_or x3 (shl64 b4 24) in
    let x5 = bit_or x4 (shl64 b5 32) in
    let x6 = bit_or x5 (shl64 b6 40) in let x7 = bit_or x6 (shl64 b7 48) in bit_or x7 (shl64 b8 56)

read_eight : Bytes → ℕ → Read ℕ
read_eight data' pos = if leb (length data') (pos + 8) then ret none else (do
  b1 ← at data' (pos + 1)
  b2 ← at data' (pos + 2)
  b3 ← at data' (pos + 3)
  b4 ← at data' (pos + 4)
  b5 ← at data' (pos + 5)
  b6 ← at data' (pos + 6)
  b7 ← at data' (pos + 7)
  b8 ← at data' (pos + 8)
  ret (some (join_eight b1 b2 b3 b4 b5 b6 b7 b8, pos + 9)))

pub read_len_enc_int : Bytes → ℕ → Read ℕ
read_len_enc_int data' pos = if leb (length data') pos then ret none else (do
  b ← at data' pos
  if b == 0xfc
      then read_two data' pos
      else if b == 0xfd
      then read_three data' pos
      else if b == 0xfe
      then read_eight data' pos
      else ret (some (b, pos + 1)))

-- The 64-bit pattern of `pos + s - 1` and of `pos + s`, where s := int(size) may be negative.
abbrev pub last_index : ℕ → ℕ → ℕ
last_index pos size = (pos + size + (2 ^ 64 - 1)) % 2 ^ 64

abbrev pub stop_index : ℕ → ℕ → ℕ
stop_index pos size = (pos + size) % 2 ^ 64

-- pos+s-1 >= len(data), as signed integers
abbrev pub past_end : Bytes → ℕ → ℕ → Bool
past_end data' pos size =
    let last = last_index pos size in ltb last (2 ^ 63) && leb (length data') last

-- readBytes, with `size` an int as its pattern, and readBytesCopy, whose result has the same bytes: its
-- make panics on a negative size, as the slice does.
pub read_bytes : Bytes → ℕ → ℕ → Read Bytes
read_bytes data' pos size =
    if past_end data' pos size
    then ret none
    else (do s ← slice data' pos (stop_index pos size); ret (some (s, stop_index pos size)))

-- readLenEncString and readLenEncStringAsBytes
pub read_len_enc_string : Bytes → ℕ → Read Bytes
read_len_enc_string data' start = do
  found ← read_len_enc_int data' start
  elim found [
    | none ↦ ret none
    | some (size, pos) ↦
        if past_end data' pos size
        then ret none
        else (do s ← slice data' pos (stop_index pos size); ret (some (s, stop_index pos size)))
  ]

-- skipLenEncString: the next position only
pub skip_len_enc_string : Bytes → ℕ → Go (Option ℕ)
skip_len_enc_string data' start = do
  found ← read_len_enc_int data' start
  elim found [
    | none ↦ ret none
    | some (size, pos) ↦
        if past_end data' pos size then ret none else ret (some (stop_index pos size))
  ]

-- readLenEncStringAsBytesCopy: `make([]byte, size)` panics on a size that is no `int`.
pub read_len_enc_string_copy : Bytes → ℕ → Read Bytes
read_len_enc_string_copy data' start = do
  found ← read_len_enc_int data' start
  elim found [
    | none ↦ ret none
    | some (size, pos) ↦
        if past_end data' pos size
        then ret none
        else if ltb size (2 ^ 63)
        then (do s ← slice data' pos (stop_index pos size); ret (some (s, stop_index pos size)))
        else panic
  ]
