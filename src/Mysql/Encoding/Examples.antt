-- ===== src/Mysql/Encoding/Examples.antt =====
-- Packets on which the theorems on pkg/mysql/encoding.go are used.
use arana.Prelude.{◌+◌, ◌-◌, ◌^◌, ◌≡◌, ◌<◌, ◌↔◌, refl, arith, some, [], ◌∷◌, replicate}
use arana.Prelude.Go.{ret, panic}
use arana.Mysql.Encoding.{
  Bytes, at, slice, len_enc_int_size, write_len_enc_int, len_enc_string_size, write_len_enc_string,
  read_len_enc_int, read_eight, join_eight, read_len_enc_string, skip_len_enc_string,
  read_len_enc_string_copy,
}
use arana.Mysql.Encoding.Integers.{SameOutside, read-write_len_enc_int}
use arana.Mysql.Encoding.Fixed.{w32, bytes_of, write_uint, read_uint_at, read-write_uint}
use arana.Mysql.Encoding.Strings.{read-write_len_enc_string}
use arana.Mysql.Encoding.Hostile.{read_len_enc_string-panic_iff, read_len_enc_string_agree}

abbrev room : Bytes
room = replicate 12 7

abbrev word : Bytes
word = 97 ∷ 98 ∷ 99 ∷ []

-- A prefix of 2 ^ 64 - 1, and one of three
abbrev hostile : Bytes
hostile = 0xfe ∷ 255 ∷ 255 ∷ 255 ∷ 255 ∷ 255 ∷ 255 ∷ 255 ∷ 255 ∷ 1 ∷ []

abbrev short : Bytes
short = 3 ∷ 97 ∷ 98 ∷ 99 ∷ []

read_hostile : read_len_enc_int hostile 0 ≡ ret (some (2 ^ 64 - 1, 9))
unfolding read_len_enc_int read_eight join_eight at
read_hostile = refl

read_short : read_len_enc_int short 0 ≡ ret (some (3, 1))
unfolding read_len_enc_int at
read_short = refl

read_word : read_len_enc_string short 0 ≡ ret (some (word, 4))
unfolding read_len_enc_string read_len_enc_int slice at
read_word = refl

read-write_len_enc_string_example :
    (d : Bytes) × (write_len_enc_string room 2 word ≡ ret (d, 2 + len_enc_string_size word))
    × (read_len_enc_string d 2 ≡ ret (some (word, 2 + len_enc_string_size word)))
    × SameOutside room d 2 (len_enc_string_size word)
unfolding len_enc_string_size len_enc_int_size
read-write_len_enc_string_example =
    read-write_len_enc_string room 2 word (ground arith) (ground arith)

read-write_len_enc_int_example :
    (d : Bytes) × (write_len_enc_int room 1 70000 ≡ ret (d, 1 + len_enc_int_size 70000))
    × (read_len_enc_int d 1 ≡ ret (some (70000, 1 + len_enc_int_size 70000)))
    × SameOutside room d 1 (len_enc_int_size 70000)
unfolding len_enc_int_size
read-write_len_enc_int_example = read-write_len_enc_int room 1 70000 (ground arith) (ground arith)

read-write_uint_example :
    (d : Bytes) × (write_uint w32 room 3 123456789 ≡ ret (d, 3 + bytes_of w32))
    × (read_uint_at w32 d 3 ≡ ret (some (123456789, 3 + bytes_of w32)))
    × SameOutside room d 3 (bytes_of w32)
read-write_uint_example = read-write_uint w32 room 3 123456789 (ground arith) (ground arith)

read_len_enc_string-panic_iff_example :
    (read_len_enc_string hostile 0 ≡ panic) ↔ (2 ^ 63 < 9 + (2 ^ 64 - 1))
read_len_enc_string-panic_iff_example =
    read_len_enc_string-panic_iff hostile 0 (2 ^ 64 - 1) 9 (ground arith) (ground arith)
      read_hostile

read_len_enc_string_agree_example :
    (skip_len_enc_string short 0 ≡ ret (some 4))
    × (read_len_enc_string_copy short 0 ≡ ret (some (word, 4)))
read_len_enc_string_agree_example =
    read_len_enc_string_agree short 0 (some (word, 4)) (ground arith)
      (λ size pos e. ground (arith, e, read_short)) read_word
