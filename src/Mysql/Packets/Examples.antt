-- ===== src/Mysql/Packets/Examples.antt =====
-- Packets of a few bytes.
use arana.Prelude.{ℕ, ◌+◌, ◌*◌, ◌/◌, ◌%◌, ◌^◌, ◌-◌, ◌≡◌, refl, arith, List, [], ◌∷◌, ◌++◌, length}
use arana.Mysql.Packets.{
  write_packet, write_loop, write_empty, header, read_next, read_one_packet, read_full, done,
  read_packet, read_loop,
}
use arana.Mysql.Packets.RoundTrip.{read_packet-write_packet}
use arana.Mysql.Packets.Sizes.{write_packet-counts}

abbrev payload : List ℕ
payload = 3 ∷ 115 ∷ 101 ∷ 108 ∷ []

read_packet-write_packet_example :
    read_packet 4 255 ((write_packet 255 payload).0 ++ (7 ∷ []))
    ≡ done payload (7 ∷ []) (write_packet 255 payload).1
read_packet-write_packet_example = read_packet-write_packet 4 255 payload (7 ∷ []) (omega arith)

write_packet-counts_example :
    (length (write_packet 255 payload).0 ≡ length payload + 4 * (length payload / (2 ^ 24 - 1) + 1))
    × ((write_packet 255 payload).1 ≡ (255 + length payload / (2 ^ 24 - 1) + 1) % 2 ^ 8)
write_packet-counts_example = write_packet-counts 255 payload

-- With packets of at most 2 bytes: 4 bytes go out as two packets and an empty one, and are read back.
two_and_empty :
    write_loop 5 2 255 payload
    ≡ (2 ∷ 0 ∷ 0 ∷ 255 ∷ 3 ∷ 115 ∷ 2 ∷ 0 ∷ 0 ∷ 0 ∷ 101 ∷ 108 ∷ 0 ∷ 0 ∷ 0 ∷ 1 ∷ [], 2)
unfolding write_loop write_empty header
two_and_empty = refl

read_back : read_loop 5 2 255 (write_loop 5 2 255 payload).0 [] ≡ done payload [] 2
unfolding write_loop write_empty header read_loop read_next read_one_packet read_full
read_back = refl
