-- ===== src/Mysql/Packets/RoundTrip.antt =====
-- readPacket of pkg/mysql/conn.go reads what writePacket has written.
use arana.Prelude.{ℕ, suc, ◌^◌, ◌≤◌, ◌<◌, ◌≡◌, refl, ◌∙◌, arith, List, [], ◌∷◌, ◌++◌, length}
use arana.Mysql.Packets.{
  max_packet_size, write_packet, Read, done, failed, pending, read_one_packet, read_next, read_loop,
  read_first, read_packet,
}
use arana.Mysql.Packets.Writing.{ltb-true, ==_false_above}
use arana.Mysql.Packets.Reading.{read_loop-write_loop}

pub max_packet_size-positive : 0 < max_packet_size
unfolding max_packet_size
max_packet_size-positive = omega arith

max_packet_size-small : max_packet_size < 2 ^ 24
unfolding max_packet_size
max_packet_size-small = omega arith

read_first-next :
    (max : ℕ) (again : ℕ → List ℕ → List ℕ → Read) (r : Read)
    → 0 < max
    → read_first max again r ≡ read_next max again [] r
unfolding read_first read_next
read_first-next max again (done [] rest sequence) h = rw (ltb-true 0 max h) refl
read_first-next max again (done (x ∷ l) rest sequence) h =
    rw (==_false_above (length (x ∷ l)) 0 (omega arith)) refl
read_first-next max again (failed f) h = refl
read_first-next max again pending h = refl

read_packet-loop :
    (fuel sequence : ℕ) (bytes : List ℕ)
    → read_packet fuel sequence bytes ≡ read_loop (suc fuel) max_packet_size sequence bytes []
unfolding read_packet read_loop
read_packet-loop fuel sequence bytes =
    read_first-next max_packet_size (read_loop fuel max_packet_size)
      (read_one_packet sequence bytes) max_packet_size-positive

-- Whatever payload writePacket sends, of the largest packet size and above too, readPacket of a
-- connection with the same sequence number reads, leaves the bytes behind it, and has then the
-- sequence number of the writer; its loop ends by then (the fuel is at least the payload's length).
pub read_packet-write_packet :
    (fuel sequence : ℕ) (payload rest : List ℕ)
    → length payload ≤ fuel
    → read_packet fuel sequence ((write_packet sequence payload).0 ++ rest)
      ≡ done payload rest (write_packet sequence payload).1
unfolding read_packet write_packet
read_packet-write_packet fuel sequence payload rest enough =
    read_packet-loop fuel sequence ((write_packet sequence payload).0 ++ rest)
    ∙ read_loop-write_loop max_packet_size max_packet_size-positive max_packet_size-small (suc fuel)
        (suc (length payload)) payload [] rest sequence (omega (arith, enough)) (omega arith)
