-- ===== src/Mysql/Packets/Sizes.antt =====
-- How many bytes writePacket of pkg/mysql/conn.go sends, and in how many packets.
use arana.Prelude.{
  ℕ, zero, suc, ◌+◌, ◌-◌, ◌*◌, ◌/◌, ◌%◌, ◌^◌, ◌≤◌, ◌<◌, ◌≡◌, inl, inr, refl, arith, List, ◌++◌,
  length, take, drop, ltb, Bool-cases, length-append, length-drop,
}
use arana.Mysql.Packets.{max_packet_size, next_sequence, header, write_loop, write_packet}
use arana.Mysql.Packets.Writing.{length-take, write_loop-last, write_loop-full}
use arana.Mysql.Packets.RoundTrip.{max_packet_size-positive}

counts_last :
    (max : ℕ) (positive : 0 < max) (w sequence : ℕ) (l : List ℕ)
    → length l < max
    → (k : ℕ) × (k * max ≤ length l)
      × (length l < k * max + max)
      × (length (write_loop (suc w) max sequence l).0 ≡ length l + 4 * suc k)
      × ((write_loop (suc w) max sequence l).1 ≡ (sequence + suc k) % 2 ^ 8)
unfolding header
counts_last max positive w sequence l h = (
  0,
  omega arith,
  omega (arith, h),
  rw (write_loop-last max positive w sequence l h) (omega arith),
  rw (write_loop-last max positive w sequence l h) refl,
)

write_loop-counts :
    (max : ℕ) (positive : 0 < max) (w sequence : ℕ) (l : List ℕ)
    → length l < w
    → (k : ℕ) × (k * max ≤ length l)
      × (length l < k * max + max)
      × (length (write_loop w max sequence l).0 ≡ length l + 4 * suc k)
      × ((write_loop w max sequence l).1 ≡ (sequence + suc k) % 2 ^ 8)
unfolding header
write_loop-counts max positive zero sequence l room = absurd (omega (arith, room))
write_loop-counts max positive (suc zero) sequence l room =
    counts_last max positive zero sequence l (omega (arith, room, positive))
write_loop-counts max positive (suc (suc w)) sequence l room =
    elim (Bool-cases (ltb (length l) max)) [
      | inl less ↦ counts_last max positive (suc w) sequence l (ground (arith, less))
      | inr full ↦
          let h : max ≤ length l = ground (arith, full) in
          let m = drop max l in
          let left_over = length-drop max l in
          let (k, low, high, bytes, last) =
            write_loop-counts max positive (suc w) (next_sequence sequence) m
              (omega (arith, room, left_over, h, positive)) in
          let W = write_loop (suc w) max (next_sequence sequence) m in
          let first = header max sequence ++ take max l in
          let all : length (first ++ W.0) ≡ length l + 4 * suc (suc k) = omega (
            arith,
            length-append first W.0,
            length-append (header max sequence) (take max l),
            length-take max l h,
            left_over,
            bytes,
            h,
          ) in
          (
            suc k,
            omega (arith, low, left_over, h),
            omega (arith, high, left_over, h),
            rw (write_loop-full max positive w sequence l h) all,
            rw (write_loop-full max positive w sequence l h) (omega (arith, last)),
          )
    ]

count_of_packets :
    (k n : ℕ)
    → k * max_packet_size ≤ n
    → n < k * max_packet_size + max_packet_size
    → k ≡ n / (2 ^ 24 - 1)
unfolding max_packet_size
count_of_packets k n low high = omega (arith, low, high)

-- What writePacket sends: the payload and 4 bytes for each of its packets, of which there are
-- one more than the payload has room for whole packets of the largest size; the sequence number
-- goes on by their number, as a byte.
pub write_packet-counts :
    (sequence : ℕ) (payload : List ℕ)
    → (length (write_packet sequence payload).0
        ≡ length payload + 4 * (length payload / (2 ^ 24 - 1) + 1))
      × ((write_packet sequence payload).1 ≡ (sequence + length payload / (2 ^ 24 - 1) + 1) % 2 ^ 8)
unfolding write_packet
write_packet-counts sequence payload =
    let (k, low, high, bytes, last) =
      write_loop-counts max_packet_size max_packet_size-positive (suc (length payload)) sequence
        payload (omega arith) in
    let q : k ≡ length payload / (2 ^ 24 - 1) = count_of_packets k (length payload) low high in
    (omega (arith, bytes, q), omega (arith, last, q))
