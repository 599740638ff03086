-- ===== src/Mysql/Packets.antt =====
-- pkg/mysql/conn.go: payloads in packets of at most MaxPacketSize bytes, each behind a header with
-- its length and its number in the sequence. A connection is the list of the bytes written to it,
-- all of which are taken, and to be read from it, at whose end it is closed; io.ReadFull fails where
-- too few are left.
pub mod Writing
mod Reading
pub mod RoundTrip
pub mod Sizes
mod Examples
use arana.Prelude.{
  ℕ, zero, suc, ◌+◌, ◌-◌, ◌*◌, ◌/◌, ◌%◌, ◌^◌, ◌≡◌, Bool, true, false, List, [], ◌∷◌, ◌++◌, length,
  take, drop, ◌==◌, ltb, if◌then◌else◌,
}

-- mysql.MaxPacketSize
unfoldable pub max_packet_size : ℕ
max_packet_size = 2 ^ 24 - 1

-- c.sequence++ of a uint8
abbrev pub next_sequence : ℕ → ℕ
next_sequence sequence = (sequence + 1) % 2 ^ 8

pub header : ℕ → ℕ → List ℕ
header n sequence = n % 2 ^ 8 ∷ n / 2 ^ 8 % 2 ^ 8 ∷ n / 2 ^ 16 % 2 ^ 8 ∷ sequence ∷ []

-- What has been written, and the sequence after it
abbrev pub behind : List ℕ → List ℕ × ℕ → List ℕ × ℕ
behind bytes (rest, sequence) = (bytes ++ rest, sequence)

-- if packetLength == mysql.MaxPacketSize, behind the last packet
pub write_empty : ℕ → ℕ → ℕ → List ℕ × ℕ
write_empty max n sequence =
    if n == max then (header 0 sequence, next_sequence sequence) else ([], sequence)

-- The loop of writePacket over what is left of the data
pub write_loop : ℕ → ℕ → ℕ → List ℕ → List ℕ × ℕ
write_loop zero max sequence rest = ([], sequence)
write_loop (suc fuel) max sequence rest =
    let n = if ltb max (length rest) then max else length rest in
    let after = write_loop fuel max (next_sequence sequence) (drop n rest) in
    behind (header n sequence ++ take n rest)
      (if length rest - n == 0 then write_empty max n (next_sequence sequence) else after)

-- writePacket, on a connection that is open
pub write_packet : ℕ → List ℕ → List ℕ × ℕ
write_packet sequence payload = write_loop (suc (length payload)) max_packet_size sequence payload

-- The error of a read: io.EOF as it is where the connection ends before a header, and otherwise an
-- error around io.ErrUnexpectedEOF in the header or the body, or around io.EOF in front of the body,
-- with the length of the body; or the error on the sequence number, with the expected and the other.
pub data ReadFault : Type 0 where
  header_eof : ReadFault
  header_short : ReadFault
  invalid_sequence : ℕ → ℕ → ReadFault
  body_eof : ℕ → ReadFault
  body_short : ℕ → ReadFault

-- What a read gives: the bytes, those that are left and the sequence; or why it fails
pub data Read : Type 0 where
  done : List ℕ → List ℕ → ℕ → Read
  failed : ReadFault → Read
  pending : Read

-- The error of io.ReadFull for a body of which too few bytes are there
unfoldable pub body_fault : ℕ → List ℕ → ReadFault
body_fault n [] = body_eof n
body_fault n (b ∷ bytes) = body_short n

-- io.ReadFull of the body
unfoldable pub read_full : ℕ → List ℕ → ℕ → Read
read_full n bytes sequence =
    if ltb (length bytes) n
    then failed (body_fault n bytes)
    else done (take n bytes) (drop n bytes) sequence

-- readHeaderFrom, and the rest of readOnePacket
unfoldable pub read_one_packet : ℕ → List ℕ → Read
read_one_packet sequence (b0 ∷ b1 ∷ b2 ∷ b3 ∷ bytes) =
    if b3 == sequence
    then read_full (b0 + b1 * 2 ^ 8 + b2 * 2 ^ 16) bytes (next_sequence sequence)
    else failed (invalid_sequence sequence b3)
read_one_packet sequence [] = failed header_eof
read_one_packet sequence bytes = failed header_short

-- The loop of readPacket, `so_far` being the data
unfoldable pub read_next : ℕ → (ℕ → List ℕ → List ℕ → Read) → List ℕ → Read → Read
read_next max again so_far (done next bytes sequence) =
    if length next == 0
    then done so_far bytes sequence
    else if ltb (length next) max
    then done (so_far ++ next) bytes sequence
    else again sequence bytes (so_far ++ next)
read_next max again so_far (failed f) = failed f
read_next max again so_far pending = pending

unfoldable pub read_loop : ℕ → ℕ → ℕ → List ℕ → List ℕ → Read
read_loop zero max sequence bytes so_far = pending
read_loop (suc fuel) max sequence bytes so_far =
    read_next max (read_loop fuel max) so_far (read_one_packet sequence bytes)

unfoldable pub read_first : ℕ → (ℕ → List ℕ → List ℕ → Read) → Read → Read
read_first max more (done payload bytes sequence) =
    if ltb (length payload) max then done payload bytes sequence else more sequence bytes payload
read_first max more (failed f) = failed f
read_first max more pending = pending

-- readPacket, with fuel for its loop
unfoldable pub read_packet : ℕ → ℕ → List ℕ → Read
read_packet fuel sequence bytes =
    read_first max_packet_size (read_loop fuel max_packet_size) (read_one_packet sequence bytes)
