-- ===== src/Mysql/Ephemeral.antt =====
-- pkg/mysql/conn.go: the buffer that a connection takes from bufPool for one packet, with the
-- policy that says who has to give it back. bufPool.Get is a parameter: the bytes of the buffer that
-- it gives for a length.
use arana.Prelude.{
  ℕ, suc, ◌+◌, ◌-◌, ◌*◌, ◌^◌, ◌≡◌, Bool, true, false, Option, none, some, List, [], ◌∷◌, ◌==◌, ltb,
  if◌then◌else◌,
}
use arana.Prelude.Go.{Go, ret, panic}
use arana.Mysql.Packets.{
  Read, done, failed, header_eof, header_short, invalid_sequence, pending, next_sequence,
  max_packet_size, write_packet, read_full, read_loop,
}
mod Policies
mod Agreement
mod Examples

pub data Policy : Type 0 where
  ephemeral_unused : Policy
  ephemeral_write : Policy
  ephemeral_read : Policy

-- The buffer, and how many buffers of bufPool the connection has
pub record Ephemeral : Type 0 where
  pub policy : Policy
  pub buffer : Option (List ℕ)
  pub taken : ℕ

-- startEphemeralPacket
unfoldable pub start_packet : (ℕ → List ℕ) → ℕ → Ephemeral → Go Ephemeral
start_packet get n c = elim c.policy [
  | ephemeral_unused ↦
      ret (record { policy = ephemeral_write; buffer = some (get n); taken = suc c.taken })
  | ephemeral_write ↦ panic
  | ephemeral_read ↦ panic
]

-- The connection without its buffer
unfoldable pub put_back : Ephemeral → Ephemeral
put_back c = record { policy = ephemeral_unused; buffer = none; taken = c.taken - 1 }

-- recycleWritePacket
unfoldable pub recycle_write_packet : Ephemeral → Go Ephemeral
recycle_write_packet c = elim c.policy [
  | ephemeral_unused ↦ panic
  | ephemeral_write ↦ ret (put_back c)
  | ephemeral_read ↦ panic
]

-- writePacket of the buffer, and the deferred recycleWritePacket
unfoldable pub write_buffer : ℕ → Ephemeral → Option (List ℕ) → Go ((List ℕ × ℕ) × Ephemeral)
write_buffer sequence c none = panic
write_buffer sequence c (some data') = ret (write_packet sequence data', put_back c)

-- writeEphemeralPacket
unfoldable pub write_ephemeral_packet : ℕ → Ephemeral → Go ((List ℕ × ℕ) × Ephemeral)
write_ephemeral_packet sequence c = elim c.policy [
  | ephemeral_unused ↦ panic
  | ephemeral_write ↦ write_buffer sequence c c.buffer
  | ephemeral_read ↦ panic
]

-- recycleReadPacket, which leaves bufPool alone where there is no buffer
unfoldable pub recycle_buffer : Ephemeral → Option (List ℕ) → Ephemeral
recycle_buffer c none = record c { policy = ephemeral_unused }
recycle_buffer c (some data') = put_back c

unfoldable pub recycle_read_packet : Ephemeral → Go Ephemeral
recycle_read_packet c = elim c.policy [
  | ephemeral_unused ↦ panic
  | ephemeral_write ↦ panic
  | ephemeral_read ↦ ret (recycle_buffer c c.buffer)
]

-- The body of a packet below the largest size: the buffer is given back where it cannot be filled.
unfoldable pub fill_buffer : Ephemeral → Read → Read × Ephemeral
fill_buffer c (done data' bytes sequence) = (
  done data' bytes sequence,
  record { policy = ephemeral_read; buffer = some data'; taken = suc c.taken },
)
fill_buffer c (failed f) =
    (failed f, record { policy = ephemeral_unused; buffer = none; taken = suc c.taken - 1 })
fill_buffer c pending = (pending, c)

-- The slow path: the body, and the loop over the packets behind it
unfoldable pub append_more : (ℕ → List ℕ → List ℕ → Read) → Read → Read
append_more more (done data' bytes sequence) = more sequence bytes data'
append_more more (failed f) = failed f
append_more more pending = pending

-- readEphemeralPacket behind its header
unfoldable pub read_body : ℕ → ℕ → Ephemeral → ℕ → List ℕ → ℕ → Read × Ephemeral
read_body fuel max c n bytes sequence =
    if n == 0
    then (done [] bytes sequence, record c { policy = ephemeral_read })
    else if ltb n max
    then fill_buffer c (read_full n bytes sequence)
    else (
      append_more (read_loop fuel max) (read_full n bytes sequence),
      record c { policy = ephemeral_read },
    )

-- readHeaderFrom, and then the body
unfoldable pub read_packet_into : ℕ → ℕ → Ephemeral → ℕ → List ℕ → Read × Ephemeral
read_packet_into fuel max c sequence (b0 ∷ b1 ∷ b2 ∷ b3 ∷ bytes) =
    if b3 == sequence
    then read_body fuel max c (b0 + b1 * 2 ^ 8 + b2 * 2 ^ 16) bytes (next_sequence sequence)
    else (failed (invalid_sequence sequence b3), c)
read_packet_into fuel max c sequence [] = (failed header_eof, c)
read_packet_into fuel max c sequence bytes = (failed header_short, c)

-- readEphemeralPacket
unfoldable pub read_ephemeral_packet : ℕ → ℕ → List ℕ → Ephemeral → Go (Read × Ephemeral)
read_ephemeral_packet fuel sequence bytes c = elim c.policy [
  | ephemeral_unused ↦ ret (read_packet_into fuel max_packet_size c sequence bytes)
  | ephemeral_write ↦ panic
  | ephemeral_read ↦ panic
]
