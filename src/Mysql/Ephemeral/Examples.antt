-- ===== src/Mysql/Ephemeral/Examples.antt =====
-- Buffers of a connection (pkg/mysql/conn.go): a packet is read into one, and cannot be written
-- before it is recycled.
use arana.Prelude.{ℕ, ◌≡◌, refl, true, none, some, List, [], ◌∷◌}
use arana.Prelude.Go.{ret, panic, ◌>>=◌}
use arana.Mysql.Packets.{read_packet}
use arana.Mysql.Ephemeral.{
  ephemeral_unused, ephemeral_write, ephemeral_read, Ephemeral, start_packet, recycle_read_packet,
  recycle_buffer, put_back, read_ephemeral_packet,
}
use arana.Mysql.Ephemeral.Agreement.{read_ephemeral_packet-agrees}
use arana.Mysql.Ephemeral.Policies.{recycle_read_call, Follows, run_call, run_call-Follows}

abbrev idle : Ephemeral
idle = record { policy = ephemeral_unused; buffer = none; taken = 0 }

abbrev one_read : Ephemeral
one_read = record { policy = ephemeral_read; buffer = some (7 ∷ []); taken = 1 }

abbrev zeros : ℕ → List ℕ
zeros n = 0 ∷ []

read_ephemeral_packet-agrees_example :
    (c' : Ephemeral) × (read_ephemeral_packet 1 0 (1 ∷ 0 ∷ 0 ∷ 0 ∷ 7 ∷ []) idle
      ≡ ret (read_packet 1 0 (1 ∷ 0 ∷ 0 ∷ 0 ∷ 7 ∷ []), c'))
read_ephemeral_packet-agrees_example =
    read_ephemeral_packet-agrees 1 0 (1 ∷ 0 ∷ 0 ∷ 0 ∷ 7 ∷ []) idle refl

run_call-Follows_example :
    Follows recycle_read_call true (run_call zeros recycle_read_call one_read)
run_call-Follows_example = run_call-Follows zeros recycle_read_call one_read refl

-- The next packet can be started only then.
not_recycled : start_packet zeros 1 one_read ≡ panic
unfolding start_packet
not_recycled = refl

recycled :
    (recycle_read_packet one_read >>= λ c. start_packet zeros 1 c)
    ≡ ret (record { policy = ephemeral_write; buffer = some (0 ∷ []); taken = 1 })
unfolding start_packet recycle_read_packet recycle_buffer put_back
recycled = refl
