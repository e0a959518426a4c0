-- ===== src/Examples/Datagrams.antt =====
-- A snapshot of 65 rows, split into two datagrams.
use cardiag.Base.{Bool, List, [], arith, false, length, refl, replicate, true, ℕ, ◌+◌, ◌∷◌, ◌≡◌}
use cardiag.HubProto.Chunk.{
  SnifferRow, Packet, Stamp, make_packet, chunk_loop, chunk_rows, Sends, chunk_rows-Sends,
}

-- A transport that takes every packet and counts their records.
abbrev accept : ℕ → Packet → Bool × ℕ
accept n p = (true, n + length p.records)

abbrev stamp : Stamp
stamp = record { device_id = 11; boot_id = 3; uptime_ms = 90000; flags = 1 }

abbrev row : SnifferRow
row = record {
  id = 0x7e8;
  last_ms = 89000;
  changed_at_ms = 80000;
  data_ = 3 ∷ 65 ∷ 12 ∷ 0 ∷ 0 ∷ 0 ∷ 0 ∷ 0 ∷ [];
  dlc = 3;
  changed_mask = 4;
  ext = false;
}

abbrev snapshot : List SnifferRow
snapshot = replicate 65 row

splits_in_two :
    chunk_rows accept stamp 1312 snapshot 7 0
    ≡ (record { packets = 2; records = 65; aborted = false }, 9, 65)
unfolding chunk_rows chunk_loop make_packet
splits_in_two = refl

chunk_rows-Sends_example :
    let (r, seq', c') = chunk_rows accept stamp 1312 snapshot 7 0 in
    Sends accept stamp snapshot 7 0 seq' c' r.packets r.records r.aborted
chunk_rows-Sends_example =
    chunk_rows-Sends accept stamp 1312 snapshot 7 0 (omega arith) (omega arith)

abbrev answer : List ℕ
answer = replicate 12 9
