-- ===== src/Examples/Vectors.antt =====
-- The test vectors of docs/protocol.md.
use cardiag.Base.{List, [], false, refl, take, true, ℕ, ◌∷◌, ◌≡◌, codes}
use cardiag.CredStore.Sha256.{
  block_words, extend, sha_round, sha_rounds, add_words, sha_blocks, big_endian, word_bytes,
  cred_sha256, hex,
}
use cardiag.PollPlan.{PollEntry}
use cardiag.PollPlan.Hash.{poll_plan_hash, decimal_loop, entries_text, poll_plan_canonical}
use cardiag.Bookend.{BookendData, kind_start}
use cardiag.Bookend.Encode.{put_dtcs, put_m06, bookend_encode}

abbrev three_entries : List PollEntry
three_entries =
    record { mode = 1; pid = 5; period_ms = 1000 }
    ∷ record { mode = 1; pid = 12; period_ms = 200 }
    ∷ record { mode = 1; pid = 13; period_ms = 500 }
    ∷ []

canonical_text :
    poll_plan_canonical three_entries 1536
    ≡ codes
        "{\"version\":1,\"entries\":[{\"mode\":1,\"pid\":5,\"period_ms\":1000},{\"mode\":1,\"pid\":12,\"period_ms\":200},{\"mode\":1,\"pid\":13,\"period_ms\":500}]}"
unfolding poll_plan_canonical entries_text decimal_loop
canonical_text = refl

abbrev empty_text : List ℕ
empty_text = codes "{\"version\":1,\"entries\":[]}"

hash_of_empty : hex (take 8 (cred_sha256 empty_text)) ≡ codes "8bcae181d21321b7"
unfolding cred_sha256 sha_blocks block_words extend sha_round sha_rounds add_words big_endian
    word_bytes hex
hash_of_empty = refl

hash_of_plan : poll_plan_hash three_entries ≡ codes "3046906ac3000655"
unfolding poll_plan_hash poll_plan_canonical entries_text decimal_loop cred_sha256 sha_blocks
    block_words extend sha_round sha_rounds add_words big_endian word_bytes hex
hash_of_plan = refl

abbrev bookend : BookendData
bookend = record {
  kind = kind_start;
  complete = true;
  truncated = false;
  no_response = false;
  pid01 = 0x81 ∷ 7 ∷ 0x65 ∷ 0 ∷ [];
  stored = record { ecu = 0; dtc = 0x0133 } ∷ [];
  pending = record { ecu = 0; dtc = 0x0420 } ∷ record { ecu = 1; dtc = 0xC123 } ∷ [];
  m06 =
      record { ecu = 0; mid = 1; tid = 0x80; uasid = 0x0A; value = 0x0123; low = 0; high = 0x0400 }
      ∷ record {
        ecu = 1;
        mid = 0x21;
        tid = 0x87;
        uasid = 0x24;
        value = 0x8000;
        low = 0x10;
        high = 0xFFFF;
      }
      ∷ [];
}

bookend_bytes :
    hex (bookend_encode bookend 0x11223344 7 123456 256)
    ≡ codes
        "03012800443322110700000040e20100010100008107650001003301020020040123c1020001800a2301000000040121872400801000ffff"
unfolding bookend_encode put_dtcs put_m06 hex
bookend_bytes = refl
