-- ===== src/Examples/Hub.antt =====
-- The hub's address, the scans for its network, and the account of the filesystem.
use cardiag.Base.{List, [], arith, false, later, refl, true, ◌*◌, ◌+◌, ◌-◌, ◌∷◌, ◌≡◌, ◌≤◌}
use cardiag.HubAddr.{
  HubAddrInputs, hub_addr_select, hub_resolve_reset, hub_resolve_kick, hub_resolve_due,
  hub_resolve_started, backoff_loop, hub_resolve_backoff_ms, hub_resolve_finished,
  mdns_cache_source,
}
use cardiag.HubAddr.Sched.{Timed, on_events, gap, next_query_waits, kick, finished}
use cardiag.ScanSched.{ScanSched, scan_sched_init}
use cardiag.FsUsage.{FsUsage, data_blocks}

-- No answer this time, an earlier one in the cache.
abbrev addresses : HubAddrInputs
addresses = record { mdns = 0; mdns_cache = 3232238090; nvs = 3232238091; gateway = 3232238081 }

cache_before_nvs :
    hub_addr_select addresses ≡ record { ip = 3232238090; source = mdns_cache_source }
unfolding hub_addr_select
cache_before_nvs = refl

fourth_backoff : hub_resolve_backoff_ms 4 2000 60000 ≡ 16000
unfolding hub_resolve_backoff_ms backoff_loop
fourth_backoff = refl

-- A query fails 300 ms after it started, and a kick comes at 400 ms.
abbrev asked : List Timed
asked = (record { event = finished false; ms = 300 }) ∷ (record { event = kick; ms = 400 }) ∷ []

due_again :
    hub_resolve_due
      (on_events 5000 2000 60000 1000 (hub_resolve_started hub_resolve_reset 1000) asked)
      (later 1000 2300)
    ≡ true
unfolding hub_resolve_due on_events hub_resolve_started hub_resolve_kick hub_resolve_finished
    hub_resolve_backoff_ms backoff_loop
due_again = refl

next_query_waits_example : gap 5000 2000 60000 ≤ 2300
next_query_waits_example =
    next_query_waits 5000 2000 60000 1000 hub_resolve_reset asked 2300 (omega arith) (omega arith)
      (omega arith) (omega arith) (omega arith, (omega arith, tt)) (omega arith) due_again

abbrev sched : ScanSched
sched = record {
  fast_ms = 4000;
  slow_ms = 30000;
  slow_after_ms = 120000;
  full_every = 3;
  search_since_ms = 0;
  last_scan_ms = 0;
  scans = 0;
  scanned_once = false;
}

sched_init : scan_sched_init 4000 30000 120000 3 ≡ sched
unfolding scan_sched_init
sched_init = refl

abbrev disk : FsUsage
disk = record {
  block_bytes = 4096;
  inline_max = 64;
  total_bytes = 1000000;
  used_bytes = 500000;
  live = true;
}

grows : data_blocks disk 100 ≤ data_blocks disk 9000
unfolding data_blocks
grows = omega arith

fits : 500000 + (data_blocks disk 9000 - data_blocks disk 100) * 4096 ≤ 1000000
unfolding data_blocks
fits = omega arith
