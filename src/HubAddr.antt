-- ===== src/HubAddr.antt =====
-- firmware/include/hubaddr.h: which address is the hub's, and when to ask for it again.
pub mod Select
pub mod Sched
use cardiag.Base.{
  Bool, false, if◌then◌else◌, le_i32, lt_i32, ltb, nonneg32, not, pos32, sub32, suc, true, u32, u8,
  zero, ℕ, ◌%◌, ◌&&◌, ◌*◌, ◌+◌, ◌-◌, ◌==◌, ◌^◌, ◌||◌,
}

-- `enum HubAddrSource`
pub data HubAddrSource : Type 0 where
  none_source mdns_source mdns_cache_source nvs_source gateway_source : HubAddrSource

-- `struct HubAddrInputs`
pub record HubAddrInputs : Type 0 where
  pub mdns : ℕ
  pub mdns_cache : ℕ
  pub nvs : ℕ
  pub gateway : ℕ

-- `struct HubAddrChoice`
pub record HubAddrChoice : Type 0 where
  pub ip : ℕ
  pub source : HubAddrSource

abbrev pub hub_addr_usable : ℕ → Bool
hub_addr_usable ip = not (ip == 0) && not (ip == 0xFFFFFFFF)

unfoldable pub hub_addr_select : HubAddrInputs → HubAddrChoice
hub_addr_select i =
    if hub_addr_usable i.mdns
    then record { ip = i.mdns; source = mdns_source }
    else if hub_addr_usable i.mdns_cache
    then record { ip = i.mdns_cache; source = mdns_cache_source }
    else if hub_addr_usable i.nvs
    then record { ip = i.nvs; source = nvs_source }
    else if hub_addr_usable i.gateway
    then record { ip = i.gateway; source = gateway_source }
    else record { ip = 0; source = none_source }

-- `struct HubResolveSched`
pub record HubResolveSched : Type 0 where
  pub armed : Bool
  pub inflight : Bool
  pub next_ms : ℕ
  pub last_start_ms : ℕ
  pub ever_started : Bool
  pub fails : ℕ

-- `hubResolveReset`
abbrev pub hub_resolve_reset : HubResolveSched
hub_resolve_reset = record {
  armed = false;
  inflight = false;
  next_ms = 0;
  last_start_ms = 0;
  ever_started = false;
  fails = 0;
}

-- The time that `hubResolveKick` asks for.
abbrev pub kick_at : HubResolveSched → ℕ → ℕ → ℕ
kick_at s now min_gap =
    if s.ever_started && lt_i32 (sub32 now s.last_start_ms) min_gap
    then u32 (s.last_start_ms + min_gap)
    else now

unfoldable pub hub_resolve_kick : HubResolveSched → ℕ → ℕ → HubResolveSched
hub_resolve_kick s now min_gap =
    let at = kick_at s now min_gap in
    if s.inflight || (s.armed && ltb 0 s.fails)
    then s
    else if not s.armed || not (nonneg32 (sub32 at s.next_ms))
    then record s { armed = true; next_ms = at }
    else record s { armed = true }

unfoldable pub hub_resolve_due : HubResolveSched → ℕ → Bool
hub_resolve_due s now = s.armed && (not s.inflight && nonneg32 (sub32 now s.next_ms))

unfoldable pub hub_resolve_started : HubResolveSched → ℕ → HubResolveSched
hub_resolve_started s now = record s {
  inflight = true;
  armed = false;
  last_start_ms = now;
  ever_started = true;
}

-- The loop of `hubResolveBackoffMs` on a uint64_t, with `n` rounds left: k counts from 1 to `fails`.
unfoldable pub backoff_loop : ℕ → ℕ → ℕ → ℕ
backoff_loop zero max_ms b = b
backoff_loop (suc n) max_ms b =
    let rest = backoff_loop n max_ms (b * 2 % 2 ^ 64) in if ltb b max_ms then rest else b

unfoldable pub hub_resolve_backoff_ms : ℕ → ℕ → ℕ → ℕ
unfolding backoff_loop
hub_resolve_backoff_ms fails base_ms max_ms =
    let b = backoff_loop (fails - 1) max_ms base_ms in if ltb max_ms b then max_ms else u32 b

unfoldable pub hub_resolve_finished : HubResolveSched → ℕ → Bool → ℕ → ℕ → HubResolveSched
unfolding hub_resolve_backoff_ms
hub_resolve_finished s now ok base_ms max_ms =
    let fails = if ltb s.fails 16 then u8 (s.fails + 1) else s.fails in
    if ok then record s { inflight = false; fails = 0; armed = false } else record s {
      inflight = false;
      fails = fails;
      armed = true;
      next_ms = u32 (now + hub_resolve_backoff_ms fails base_ms max_ms);
    }

unfoldable pub hub_silent : ℕ → ℕ → ℕ → ℕ → Bool
hub_silent now last_seen_ms link_up_ms silent_ms =
    let since = if pos32 (sub32 last_seen_ms link_up_ms) then last_seen_ms else link_up_ms in
    le_i32 silent_ms (sub32 now since)
