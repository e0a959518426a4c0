-- ===== src/HubAddr/Select.antt =====
-- The order of preference between the hub's addresses.
use cardiag.Base.{arith, ltb, ℕ, ◌≡◌, ◌≤◌, if◌then◌else◌}
use cardiag.HubAddr.{
  HubAddrSource, HubAddrInputs, hub_addr_usable, hub_addr_select, none_source, mdns_source,
  mdns_cache_source, nvs_source, gateway_source,
}

-- The address that a source offers.
abbrev pub offered : HubAddrInputs → HubAddrSource → ℕ
offered i mdns_source = i.mdns
offered i mdns_cache_source = i.mdns_cache
offered i nvs_source = i.nvs
offered i gateway_source = i.gateway
offered i none_source = 0

-- The place of a source in the documented order.
abbrev pub rank : HubAddrSource → ℕ
rank mdns_source = 1
rank mdns_cache_source = 2
rank nvs_source = 3
rank gateway_source = 4
rank none_source = 5

-- The address chosen is the one its source offers, every source that offers a usable address comes
-- no earlier in the order, and the choice is none exactly when the address is not usable.
pub hub_addr_select_first :
    (i : HubAddrInputs) (s : HubAddrSource)
    → (hub_addr_select i).ip ≡ offered i (hub_addr_select i).source
      × (rank (hub_addr_select i).source ≤ (if hub_addr_usable (offered i s) then rank s else 5))
      × (hub_addr_usable (hub_addr_select i).ip ≡ ltb (rank (hub_addr_select i).source) 5)
unfolding hub_addr_select
hub_addr_select_first i mdns_source = ground arith
hub_addr_select_first i mdns_cache_source = ground arith
hub_addr_select_first i nvs_source = ground arith
hub_addr_select_first i gateway_source = ground arith
hub_addr_select_first i none_source = ground arith
