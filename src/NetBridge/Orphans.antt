-- ===== src/NetBridge/Orphans.antt =====
-- The trunk adapters of Virtual I/O Servers that are part of no Shared Ethernet Adapter, and their
-- VLANs per virtual switch (pypowervm/tasks/network_bridger.py, pypowervm/wrappers/network.py).
use pypowervm.Prelude.{
  ℕ, String, Bool, false, ◌||◌, Option, none, some, List, [], ◌∷◌, ◌++◌, text_eq, nat_in, is_in,
  if◌then◌else◌,
}
use pypowervm.Prelude.Keyed.{nat_key, text_key, get, put}
use pypowervm.NetBridge.{TrunkAdapter}

-- A Shared Ethernet Adapter as its Virtual I/O Server lists it.
pub record ViosSea : Type 0 where
  pub control_channel : Option String
  pub primary : Option TrunkAdapter
  pub additional : List TrunkAdapter

pub record NetVios : Type 0 where
  pub name : String
  pub vios_seas : List ViosSea
  pub trunk_adapters : List TrunkAdapter

abbrev pub dev_names : List TrunkAdapter → List String
dev_names [] = []
dev_names (t ∷ ts) = t.dev_name ∷ dev_names ts

abbrev is_text : String → Option String → Bool
is_text s none = false
is_text s (some t) = text_eq t s

abbrev is_dev : String → Option TrunkAdapter → Bool
is_dev s none = false
is_dev s (some t) = text_eq t.dev_name s

-- SEA.contains_device
unfoldable pub contains_device : String → ViosSea → Bool
unfolding is_in
contains_device dev_name sea =
    is_text dev_name sea.control_channel
    || is_dev dev_name sea.primary
    || is_in dev_name (dev_names sea.additional)

unfoldable pub is_contained : String → List ViosSea → Bool
unfolding contains_device
is_contained dev_name [] = false
is_contained dev_name (sea ∷ seas) = contains_device dev_name sea || is_contained dev_name seas

unfoldable pub orphan_trunks : List ViosSea → List TrunkAdapter → List TrunkAdapter
unfolding is_contained
orphan_trunks seas [] = []
orphan_trunks seas (t ∷ ts) =
    let rest = orphan_trunks seas ts in if is_contained t.dev_name seas then rest else t ∷ rest

-- From device names to VLANs, and from names of servers to that.
abbrev pub Devices : Type 0
Devices = List (String × List ℕ)

abbrev pub Servers : Type 0
Servers = List (String × Devices)

abbrev pub OrphanMap : Type 0
OrphanMap = List (ℕ × Servers)

abbrev pub or_empty {ℓ} : {A : Type ℓ} → Option (List A) → List A
or_empty none = []
or_empty (some xs) = xs

-- `_put_orphan_in_map`
unfoldable pub put_orphan_in_map : OrphanMap → String → ℕ → String → List ℕ → OrphanMap
unfolding get put
put_orphan_in_map orphan_map vios_name vswitch_id dev_name vlan_ids =
    let servers = or_empty (get vswitch_id orphan_map) in
    let vio_part = or_empty (get vios_name servers) in
    put vswitch_id
      (put vios_name (put dev_name (or_empty (get dev_name vio_part) ++ vlan_ids) vio_part) servers)
      orphan_map

unfoldable pub put_orphans : String → OrphanMap → List TrunkAdapter → OrphanMap
unfolding put_orphan_in_map
put_orphans vios_name orphan_map [] = orphan_map
put_orphans vios_name orphan_map (t ∷ ts) =
    put_orphans vios_name
      (put_orphan_in_map orphan_map vios_name t.vswitch_id t.dev_name (t.pvid ∷ t.tagged_vlans)) ts

-- `_build_orphan_map`, from the Virtual I/O Servers read and the map so far
unfoldable pub build_orphan_map : OrphanMap → List NetVios → OrphanMap
unfolding orphan_trunks put_orphans
build_orphan_map orphan_map [] = orphan_map
build_orphan_map orphan_map (v ∷ vs) =
    build_orphan_map (put_orphans v.name orphan_map (orphan_trunks v.vios_seas v.trunk_adapters)) vs

abbrev pub device_vlans : Devices → List ℕ
device_vlans [] = []
device_vlans ((d, vlans) ∷ ds) = vlans ++ device_vlans ds

abbrev pub server_vlans : Servers → List ℕ
server_vlans [] = []
server_vlans ((n, ds) ∷ ss) = device_vlans ds ++ server_vlans ss

-- `_get_orphan_vlans` on a map that is built. The source's set has each VLAN once.
unfoldable pub orphan_vlans : OrphanMap → ℕ → List ℕ
unfolding get
orphan_vlans orphan_map vswitch_id = server_vlans (or_empty (get vswitch_id orphan_map))

abbrev pub colliding_device : ℕ → Devices → Option String
colliding_device vlan [] = none
colliding_device vlan ((d, vlans) ∷ ds) =
    let rest = colliding_device vlan ds in if nat_in vlan vlans then some d else rest

-- The names of the server and of the device with the VLAN, as the exception reports them.
abbrev pub colliding : ℕ → Servers → Option (String × String)
colliding vlan [] = none
colliding vlan ((n, ds) ∷ ss) = elim (colliding_device vlan ds) [
  | none ↦ colliding vlan ss
  | some d ↦ some (n, d)
]
