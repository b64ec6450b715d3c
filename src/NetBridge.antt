-- ===== src/NetBridge.antt =====
-- Network bridges and what pypowervm/tasks/network_bridger.py asks of them on a system whose
-- bridges are driven by their trunk adapters (pypowervm/wrappers/network.py, pypowervm/util.py).
-- A list that the source indexes with 0 is the wrapper's first element and the others.
use pypowervm.Prelude.{
  ℕ, zero, suc, ◌+◌, String, Bool, true, false, not, ◌&&◌, ◌||◌, Option, none, some, List, [], ◌∷◌,
  ◌++◌, map, ◌==◌, text_eq, nat_in, if◌then◌else◌,
}
pub mod Orphans
pub mod Trunks
pub mod Untag
pub mod LoadGroups
pub mod Bridger
pub mod Synch
mod Lists
pub mod NewVid
pub mod OrphanVlans
pub mod Collision
mod Added
mod Placed
pub mod Carried
mod Peers
mod Retried
mod Fewer
mod Taken
pub mod Removed
pub mod Ensured
pub mod Stale
pub mod Vnet
pub mod VnetOps
pub mod Fewest
pub mod Groups
pub mod Uuids
pub mod Reads
mod PeerKeeps
mod After
mod Restarts
mod EachEnds
mod RetriedEnds
pub mod Ends
mod Examples
mod Stored

-- _MAX_VEAS_PER_SEA and _MAX_VLANS_PER_VEA
abbrev pub max_veas_per_sea : ℕ
max_veas_per_sea = 15

abbrev pub max_vlans_per_vea : ℕ
max_vlans_per_vea = 20

-- `rest` stands for what else the element holds: none for one that was only built.
pub record TrunkAdapter : Type 0 where
  pub dev_name : String
  pub pvid : ℕ
  pub tagged_vlans : List ℕ
  pub vswitch_id : ℕ
  pub trunk_pri : ℕ
  pub rest : Option ℕ

-- The primary adapter is the trunk with the PVID of the SEA.
pub record Sea : Type 0 where
  pub primary_adpt : TrunkAdapter
  pub addl_adpts : List TrunkAdapter

-- The PVID and the VLANs of a load group's first trunk adapter.
pub record LoadGroup : Type 0 where
  pub lg_pvid : ℕ
  pub lg_tagged_vlans : List ℕ

-- `load_grps` in the order of the property, the primary one first.
pub record NetBridge : Type 0 where
  pub uuid : String
  pub load_balance : Bool
  pub load_grps : List LoadGroup
  pub first_sea : Sea
  pub more_seas : List Sea

abbrev pub vswitch_id_of : NetBridge → ℕ
vswitch_id_of nb = nb.first_sea.primary_adpt.vswitch_id

abbrev pub pvids : List TrunkAdapter → List ℕ
pvids [] = []
pvids (t ∷ ts) = t.pvid ∷ pvids ts

-- NetBridge.arbitrary_pvids
abbrev pub arbitrary_pvids : NetBridge → List ℕ
arbitrary_pvids nb = pvids nb.first_sea.addl_adpts

unfoldable pub trunk_vlans : Bool → List TrunkAdapter → List ℕ
trunk_vlans arbitrary [] = []
trunk_vlans arbitrary (t ∷ ts) =
    (if arbitrary then t.pvid ∷ [] else []) ++ t.tagged_vlans ++ trunk_vlans arbitrary ts

-- NetBridge.list_vlans
unfoldable pub list_vlans : Bool → Bool → NetBridge → List ℕ
unfolding trunk_vlans
list_vlans pvid arbitrary nb =
    (if pvid then nb.first_sea.primary_adpt.pvid ∷ [] else [])
    ++ nb.first_sea.primary_adpt.tagged_vlans
    ++ trunk_vlans arbitrary nb.first_sea.addl_adpts

-- NetBridge.supports_vlan
unfoldable pub supports_vlan : ℕ → NetBridge → Bool
unfolding list_vlans
supports_vlan vlan nb = nat_in vlan (list_vlans true false nb)

-- `_order_by_pvid` for wrappers of which `pvid_of` tells the PVID.
unfoldable pub order_by_pvid : {A : Type 0} → (A → ℕ) → ℕ → List A → List A → List A
order_by_pvid pvid_of pvid resp_list [] = resp_list
order_by_pvid pvid_of pvid resp_list (a ∷ adapters) =
    order_by_pvid pvid_of pvid (if pvid_of a == pvid then a ∷ resp_list else resp_list ++ a ∷ [])
      adapters

unfoldable pub find_wrapper : String → List NetBridge → Option NetBridge
find_wrapper needle_uuid [] = none
find_wrapper needle_uuid (nb ∷ nbs) =
    let rest = find_wrapper needle_uuid nbs in if text_eq nb.uuid needle_uuid then some nb else rest

-- The wrapper found for its UUID has changed.
unfoldable pub put_wrapper : NetBridge → List NetBridge → List NetBridge
put_wrapper nb [] = []
put_wrapper nb (w ∷ ws) =
    let rest = put_wrapper nb ws in if text_eq w.uuid nb.uuid then nb ∷ ws else w ∷ rest

-- `_find_peer_nbs`
unfoldable pub find_peer_nbs : List NetBridge → NetBridge → Bool → List NetBridge
find_peer_nbs [] nb include_self = []
find_peer_nbs (w ∷ ws) nb include_self =
    let rest = find_peer_nbs ws nb include_self in
    if text_eq nb.uuid w.uuid && not include_self
    then rest
    else if vswitch_id_of w == vswitch_id_of nb
    then w ∷ rest
    else rest

-- `_is_arbitrary_vid`, as a truth value
unfoldable pub is_arbitrary_vid : ℕ → List NetBridge → Bool
is_arbitrary_vid vlan [] = false
is_arbitrary_vid vlan (nb ∷ nbs) = nat_in vlan (arbitrary_pvids nb) || is_arbitrary_vid vlan nbs

unfoldable pub all_vlans : List NetBridge → List ℕ
unfolding list_vlans
all_vlans [] = []
all_vlans (nb ∷ nbs) = list_vlans true true nb ++ all_vlans nbs

-- The greatest of 2, .., n + 1 that is not in the list.
unfoldable pub walk_down : ℕ → List ℕ → Option ℕ
walk_down zero used = none
walk_down (suc n) used = elim (nat_in (n + 2) used) [
  | true ↦ walk_down n used
  | false ↦ some (n + 2)
]

-- `_find_new_arbitrary_vid`
unfoldable pub find_new_arbitrary_vid : List NetBridge → List ℕ → Option ℕ
unfolding walk_down all_vlans
find_new_arbitrary_vid all_nbs others = walk_down 4093 (all_vlans all_nbs ++ others)
