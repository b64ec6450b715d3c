-- ===== src/NetBridge/Vnet.antt =====
-- NetworkBridgerVNET of pypowervm/tasks/network_bridger.py: network bridges that are driven by their
-- load groups and the virtual networks of these, on a system that is aware of virtual networks.
use pypowervm.Prelude.{
  ℕ, suc, String, Bool, true, false, ◌&&◌, Option, none, some, List, [], ◌∷◌, ◌++◌, ◌==◌, nat_in,
  text_eq, if◌then◌else◌,
}
use pypowervm.Exec.{Exec, Result, ok, err}
use pypowervm.Retry.{Exn}
use pypowervm.NetBridge.{TrunkAdapter}
use pypowervm.NetBridge.Trunks.{PyError, attribute_error, value_error}
use pypowervm.NetBridge.Untag.{remove_vlan, same_trunk}
use pypowervm.NetBridge.LoadGroups.{Uris, VNet}
use pypowervm.NetBridge.Bridger.{BridgeError}

-- A load group with its first trunk adapter: none for a group that was only built.
pub record Group : Type 0 where
  pub group_pvid : ℕ
  pub trunk : Option TrunkAdapter
  pub uris : Uris

-- `load_grps` in the order of the property, the primary one first.
pub record VnetBridge : Type 0 where
  pub uuid : String
  pub bridge_pvid : ℕ
  pub balanced : Bool
  pub switch_id : ℕ
  pub all_groups : List Group

pub record Switch : Type 0 where
  pub id : ℕ
  pub name : String
  pub related_href : String

pub record VnetHost (S : Type 0) : Type 0 where
  -- VSwitch.search, VNet.get, VNet.get_by_href, VNet.bld with its create, delete_by_href and update
  pub search_vswitch : ℕ → Exec S (Exn BridgeError) Switch
  pub get_vnets : Exec S (Exn BridgeError) (List VNet)
  pub get_vnet : String → Exec S (Exn BridgeError) VNet
  pub create_vnet : String → ℕ → String → Bool → Exec S (Exn BridgeError) VNet
  pub delete_by_href : String → Exec S (Exn BridgeError) (Unit {0})
  pub update : VnetBridge → Exec S (Exn BridgeError) VnetBridge
  -- `_get_orphan_vlans`
  pub get_orphan_vlans : ℕ → Exec S (Exn BridgeError) (List ℕ)

abbrev pub lists : Option (List ℕ) → Option (List ℕ) → Option (List ℕ)
lists none ys = none
lists (some xs) none = none
lists (some xs) (some ys) = some (xs ++ ys)

abbrev pub trunk_list_of : Bool → Option TrunkAdapter → Option (List ℕ)
trunk_list_of arbitrary none = none
trunk_list_of arbitrary (some t) = some ((if arbitrary then t.pvid ∷ [] else []) ++ t.tagged_vlans)

-- The loop over the load groups: none where a group has no trunk adapters, an AttributeError.
unfoldable pub group_vlans : Bool → List Group → Option (List ℕ)
group_vlans arbitrary [] = some []
group_vlans arbitrary (g ∷ gs) = lists (trunk_list_of arbitrary g.trunk) (group_vlans arbitrary gs)

abbrev pub with_pvid : Bool → Bool → ℕ → Option (List ℕ) → Result PyError (List ℕ)
with_pvid pvid arbitrary bridge_pvid none = err attribute_error
with_pvid true true bridge_pvid (some resp) = ok resp
with_pvid true false bridge_pvid (some resp) = ok (resp ++ bridge_pvid ∷ [])
with_pvid false false bridge_pvid (some resp) = ok resp
with_pvid false true bridge_pvid (some resp) = elim (remove_vlan bridge_pvid resp) [
  | none ↦ err value_error
  | some vs ↦ ok vs
]

-- NetBridge.list_vlans where the system is aware of virtual networks
unfoldable pub list_group_vlans : Bool → Bool → VnetBridge → Result PyError (List ℕ)
unfolding group_vlans remove_vlan
list_group_vlans pvid arbitrary nb =
    with_pvid pvid arbitrary nb.bridge_pvid (group_vlans arbitrary nb.all_groups)

-- Of NetBridge.arbitrary_pvids
abbrev pub rest_of : List Group → List Group
rest_of [] = []
rest_of (g ∷ gs) = gs

abbrev pub group_uris : List Group → List Uris
group_uris [] = []
group_uris (g ∷ gs) = g.uris ∷ group_uris gs

abbrev pub add_uri : String → Group → Group
add_uri uri g = record g { uris = g.uris ++ uri ∷ [] }

-- The change of a group after the first.
abbrev pub on_rest : (List Group → List Group) → List Group → List Group
on_rest f [] = []
on_rest f (g ∷ gs) = g ∷ f gs

abbrev pub built_group : ℕ → Uris → Group
built_group pvid uris = record { group_pvid = pvid; trunk = none; uris = uris }

abbrev pub with_groups : (List Group → List Group) → VnetBridge → VnetBridge
with_groups f nb = record nb { all_groups = f nb.all_groups }

-- The first group after the primary one with the VLAN, by its position among all.
unfoldable pub group_with : ℕ → ℕ → List Group → Result PyError (ℕ × Group)
group_with vlan i [] = err attribute_error
group_with vlan i (g ∷ gs) =
    let rest = group_with vlan (suc i) gs in
    elim g.trunk [
      | none ↦ err attribute_error
      | some t ↦ (if nat_in vlan t.tagged_vlans then ok (i, g) else rest)
    ]

abbrev pub tagged_of : Option TrunkAdapter → List ℕ
tagged_of none = []
tagged_of (some t) = t.tagged_vlans

abbrev pub same_uris : Uris → Uris → Bool
same_uris [] [] = true
same_uris [] (y ∷ ys) = false
same_uris (x ∷ xs) [] = false
same_uris (x ∷ xs) (y ∷ ys) = text_eq x y && same_uris xs ys

abbrev pub same_trunks : Option TrunkAdapter → Option TrunkAdapter → Bool
unfolding same_trunk
same_trunks none none = true
same_trunks none (some u) = false
same_trunks (some t) none = false
same_trunks (some t) (some u) = same_trunk t u

-- load_grps.remove: the first group whose element holds the same
unfoldable pub drop_group : Group → List Group → List Group
drop_group g [] = []
drop_group g (h ∷ hs) =
    let rest = drop_group g hs in
    if (h.group_pvid == g.group_pvid) && same_trunks h.trunk g.trunk && same_uris h.uris g.uris
    then hs
    else h ∷ rest

-- list.remove of a link, where None is in no list
unfoldable pub remove_uri : Option String → Uris → Option Uris
remove_uri uri [] = none
remove_uri none (u ∷ us) = none
remove_uri (some uri) (u ∷ us) =
    let rest = remove_uri (some uri) us in
    if text_eq u uri then some us else elim rest [ none ↦ none | some vs ↦ some (u ∷ vs) ]

abbrev pub set_uris : Uris → Group → Group
set_uris uris g = record g { uris = uris }
