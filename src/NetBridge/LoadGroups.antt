-- ===== src/NetBridge/LoadGroups.antt =====
-- NetworkBridgerVNET of pypowervm/tasks/network_bridger.py: the choice of a load group and of a
-- virtual network.
use pypowervm.Prelude.{
  ℕ, suc, ◌%◌, String, ◌<>◌, Bool, true, false, not, ◌&&◌, Option, none, some, List, [], ◌∷◌, ◌==◌,
  ltb, length, if◌then◌else◌,
}
use pypowervm.Exn.{decimal}
use pypowervm.NetBridge.{max_vlans_per_vea}

-- The links of a load group to its virtual networks.
abbrev pub Uris : Type 0
Uris = List String

abbrev pub is_shorter : Uris → Option (ℕ × Uris) → Bool
is_shorter g none = true
is_shorter g (some (i, best)) = ltb (length g) (length best)

-- The loop over the load groups from the i-th on, with cur_lg, by its position, and avail_count.
unfoldable pub fewest : ℕ → List Uris → Option (ℕ × Uris) × ℕ → Option (ℕ × Uris) × ℕ
fewest i [] found = found
fewest i (g ∷ gs) (cur_lg, avail_count) = fewest (suc i) gs (
    if ltb (length g) max_vlans_per_vea
    then (if is_shorter g cur_lg then some (i, g) else cur_lg, suc avail_count)
    else (cur_lg, avail_count))

-- `_find_available_ld_grp`, for nb.load_balance and the load groups after the first: the group's
-- position among them, and its links
unfoldable pub find_available_ld_grp : Bool → List Uris → Option (ℕ × Uris)
unfolding fewest
find_available_ld_grp load_balance ld_grps =
    let (cur_lg, avail_count) = fewest 0 ld_grps (none, 0) in
    elim cur_lg [
      | none ↦ none
      | some x ↦
          (if load_balance && (avail_count == 1) && (length ld_grps % 2 == 1) then none else some x)
    ]

pub record VNet : Type 0 where
  pub vlan : ℕ
  pub vswitch_id : ℕ
  pub tagged : Bool
  pub href : String
  pub related_href : String

-- What `_find_or_create_vnet` does: it returns a network, or it creates one after it has deleted
-- another.
pub data Choice : Type 0 where
  found : VNet → Choice
  create_after : Option String → Choice

abbrev same_bool : Bool → Bool → Bool
same_bool true b = b
same_bool false b = not b

-- `_find_or_create_vnet`, the search
unfoldable pub choose_vnet : List VNet → ℕ → ℕ → Bool → Choice
choose_vnet [] vlan switch_id tagged = create_after none
choose_vnet (v ∷ vs) vlan switch_id tagged =
    let rest = choose_vnet vs vlan switch_id tagged in
    if (v.vlan == vlan) && (v.vswitch_id == switch_id)
    then (if same_bool tagged v.tagged then found v else create_after (some v.href))
    else rest

-- The name of a virtual network that is created.
unfoldable pub vnet_name : ℕ → String → String
unfolding decimal
vnet_name vlan vswitch_name = "VLAN" <> decimal vlan <> "-" <> vswitch_name
