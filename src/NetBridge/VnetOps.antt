-- ===== src/NetBridge/VnetOps.antt =====
-- NetworkBridgerVNET of pypowervm/tasks/network_bridger.py: what it does on the server to add, remove
-- and reassign VLANs.
use pypowervm.Prelude.{
  ℕ, String, Bool, true, false, not, ◌&&◌, ◌||◌, Option, none, some, List, [], ◌∷◌, ◌++◌, ◌==◌, ltb,
  length, if◌then◌else◌,
}
use pypowervm.Exec.{Exec, Result, ok, err, hang, pure, raise, ◌>>=◌, ◌>>◌}
use pypowervm.Retry.{Exn, other}
use pypowervm.NetBridge.{walk_down}
use pypowervm.NetBridge.Trunks.{PyError, attribute_error, value_error, change_at}
use pypowervm.NetBridge.LoadGroups.{
  Uris, VNet, Choice, found, create_after, choose_vnet, vnet_name, find_available_ld_grp,
}
use pypowervm.NetBridge.Bridger.{BridgeError, python, no_vlan_left}
use pypowervm.NetBridge.Vnet.{
  Group, VnetBridge, Switch, VnetHost, list_group_vlans, rest_of, group_uris, add_uri, on_rest,
  built_group, with_groups, group_with, tagged_of, drop_group, remove_uri, set_uris,
}

abbrev pub impacted_group : ℕ → List Group → Option Group
impacted_group old_vid [] = none
impacted_group old_vid (g ∷ gs) =
    let rest = impacted_group old_vid gs in if g.group_pvid == old_vid then some g else rest

module _ {S : Type 0} (host : VnetHost S) where
  abbrev Do : Type 0 → Type 0
  Do A = Exec S (Exn BridgeError) A

  abbrev from_py : {A : Type 0} → Result PyError A → Do A
  from_py (ok a) = pure a
  from_py (err e) = raise (other (python e))
  from_py hang = λ s. (hang, s)

  abbrev or_raise : {A : Type 0} → BridgeError → Option A → Do A
  or_raise e none = raise (other e)
  or_raise e (some a) = pure a

  abbrev delete_if : Option String → Do (Unit {0})
  delete_if none = pure tt
  delete_if (some href) = host.delete_by_href href

  unfoldable pub get_or_create : ℕ → Switch → Bool → Choice → Do VNet
  unfolding vnet_name
  get_or_create vlan switch tagged (found v) = pure v
  get_or_create vlan switch tagged (create_after old) =
      delete_if old >> host.create_vnet (vnet_name vlan switch.name) vlan switch.related_href tagged

  -- `_find_or_create_vnet`
  unfoldable pub find_or_create_vnet : List VNet → ℕ → Switch → Bool → Do VNet
  unfolding choose_vnet get_or_create
  find_or_create_vnet vnets vlan switch tagged =
      get_or_create vlan switch tagged (choose_vnet vnets vlan switch.id tagged)

  -- `_find_vnet_uri_from_lg`
  unfoldable pub find_vnet_uri_from_lg : Uris → ℕ → Do (Option String)
  find_vnet_uri_from_lg [] vlan = pure none
  find_vnet_uri_from_lg (uri ∷ uris) vlan = host.get_vnet uri >>= λ v.
      if v.vlan == vlan then pure (some v.related_href) else find_vnet_uri_from_lg uris vlan

  -- The VLANs of all the bridges, as `_find_new_arbitrary_vid` gathers them.
  unfoldable pub all_group_vlans : List VnetBridge → Do (List ℕ)
  unfolding list_group_vlans
  all_group_vlans [] = pure []
  all_group_vlans (nb ∷ nbs) = do
    vlans ← from_py (list_group_vlans true true nb)
    others ← all_group_vlans nbs
    pure (vlans ++ others)

  unfoldable pub find_new_group_vid : List VnetBridge → List ℕ → Do ℕ
  unfolding all_group_vlans walk_down
  find_new_group_vid all_nbs others = do
    vlans ← all_group_vlans all_nbs
    or_raise no_vlan_left (walk_down 4093 (vlans ++ others))

  -- The new load group for the VLAN of a virtual network.
  unfoldable pub build_group :
      List VNet → Switch → List VnetBridge → List ℕ → VnetBridge → VNet → Do VnetBridge
  unfolding find_new_group_vid find_or_create_vnet
  build_group vnets switch peers new_vlans nb vid_vnet = do
    orphans ← host.get_orphan_vlans nb.switch_id
    arb_vid ← find_new_group_vid (nb ∷ peers) (new_vlans ++ orphans)
    arb_vnet ← find_or_create_vnet vnets arb_vid switch false
    pure (
        with_groups
          (λ gs.
            gs ++ built_group arb_vid (arb_vnet.related_href ∷ vid_vnet.related_href ∷ []) ∷ [])
          nb)

  unfoldable pub put_on :
      List VNet
      → Switch
      → List VnetBridge
      → List ℕ
      → VnetBridge
      → VNet
      → Option (ℕ × Uris)
      → Do VnetBridge
  unfolding build_group change_at
  put_on vnets switch peers new_vlans nb vid_vnet none =
      build_group vnets switch peers new_vlans nb vid_vnet
  put_on vnets switch peers new_vlans nb vid_vnet (some (i, g)) =
      pure (with_groups (on_rest (change_at i (add_uri vid_vnet.related_href))) nb)

  -- The loop of _add_vlans_to_nb.
  unfoldable pub add_group_vlans :
      List VNet → Switch → List VnetBridge → List ℕ → VnetBridge → List ℕ → Do VnetBridge
  unfolding find_or_create_vnet put_on find_available_ld_grp
  add_group_vlans vnets switch peers new_vlans nb [] = pure nb
  add_group_vlans vnets switch peers new_vlans nb (v ∷ vs) = do
    vid_vnet ← find_or_create_vnet vnets v switch true
    nb' ←
        put_on vnets switch peers new_vlans nb vid_vnet
          (find_available_ld_grp nb.balanced (group_uris (rest_of nb.all_groups)))
    add_group_vlans vnets switch peers new_vlans nb' vs

  -- `_add_vlans_to_nb` of NetworkBridgerVNET
  unfoldable pub add_vlans_to_groups : VnetBridge → List VnetBridge → List ℕ → Do VnetBridge
  unfolding add_group_vlans
  add_vlans_to_groups nb peers new_vlans = do
    switch ← host.search_vswitch nb.switch_id
    vnets ← host.get_vnets
    add_group_vlans vnets switch peers new_vlans nb new_vlans

  unfoldable pub remove_link : ℕ → ℕ → Group → VnetBridge → Do VnetBridge
  unfolding find_vnet_uri_from_lg remove_uri change_at
  remove_link vlan i g nb = do
    uri ← find_vnet_uri_from_lg g.uris vlan
    uris ← or_raise (python value_error) (remove_uri uri g.uris)
    pure (with_groups (change_at i (set_uris uris)) nb)

  -- `_remove_vlan_from_nb` of NetworkBridgerVNET
  unfoldable pub remove_vlan_from_groups : VnetBridge → ℕ → Do VnetBridge
  unfolding group_with drop_group remove_link
  remove_vlan_from_groups nb vlan =
      from_py (group_with vlan 1 (rest_of nb.all_groups)) >>= λ found_group.
      let (i, g) = found_group in
      if (ltb 2 (length nb.all_groups) || not nb.balanced) && (length (tagged_of g.trunk) == 1)
      then pure (with_groups (drop_group g) nb)
      else remove_link vlan i g nb

  abbrev pub without : Option String → Uris → Option Uris
  unfolding remove_uri
  without none uris = some uris
  without (some uri) uris = remove_uri (some uri) uris

  -- `_reassign_arbitrary_vid` of NetworkBridgerVNET
  unfoldable pub reassign_group_vid : ℕ → ℕ → VnetBridge → Do (Unit {0})
  unfolding find_vnet_uri_from_lg find_or_create_vnet drop_group
  reassign_group_vid old_vid new_vid nb = do
    switch ← host.search_vswitch nb.switch_id
    vnets ← host.get_vnets
    g ← or_raise (python attribute_error) (impacted_group old_vid nb.all_groups)
    old_uri ← find_vnet_uri_from_lg g.uris old_vid
    new_vnet ← find_or_create_vnet vnets new_vid switch false
    uris ← or_raise (python value_error) (without old_uri g.uris)
    nb1 ← host.update (with_groups (drop_group g) nb)
    host.update
        (with_groups (λ gs. gs ++ built_group new_vid (new_vnet.related_href ∷ uris) ∷ []) nb1)
    delete_if old_uri
