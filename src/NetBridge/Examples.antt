-- ===== src/NetBridge/Examples.antt =====
-- Two network bridges on one virtual switch, the first with a failover pair of SEAs, and a trunk
-- adapter that is in no SEA (pypowervm/tasks/network_bridger.py).
use pypowervm.Prelude.{
  ℕ, ◌+◌, ◌≤◌, String, true, false, none, some, List, [], ◌∷◌, nat_in, is_in, if◌then◌else◌, ◌==◌,
  ◌≡◌, refl, arith,
}
use pypowervm.Exec.{ok, err}
use pypowervm.Retry.{http, other, etag_mismatch}
use pypowervm.NetBridge.{
  TrunkAdapter, Sea, LoadGroup, NetBridge, max_vlans_per_vea, trunk_vlans, list_vlans,
  supports_vlan, find_wrapper, put_wrapper, find_peer_nbs, find_new_arbitrary_vid,
}
use pypowervm.NetBridge.Orphans.{NetVios, is_contained, contains_device}
use pypowervm.NetBridge.Trunks.{
  change_at, change, change_each, trunk_at, position, find_peer_trunk, trunk_list, least_used,
  find_available_trunks,
}
use pypowervm.NetBridge.Untag.{take_out, remove_vlan, take_each, matching_tas, remove_vlan_from_nb}
use pypowervm.NetBridge.Bridger.{
  foreign, pvid_of_network_bridge, Host, Bridger, add_at, add_vlan, add_each, add_vlans_to_nb,
  validate_orphan_on_ensure,
}
use pypowervm.NetBridge.Synch.{peer_supporting, remove_vlan_from_nb_synch, ensure_vlans_on_nb_synch}
use pypowervm.NetBridge.NewVid.{AreWithout, find_new_arbitrary_vid_lem}
use pypowervm.NetBridge.Collision.{refused, validate_orphan_on_ensure_lem}
use pypowervm.NetBridge.Lists.{count}
use pypowervm.NetBridge.Added.{on_bridge}
use pypowervm.NetBridge.Carried.{
  HasNoMore, add_vlans_to_nb-count, add_vlans_to_nb-once, add_vlans_to_nb-HasNoMore,
}
use pypowervm.NetBridge.Removed.{remove_vlan_from_nb-count}
use pypowervm.NetBridge.Ensured.{ensure_vlans_on_nb_synch-IsPvidOf}
use pypowervm.NetBridge.LoadGroups.{Uris, VNet, choose_vnet, fewest, find_available_ld_grp}
use pypowervm.NetBridge.Vnet.{VnetBridge, VnetHost, rest_of}
use pypowervm.NetBridge.VnetOps.{
  get_or_create, find_or_create_vnet, put_on, add_group_vlans, add_vlans_to_groups,
}
use pypowervm.NetBridge.Groups.{AreSmall, add_vlans_to_groups-AreSmall}
use pypowervm.NetBridge.Stale.{remove_vlan_from_nb_synch-IsGone}

abbrev trunk : String → ℕ → ℕ → List ℕ → TrunkAdapter
trunk dev pri pvid tagged = record {
  dev_name = dev;
  pvid = pvid;
  tagged_vlans = tagged;
  vswitch_id = 0;
  trunk_pri = pri;
  rest = some pri;
}

abbrev sea : ℕ → ℕ → List ℕ → Sea
sea pri pvid tagged = record {
  primary_adpt = trunk "ent1" pri 1 [];
  addl_adpts = trunk "ent2" pri pvid tagged ∷ [];
}

abbrev groups : ℕ → ℕ → List ℕ → List LoadGroup
groups first pvid tagged =
    record { lg_pvid = first; lg_tagged_vlans = [] }
    ∷ record { lg_pvid = pvid; lg_tagged_vlans = tagged }
    ∷ []

-- The first bridge with the VLANs tagged.
abbrev pair : List ℕ → NetBridge
pair tagged = record {
  uuid = "nb1";
  load_balance = false;
  load_grps = groups 1 4094 tagged;
  first_sea = sea 1 4094 tagged;
  more_seas = sea 2 4094 tagged ∷ [];
}

-- The VLANs on the trunk adapters, but not yet on the load groups.
abbrev pair_tagged : List ℕ → NetBridge
pair_tagged tagged = record (pair (100 ∷ 101 ∷ [])) {
  first_sea = sea 1 4094 tagged;
  more_seas = sea 2 4094 tagged ∷ [];
}

abbrev single : NetBridge
single = record {
  uuid = "nb2";
  load_balance = false;
  load_grps = groups 5 4093 (200 ∷ 201 ∷ []);
  first_sea = record {
    primary_adpt = trunk "ent1" 1 5 [];
    addl_adpts = trunk "ent2" 1 4093 (200 ∷ 201 ∷ []) ∷ [];
  };
  more_seas = [];
}

abbrev pub bridges : List NetBridge
bridges = pair (100 ∷ 101 ∷ []) ∷ single ∷ []

abbrev vios : NetVios
vios = record {
  name = "vios1";
  vios_seas =
      record {
        control_channel = none;
        primary = some (trunk "ent1" 1 1 []);
        additional = trunk "ent2" 1 4094 (100 ∷ []) ∷ [];
      }
      ∷ [];
  trunk_adapters =
      trunk "ent1" 1 1 [] ∷ trunk "ent2" 1 4094 (100 ∷ []) ∷ trunk "ent9" 1 300 (301 ∷ []) ∷ [];
}

-- A host that counts the updates and refuses the first.
abbrev host : Host ℕ
host = record {
  get_bridges = λ n. (ok bridges, n);
  get_vioses = λ n. (ok (vios ∷ []), n);
  search_vswitch = λ i n. (ok i, n);
  update =
      λ nb n. (if n == 0 then (err (http etag_mismatch (foreign "etag")), 1) else (ok tt, n + 1));
  sleep = λ t n w. (ok tt, w);
  acquire = λ n. (ok tt, n);
  release = λ n. n;
}

abbrev start : Bridger ℕ
start = record { world = 0; nb_wraps = bridges; orphan_map = none }

find_new_arbitrary_vid_lem_example :
    (v : ℕ) × (find_new_arbitrary_vid bridges (4092 ∷ []) ≡ some v)
    × (4000 ≤ v)
    × (v ≤ 4094)
    × AreWithout v bridges
    × (nat_in v (4092 ∷ []) ≡ false)
unfolding list_vlans trunk_vlans nat_in
find_new_arbitrary_vid_lem_example =
    find_new_arbitrary_vid_lem bridges (4092 ∷ []) 4000 (omega arith) (omega arith)
      (refl, (refl, tt)) refl

validate_orphan_on_ensure_lem_example :
    refused (validate_orphan_on_ensure host 301 0 start).0 ≡ some true
unfolding is_contained contains_device is_in nat_in
validate_orphan_on_ensure_lem_example =
    validate_orphan_on_ensure_lem host 301 0 start (vios ∷ []) 0 refl refl

add_vlans_to_nb-count_example :
    on_bridge false 102 (pair_tagged (100 ∷ 101 ∷ 102 ∷ []))
    ≡ on_bridge false 102 (pair (100 ∷ 101 ∷ [])) + count 102 (102 ∷ [])
unfolding add_vlans_to_nb add_each add_vlan add_at find_available_trunks least_used trunk_list
    find_peer_trunk position change_each change change_at
add_vlans_to_nb-count_example =
    add_vlans_to_nb-count host false (single ∷ []) (102 ∷ []) (pair (100 ∷ 101 ∷ []))
      (pair_tagged (100 ∷ 101 ∷ 102 ∷ [])) start start 102 refl

-- Every VLAN is at most once on the pair, and the new one is not on it.
once : (w : ℕ) → on_bridge true w (pair (100 ∷ 101 ∷ [])) + count w (102 ∷ []) ≤ 1
unfolding count list_vlans trunk_vlans
once w = ground arith

add_vlans_to_nb-once_example : on_bridge true 102 (pair_tagged (100 ∷ 101 ∷ 102 ∷ [])) ≤ 1
unfolding add_vlans_to_nb add_each add_vlan add_at find_available_trunks least_used trunk_list
    find_peer_trunk position change_each change change_at
add_vlans_to_nb-once_example =
    add_vlans_to_nb-once host false (single ∷ []) (102 ∷ []) (pair (100 ∷ 101 ∷ []))
      (pair_tagged (100 ∷ 101 ∷ 102 ∷ [])) start start once refl 102

add_vlans_to_nb-HasNoMore_example :
    HasNoMore max_vlans_per_vea (pair_tagged (100 ∷ 101 ∷ 102 ∷ [])).first_sea.addl_adpts
unfolding add_vlans_to_nb add_each add_vlan add_at find_available_trunks least_used trunk_list
    find_peer_trunk position change_each change change_at
add_vlans_to_nb-HasNoMore_example =
    add_vlans_to_nb-HasNoMore host false (single ∷ []) (102 ∷ []) (pair (100 ∷ 101 ∷ []))
      (pair_tagged (100 ∷ 101 ∷ 102 ∷ [])) start start (omega arith, tt) refl

remove_vlan_from_nb-count_example :
    on_bridge false 101 (pair_tagged (100 ∷ [])) + count 101 (101 ∷ [])
    ≡ on_bridge false 101 (pair (100 ∷ 101 ∷ []))
unfolding remove_vlan_from_nb matching_tas take_each take_out trunk_at trunk_list find_peer_trunk
    position change change_at remove_vlan nat_in
remove_vlan_from_nb-count_example =
    remove_vlan_from_nb-count 1 101 101 (pair (100 ∷ 101 ∷ [])) (pair_tagged (100 ∷ [])) (refl, tt)
      ((refl, (refl, tt)), tt) refl

ensure_vlans_on_nb_synch-IsPvidOf_example :
    ensure_vlans_on_nb_synch host false 1 "nb1" (5 ∷ 102 ∷ []) start
    ≡ (err (other (pvid_of_network_bridge 5)), start)
unfolding find_wrapper find_peer_nbs peer_supporting supports_vlan list_vlans trunk_vlans nat_in
ensure_vlans_on_nb_synch-IsPvidOf_example =
    ensure_vlans_on_nb_synch-IsPvidOf host 5 "nb1" (102 ∷ []) false start bridges 0
      (pair (100 ∷ 101 ∷ [])) single 0 refl refl refl refl refl (refl, refl, _, _, refl, refl)

remove_vlan_from_nb_synch-IsGone_example :
    remove_vlan_from_nb_synch host "nb1" 101 true true start
    ≡ (ok tt, record start { world = 1; nb_wraps = pair_tagged (100 ∷ []) ∷ single ∷ [] })
unfolding find_wrapper put_wrapper supports_vlan list_vlans trunk_vlans nat_in remove_vlan_from_nb
    matching_tas take_each take_out trunk_at trunk_list find_peer_trunk position change change_at
    remove_vlan
remove_vlan_from_nb_synch-IsGone_example =
    remove_vlan_from_nb_synch-IsGone host "nb1" 101 true start (pair (100 ∷ 101 ∷ []))
      (pair_tagged (100 ∷ [])) (foreign "etag") 1 1 refl (refl, refl, _, _, refl, refl, refl) refl
      refl (refl, refl) refl refl

-- A bridge with one load group after the first, with two virtual networks, and a host that finds and
-- makes networks.
abbrev vnet : ℕ → String → VNet
vnet vlan href = record {
  vlan = vlan;
  vswitch_id = 0;
  tagged = true;
  href = href;
  related_href = href;
}

abbrev grouped : Uris → VnetBridge
grouped uris = record {
  uuid = "nb3";
  bridge_pvid = 1;
  balanced = false;
  switch_id = 0;
  all_groups =
      record { group_pvid = 1; trunk = some (trunk "ent1" 1 1 []); uris = [] }
      ∷ record { group_pvid = 4094; trunk = some (trunk "ent2" 1 4094 (100 ∷ [])); uris = uris }
      ∷ [];
}

abbrev vnet_host : VnetHost ℕ
vnet_host = record {
  search_vswitch = λ i n. (ok (record { id = i; name = "vsw"; related_href = "switch" }), n);
  get_vnets = λ n. (ok (vnet 102 "v102" ∷ []), n);
  get_vnet = λ uri n. (ok (vnet 100 uri), n);
  create_vnet = λ name vlan href tagged n. (ok (vnet vlan name), n);
  delete_by_href = λ href n. (ok tt, n);
  update = λ nb n. (ok nb, n);
  get_orphan_vlans = λ i n. (ok [], n);
}

add_vlans_to_groups-AreSmall_example :
    AreSmall (rest_of (grouped ("v4094" ∷ "v100" ∷ "v102" ∷ [])).all_groups)
unfolding add_vlans_to_groups add_group_vlans put_on find_or_create_vnet get_or_create choose_vnet
    find_available_ld_grp fewest change_at
add_vlans_to_groups-AreSmall_example =
    add_vlans_to_groups-AreSmall vnet_host (grouped ("v4094" ∷ "v100" ∷ []))
      (grouped ("v4094" ∷ "v100" ∷ "v102" ∷ [])) [] (102 ∷ []) 0 0 (omega arith, tt) refl
