-- ===== src/NetBridge/OrphanVlans.antt =====
-- The VLANs in the map of orphan trunk adapters (pypowervm/tasks/network_bridger.py).
use pypowervm.Prelude.{
  ℕ, String, Bool, false, not, ◌&&◌, ◌||◌, List, [], ◌∷◌, ◌++◌, ◌==◌, nat_in, Bool-cases, inl, inr,
  ◌≡◌, refl, sym, ◌∙◌, ap, arith,
}
use pypowervm.Prelude.Keyed.{KeyEq, nat_key, text_key, get, put, get-put, nat_beq_iff}
use pypowervm.NetBridge.{TrunkAdapter}
use pypowervm.NetBridge.Orphans.{
  ViosSea, NetVios, is_contained, orphan_trunks, Devices, Servers, OrphanMap, or_empty,
  put_orphan_in_map, put_orphans, build_orphan_map, device_vlans, server_vlans,
}
use pypowervm.NetBridge.Orphans.{orphan_vlans}
use pypowervm.NetBridge.Lists.{nat_in-append}

-- The trunk adapter carries the VLAN on the virtual switch, tagged or as its PVID.
abbrev pub carries : ℕ → ℕ → TrunkAdapter → Bool
carries vlan vswitch_id t = (t.vswitch_id == vswitch_id) && nat_in vlan (t.pvid ∷ t.tagged_vlans)

abbrev pub any_orphan : ℕ → ℕ → List ViosSea → List TrunkAdapter → Bool
any_orphan vlan vswitch_id seas [] = false
any_orphan vlan vswitch_id seas (t ∷ ts) =
    (not (is_contained t.dev_name seas) && carries vlan vswitch_id t)
    || any_orphan vlan vswitch_id seas ts

-- Some Virtual I/O Server has a trunk adapter with the VLAN that is in none of its SEAs.
abbrev pub is_orphan_vlan : ℕ → ℕ → List NetVios → Bool
is_orphan_vlan vlan vswitch_id [] = false
is_orphan_vlan vlan vswitch_id (v ∷ vs) =
    any_orphan vlan vswitch_id v.vios_seas v.trunk_adapters || is_orphan_vlan vlan vswitch_id vs

or_assoc : (a b c : Bool) → ((a || b) || c) ≡ (a || (b || c))
or_assoc a b c = ground arith

or_no : (a : Bool) → a ≡ (a || false)
or_no a = ground arith

-- A dictionary has a VLAN under some key, and what a changed entry adds to it.
module _ {K X : Type 0} ⦃e : KeyEq K⦄ (inside : List X → Bool) where
  any_value : List (K × List X) → Bool
  any_value [] = false
  any_value ((k, v) ∷ d) = inside v || any_value d

  any_value-put :
      (k : K) (more : Bool) (v : List X) (d : List (K × List X))
      → inside [] ≡ false
      → inside v ≡ (inside (or_empty (get k d)) || more)
      → any_value (put k v d) ≡ (any_value d || more)
  unfolding any_value get put
  any_value-put k more v [] h g = ground arith
  any_value-put k more v ((j, w) ∷ d) h g = ground (arith, any_value-put k more v d h)

in_device : ℕ → List ℕ → Bool
in_device vlan vlans = nat_in vlan vlans

in_devices : ℕ → Devices → Bool
in_devices vlan ds = nat_in vlan (device_vlans ds)

in_servers : ℕ → Servers → Bool
in_servers vlan ss = nat_in vlan (server_vlans ss)

any_device : (vlan : ℕ) (ds : Devices) → any_value (in_device vlan) ds ≡ in_devices vlan ds
unfolding any_value in_device in_devices nat_in
any_device vlan [] = refl
any_device vlan ((d, vs) ∷ ds) =
    rw (nat_in-append vlan vs (device_vlans ds))
      (ap (λ x. nat_in vlan vs || x) (any_device vlan ds))

any_server : (vlan : ℕ) (ss : Servers) → any_value (in_devices vlan) ss ≡ in_servers vlan ss
unfolding any_value in_devices in_servers nat_in
any_server vlan [] = refl
any_server vlan ((n, ds) ∷ ss) =
    rw (nat_in-append vlan (device_vlans ds) (server_vlans ss))
      (ap (λ x. nat_in vlan (device_vlans ds) || x) (any_server vlan ss))

put_device :
    (vlan : ℕ) (dev : String) (more : List ℕ) (ds : Devices)
    → in_devices vlan (put dev (or_empty (get dev ds) ++ more) ds)
      ≡ (in_devices vlan ds || nat_in vlan more)
unfolding in_device nat_in
put_device vlan dev more ds =
    sym (any_device vlan (put dev (or_empty (get dev ds) ++ more) ds))
    ∙ any_value-put (in_device vlan) dev (nat_in vlan more) (or_empty (get dev ds) ++ more) ds refl
        (nat_in-append vlan (or_empty (get dev ds)) more)
    ∙ ap (λ x. x || nat_in vlan more) (any_device vlan ds)

put_server :
    (vlan : ℕ) (name : String) (more : Bool) (ds : Devices) (ss : Servers)
    → in_devices vlan ds ≡ (in_devices vlan (or_empty (get name ss)) || more)
    → in_servers vlan (put name ds ss) ≡ (in_servers vlan ss || more)
unfolding in_devices nat_in
put_server vlan name more ds ss h =
    sym (any_server vlan (put name ds ss))
    ∙ any_value-put (in_devices vlan) name more ds ss refl h
    ∙ ap (λ x. x || more) (any_server vlan ss)

orphan_in : ℕ → ℕ → OrphanMap → Bool
orphan_in vlan vswitch_id m = in_servers vlan (or_empty (get vswitch_id m))

put_vswitch :
    (vlan vswitch_id k : ℕ) (more : Bool) (ss : Servers) (m : OrphanMap)
    → in_servers vlan ss ≡ (in_servers vlan (or_empty (get k m)) || more)
    → orphan_in vlan vswitch_id (put k ss m)
      ≡ (orphan_in vlan vswitch_id m || ((k == vswitch_id) && more))
unfolding orphan_in
put_vswitch vlan vswitch_id k more ss m h = elim (Bool-cases (k == vswitch_id)) [
  | inl e ↦ rw (get-put k vswitch_id ss m) (rw e (rw (sym ((nat_beq_iff k vswitch_id).0 e)) h))
  | inr e ↦ rw (get-put k vswitch_id ss m) (rw e (or_no _))
]

put_one :
    (vlan vswitch_id : ℕ) (name : String) (m : OrphanMap) (t : TrunkAdapter)
    → orphan_in vlan vswitch_id
        (put_orphan_in_map m name t.vswitch_id t.dev_name (t.pvid ∷ t.tagged_vlans))
      ≡ (orphan_in vlan vswitch_id m || carries vlan vswitch_id t)
unfolding orphan_in put_orphan_in_map
put_one vlan vswitch_id name m t =
    let servers = or_empty (get t.vswitch_id m) in
    let part = or_empty (get name servers) in
    let vlans = t.pvid ∷ t.tagged_vlans in
    let inner : in_servers vlan
          (put name (put t.dev_name (or_empty (get t.dev_name part) ++ vlans) part) servers)
        ≡ (in_servers vlan servers || nat_in vlan vlans) =
      put_server vlan name (nat_in vlan vlans)
        (put t.dev_name (or_empty (get t.dev_name part) ++ vlans) part) servers
        (put_device vlan t.dev_name vlans part) in
    put_vswitch vlan vswitch_id t.vswitch_id (nat_in vlan vlans) _ m inner

put_each :
    (vlan vswitch_id : ℕ) (name : String) (seas : List ViosSea) (m : OrphanMap)
    (ts : List TrunkAdapter)
    → orphan_in vlan vswitch_id (put_orphans name m (orphan_trunks seas ts))
      ≡ (orphan_in vlan vswitch_id m || any_orphan vlan vswitch_id seas ts)
unfolding put_orphans orphan_trunks
put_each vlan vswitch_id name seas m [] = or_no _
put_each vlan vswitch_id name seas m (t ∷ ts) = elim (Bool-cases (is_contained t.dev_name seas)) [
  | inl e ↦ rw e (put_each vlan vswitch_id name seas m ts)
  | inr e ↦ rw e (
      put_each vlan vswitch_id name seas
        (put_orphan_in_map m name t.vswitch_id t.dev_name (t.pvid ∷ t.tagged_vlans)) ts
      ∙ ap (λ x. x || any_orphan vlan vswitch_id seas ts) (put_one vlan vswitch_id name m t)
      ∙ or_assoc (orphan_in vlan vswitch_id m) (carries vlan vswitch_id t)
          (any_orphan vlan vswitch_id seas ts))
]

build_each :
    (vlan vswitch_id : ℕ) (m : OrphanMap) (vs : List NetVios)
    → orphan_in vlan vswitch_id (build_orphan_map m vs)
      ≡ (orphan_in vlan vswitch_id m || is_orphan_vlan vlan vswitch_id vs)
unfolding build_orphan_map
build_each vlan vswitch_id m [] = or_no _
build_each vlan vswitch_id m (v ∷ vs) =
    build_each vlan vswitch_id (put_orphans v.name m (orphan_trunks v.vios_seas v.trunk_adapters))
      vs
    ∙ ap (λ x. x || is_orphan_vlan vlan vswitch_id vs)
        (put_each vlan vswitch_id v.name v.vios_seas m v.trunk_adapters)
    ∙ or_assoc (orphan_in vlan vswitch_id m)
        (any_orphan vlan vswitch_id v.vios_seas v.trunk_adapters)
        (is_orphan_vlan vlan vswitch_id vs)

-- The VLANs that are kept from being arbitrary PVIDs are those with which a requested VLAN collides:
-- the VLANs of the trunk adapters on the virtual switch that are in no SEA of their server.
pub orphan_vlans-build_orphan_map :
    (vlan vswitch_id : ℕ) (vioses : List NetVios)
    → nat_in vlan (orphan_vlans (build_orphan_map [] vioses) vswitch_id)
      ≡ is_orphan_vlan vlan vswitch_id vioses
unfolding orphan_vlans orphan_in in_servers get nat_in
orphan_vlans-build_orphan_map vlan vswitch_id vioses = build_each vlan vswitch_id [] vioses
