-- ===== src/NetBridge/Collision.antt =====
-- Which VLANs collide with an orphan trunk adapter (pypowervm/tasks/network_bridger.py).
use pypowervm.Prelude.{
  ℕ, Bool, true, false, Option, none, some, List, [], ◌∷◌, nat_in, is_some, ◌≡◌, refl, ◌∙◌, ap,
  arith,
}
use pypowervm.Prelude.Keyed.{nat_key, text_key, get}
use pypowervm.Exec.{Result, ok, err}
use pypowervm.Retry.{Exn, other}
use pypowervm.NetBridge.Orphans.{
  NetVios, Devices, Servers, OrphanMap, or_empty, build_orphan_map, device_vlans, server_vlans,
  orphan_vlans, colliding_device, colliding,
}
use pypowervm.NetBridge.Bridger.{
  BridgeError, orphan_vlan_found, Host, Bridger, get_orphan_map, get_or_build,
  validate_orphan_on_ensure, built,
}
use pypowervm.NetBridge.Lists.{nat_in-append}
use pypowervm.NetBridge.OrphanVlans.{is_orphan_vlan, orphan_vlans-build_orphan_map}

colliding_device-in :
    (vlan : ℕ) (ds : Devices) → is_some (colliding_device vlan ds) ≡ nat_in vlan (device_vlans ds)
unfolding nat_in
colliding_device-in vlan [] = refl
colliding_device-in vlan ((d, vs) ∷ ds) =
    ground (arith, colliding_device-in vlan ds, nat_in-append vlan vs (device_vlans ds))

colliding-in :
    (vlan : ℕ) (ss : Servers) → is_some (colliding vlan ss) ≡ nat_in vlan (server_vlans ss)
unfolding nat_in
colliding-in vlan [] = refl
colliding-in vlan ((n, ds) ∷ ss) = ground (
  arith,
  colliding-in vlan ss,
  colliding_device-in vlan ds,
  nat_in-append vlan (device_vlans ds) (server_vlans ss),
)

-- Whether it was the exception for an orphan that came, or no exception.
abbrev pub refused : {A : Type 0} → Result (Exn BridgeError) A → Option Bool
refused (err (other (orphan_vlan_found d v n))) = some true
refused (ok a) = some false
refused _ = none

get_built :
    {S : Type 0} (host : Host S) (b : Bridger S) (vioses : List NetVios) (w : S)
    → b.orphan_map ≡ none
    → host.get_vioses b.world ≡ (ok vioses, w)
    → get_orphan_map host b ≡ (
      ok (build_orphan_map [] vioses),
      record b { world = w; orphan_map = some (build_orphan_map [] vioses) },
    )
unfolding get_orphan_map get_or_build built
get_built host b vioses w fresh read = cc

refused_by :
    {S : Type 0} (host : Host S) (vlan vswitch_id : ℕ) (b : Bridger S) {m : OrphanMap}
    {c : Bridger S}
    → get_orphan_map host b ≡ (ok m, c)
    → refused (validate_orphan_on_ensure host vlan vswitch_id b).0
      ≡ some (is_some (colliding vlan (or_empty (get vswitch_id m))))
unfolding validate_orphan_on_ensure
refused_by host vlan vswitch_id b h = rw h (ground arith)

-- Where the Virtual I/O Servers can be read and the map is not built yet, the VLAN is refused as an
-- orphan if and only if a trunk adapter of some server that is in none of its SEAs carries it on
-- the virtual switch, and the check raises nothing otherwise.
pub validate_orphan_on_ensure_lem :
    {S : Type 0} (host : Host S) (vlan vswitch_id : ℕ) (b : Bridger S) (vioses : List NetVios)
    (w : S)
    → b.orphan_map ≡ none
    → host.get_vioses b.world ≡ (ok vioses, w)
    → refused (validate_orphan_on_ensure host vlan vswitch_id b).0
      ≡ some (is_orphan_vlan vlan vswitch_id vioses)
unfolding orphan_vlans
validate_orphan_on_ensure_lem host vlan vswitch_id b vioses w fresh read =
    refused_by host vlan vswitch_id b (get_built host b vioses w fresh read)
    ∙ ap some (
        colliding-in vlan (or_empty (get vswitch_id (build_orphan_map [] vioses)))
        ∙ orphan_vlans-build_orphan_map vlan vswitch_id vioses)
