-- ===== src/NetBridge/Bridger.antt =====
-- The bridger's own state and what it asks of the host: pypowervm/tasks/network_bridger.py, the
-- methods that NetworkBridger and NetworkBridgerTA have below the synchronised ones.
use pypowervm.Prelude.{ℕ, String, Bool, false, Option, none, some, List, [], ◌∷◌, ◌++◌}
use pypowervm.Prelude.Keyed.{nat_key, get}
use pypowervm.Exec.{Result, ok, err, hang, Exec, pure, raise, ◌>>=◌, ◌>>◌}
use pypowervm.Retry.{Exn, other}
use pypowervm.NetBridge.{
  NetBridge, vswitch_id_of, find_wrapper, put_wrapper, find_peer_nbs, find_new_arbitrary_vid,
}
use pypowervm.NetBridge.Orphans.{
  NetVios, OrphanMap, or_empty, build_orphan_map, orphan_vlans, colliding,
}
use pypowervm.NetBridge.Trunks.{
  PyError, attribute_error, Place, find_available_trunks, tag, change_each, with_trunk,
}
use pypowervm.NetBridge.Untag.{reassigned}

-- What else than an HttpError is raised. `no_vlan_left` stands for what follows when no VLAN is free
-- and the source goes on with None as a PVID.
pub data BridgeError : Type 0 where
  pvid_of_network_bridge : ℕ → BridgeError
  orphan_vlan_found : String → ℕ → String → BridgeError
  python : PyError → BridgeError
  no_vlan_left : BridgeError
  foreign : String → BridgeError

pub record Host (S : Type 0) : Type 0 where
  -- NetBridge.get, VIOS.get and the switch_id that VSwitch.search finds
  pub get_bridges : Exec S (Exn BridgeError) (List NetBridge)
  pub get_vioses : Exec S (Exn BridgeError) (List NetVios)
  pub search_vswitch : ℕ → Exec S (Exn BridgeError) ℕ
  pub update : NetBridge → Exec S (Exn BridgeError) (Unit {0})
  -- STEPPED_RANDOM_DELAY
  pub sleep : ℕ → ℕ → Exec S (Exn BridgeError) (Unit {0})
  -- what lock.synchronized('ensure_vlans_nb') does before and after the call
  pub acquire : Exec S (Exn BridgeError) (Unit {0})
  pub release : S → S

-- The wrappers that were read last, as they have been changed since, and `_orphan_map`.
pub record Bridger (S : Type 0) : Type 0 where
  pub world : S
  pub nb_wraps : List NetBridge
  pub orphan_map : Option OrphanMap

abbrev pub Act : Type 0 → Type 0 → Type 0
Act S A = Exec (Bridger S) (Exn BridgeError) A

module _ {S : Type 0} where
  abbrev pub on_world : {A : Type 0} → Exec S (Exn BridgeError) A → Act S A
  on_world m b = let (r, w) = m b.world in (r, record b { world = w })

  abbrev pub from_python : {A : Type 0} → Result PyError A → Act S A
  from_python (ok a) = pure a
  from_python (err e) = raise (other (python e))
  from_python hang = λ s. (hang, s)

  -- The wrapper with the UUID; what uses None is an AttributeError.
  unfoldable pub wrapper : String → Act S NetBridge
  unfolding find_wrapper
  wrapper nb_uuid b = elim (find_wrapper nb_uuid b.nb_wraps) [
    | none ↦ (err (other (python attribute_error)), b)
    | some nb ↦ (ok nb, b)
  ]

  -- The bridge and its peers.
  unfoldable pub all_nbs_on_vs : NetBridge → Act S (List NetBridge)
  unfolding find_peer_nbs
  all_nbs_on_vs nb b = (ok (nb ∷ find_peer_nbs b.nb_wraps nb false), b)

  unfoldable pub store : NetBridge → Act S (Unit {0})
  unfolding put_wrapper
  store nb b = (ok tt, record b { nb_wraps = put_wrapper nb b.nb_wraps })

  abbrev pub vid_or_raise : Option ℕ → Act S ℕ
  vid_or_raise none = raise (other no_vlan_left)
  vid_or_raise (some vid) = pure vid

  -- What is raised for a VLAN that collides with a device.
  abbrev pub refuse : ℕ → Option (String × String) → Act S (Unit {0})
  refuse vlan none = pure tt
  refuse vlan (some (n, d)) = raise (other (orphan_vlan_found d vlan n))

  module _ (host : Host S) where
    -- NetBridge.get
    unfoldable pub refresh_nbs : Act S (Unit {0})
    refresh_nbs = on_world host.get_bridges >>= λ nbs b. (ok tt, record b { nb_wraps = nbs })

    unfoldable pub built : Act S OrphanMap
    unfolding build_orphan_map
    built = on_world host.get_vioses >>= λ vs b.
        let m = build_orphan_map [] vs in (ok m, record b { orphan_map = some m })

    unfoldable pub get_or_build : Option OrphanMap → Act S OrphanMap
    unfolding built
    get_or_build none = built
    get_or_build (some m) = pure m

    -- `_get_orphan_map`
    unfoldable pub get_orphan_map : Act S OrphanMap
    unfolding get_or_build
    get_orphan_map b = get_or_build b.orphan_map b

    -- `_get_orphan_vlans`
    unfoldable pub get_orphan_vlans : ℕ → Act S (List ℕ)
    unfolding get_orphan_map orphan_vlans
    get_orphan_vlans vswitch_id = do m ← get_orphan_map; pure (orphan_vlans m vswitch_id)

    -- `_validate_orphan_on_ensure`
    unfoldable pub validate_orphan_on_ensure : ℕ → ℕ → Act S (Unit {0})
    unfolding get_orphan_map get
    validate_orphan_on_ensure vlan vswitch_id = do
      m ← get_orphan_map
      refuse vlan (colliding vlan (or_empty (get vswitch_id m)))

    unfoldable pub update_nb : NetBridge → Act S (Unit {0})
    unfolding store
    update_nb nb = store nb >> on_world (host.update nb)

    -- `_reassign_arbitrary_vid` of NetworkBridgerTA
    unfoldable pub reassign_arbitrary_vid : ℕ → ℕ → NetBridge → Act S (Unit {0})
    unfolding reassigned update_nb
    reassign_arbitrary_vid old_vid new_vid nb = do
      nb' ← from_python (reassigned old_vid new_vid nb)
      update_nb nb'

    -- What is done with the trunks that were found, or when there are none.
    unfoldable pub add_at :
        ℕ → List NetBridge → List ℕ → NetBridge → ℕ → Option (List Place) → Act S NetBridge
    unfolding change_each with_trunk get_orphan_vlans find_new_arbitrary_vid
    add_at switch_id peers new_vlans nb vlan (some trunks) = pure (change_each trunks (tag vlan) nb)
    add_at switch_id peers new_vlans nb vlan none = do
      orphans ← get_orphan_vlans (vswitch_id_of nb)
      arb_vid ← vid_or_raise (find_new_arbitrary_vid (nb ∷ peers) (new_vlans ++ orphans))
      pure (with_trunk arb_vid vlan switch_id nb)

    module _ (across_veas : Bool) where
      -- One turn of the loop of _add_vlans_to_nb.
      unfoldable pub add_vlan : ℕ → List NetBridge → List ℕ → NetBridge → ℕ → Act S NetBridge
      unfolding add_at find_available_trunks
      add_vlan switch_id peers new_vlans nb vlan =
          add_at switch_id peers new_vlans nb vlan (find_available_trunks across_veas nb)

      unfoldable pub add_each : ℕ → List NetBridge → List ℕ → NetBridge → List ℕ → Act S NetBridge
      unfolding add_vlan
      add_each switch_id peers new_vlans nb [] = pure nb
      add_each switch_id peers new_vlans nb (v ∷ vs) = do
        nb' ← add_vlan switch_id peers new_vlans nb v
        add_each switch_id peers new_vlans nb' vs

      -- `_add_vlans_to_nb` of NetworkBridgerTA
      unfoldable pub add_vlans_to_nb : NetBridge → List NetBridge → List ℕ → Act S NetBridge
      unfolding add_each
      add_vlans_to_nb nb peers new_vlans = do
        switch_id ← on_world (host.search_vswitch (vswitch_id_of nb))
        add_each switch_id peers new_vlans nb new_vlans
