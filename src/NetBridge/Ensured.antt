-- ===== src/NetBridge/Ensured.antt =====
-- The synchronised methods as a whole: nothing to do, a VLAN that a peer needs, and a refused update
-- (pypowervm/tasks/network_bridger.py).
use pypowervm.Prelude.{
  ℕ, suc, String, Bool, true, false, some, List, [], ◌∷◌, nat_in, All, ◌≡◌, refl, ◌∙◌, ap, arith,
}
use pypowervm.Exec.{ok, err}
use pypowervm.Retry.{other}
use pypowervm.NetBridge.{
  LoadGroup, NetBridge, arbitrary_pvids, supports_vlan, find_wrapper, find_peer_nbs,
}
use pypowervm.NetBridge.Bridger.{pvid_of_network_bridge, Host, Bridger, Act, wrapper, refresh_nbs}
use pypowervm.NetBridge.Synch.{
  peer_supporting, remove_supported, remove_from, remove_try, remove_vlan_from_nb_synch,
  remove_if_any, remove_from_peer, ensure_absent_here, ensure_one, ensure_each, place_vlans, finish,
  ensure_read, ensure_try, ensure_vlans_on_nb_synch,
}
use pypowervm.NetBridge.Retried.{retried_ok, retried_raises}

module _ {S : Type 0} where
  pub wrapper_found :
      (nb_uuid : String) (b : Bridger S) (nb : NetBridge)
      → find_wrapper nb_uuid b.nb_wraps ≡ some nb
      → wrapper nb_uuid b ≡ (ok nb, b)
  unfolding wrapper
  wrapper_found nb_uuid b nb h = cc

  pub refreshed :
      (host : Host S) (b : Bridger S) (nbs : List NetBridge) (w : S)
      → host.get_bridges b.world ≡ (ok nbs, w)
      → refresh_nbs host b ≡ (ok tt, record b { world = w; nb_wraps = nbs })
  unfolding refresh_nbs
  refreshed host b nbs w h = rw h refl

module _ {S : Type 0} (host : Host S) (nb_uuid : String) (vlan_ids : List ℕ) where
  nothing_new :
      (nb : NetBridge) (vs new_vlans : List ℕ) (b : Bridger S)
      → find_wrapper nb_uuid b.nb_wraps ≡ some nb
      → All (λ v. supports_vlan v nb ≡ true) vs
      → ensure_each host nb_uuid vlan_ids new_vlans vs b ≡ (ok (some new_vlans), b)
  unfolding ensure_each ensure_one
  nothing_new nb [] new_vlans b found h = refl
  nothing_new nb (v ∷ vs) new_vlans b found (h, hs) =
      rw (wrapper_found nb_uuid b nb found) (rw h (nothing_new nb vs new_vlans b found hs))

  module _ (across_veas : Bool) (b : Bridger S) (nbs : List NetBridge) (w : S) (nb : NetBridge)
      (read : host.get_bridges b.world ≡ (ok nbs, w))
      (found : find_wrapper nb_uuid nbs ≡ some nb) where
    abbrev read_bridges : Bridger S
    read_bridges = record b { world = w; nb_wraps = nbs }

    try_nothing :
        (restarted : Act S (Unit {0}))
        → All (λ v. supports_vlan v nb ≡ true) vlan_ids
        → ensure_try host across_veas restarted nb_uuid vlan_ids b ≡ (ok tt, read_bridges)
    unfolding ensure_try ensure_read finish place_vlans
    try_nothing restarted h =
        rw
          (
            refreshed host b nbs w read,
            wrapper_found nb_uuid read_bridges nb found,
            nothing_new nb vlan_ids [] read_bridges found h,
          )
          refl

    -- Where the bridge that was asked for, as it is read, supports all the VLANs, ensuring them
    -- returns after that one read: nothing is updated.
    ensure_vlans_on_nb_synch-supported :
        (depth : ℕ)
        → All (λ v. supports_vlan v nb ≡ true) vlan_ids
        → ensure_vlans_on_nb_synch host across_veas (suc depth) nb_uuid vlan_ids b
          ≡ (ok tt, read_bridges)
    unfolding ensure_vlans_on_nb_synch
    ensure_vlans_on_nb_synch-supported depth h =
        retried_ok host
          (ensure_try host across_veas
            (ensure_vlans_on_nb_synch host across_veas depth nb_uuid vlan_ids) nb_uuid vlan_ids)
          b read_bridges
          (try_nothing (ensure_vlans_on_nb_synch host across_veas depth nb_uuid vlan_ids) h)

-- A peer has the VLAN as the PVID of its first load group, and not as an arbitrary one.
abbrev pub IsPvidOf : ℕ → NetBridge → Type 0
IsPvidOf vlan peer =
    (nat_in vlan (arbitrary_pvids peer) ≡ false)
    × (supports_vlan vlan peer ≡ true)
    × (g : LoadGroup) × (gs : List LoadGroup) × (peer.load_grps ≡ g ∷ gs)
    × (g.lg_pvid ≡ vlan)

module _ {S : Type 0} (host : Host S) (vlan : ℕ) where
  pvid_remains :
      (peer : NetBridge) (c : Bridger S)
      → IsPvidOf vlan peer
      → remove_from host vlan true peer c ≡ (err (other (pvid_of_network_bridge vlan)), c)
  unfolding remove_from remove_supported
  pvid_remains peer c (free, has, g, gs, groups, pvid) = rw (free, has, groups) (ground arith)

  peer_refuses :
      (nb peer : NetBridge) (c : Bridger S)
      → peer_supporting vlan (find_peer_nbs c.nb_wraps nb false) ≡ some peer
      → find_wrapper peer.uuid c.nb_wraps ≡ some peer
      → IsPvidOf vlan peer
      → remove_from_peer host vlan nb c ≡ (err (other (pvid_of_network_bridge vlan)), c)
  unfolding remove_from_peer remove_vlan_from_nb_synch
  peer_refuses nb peer c first found h =
      let refused : remove_try host peer.uuid vlan true true c
          ≡ (err (other (pvid_of_network_bridge vlan)), c) =
        unfold remove_try in rw (wrapper_found peer.uuid c peer found) (pvid_remains peer c h) in
      ap (λ o. remove_if_any host vlan o c) first
      ∙ (unfold remove_if_any in
          retried_raises host (remove_try host peer.uuid vlan true true) c
            (pvid_of_network_bridge vlan) c refused)

  first_refused :
      (nb_uuid : String) (vlan_ids vlans : List ℕ) (nb : NetBridge) (c : Bridger S)
      → find_wrapper nb_uuid c.nb_wraps ≡ some nb
      → supports_vlan vlan nb ≡ false
      → remove_from_peer host vlan nb c ≡ (err (other (pvid_of_network_bridge vlan)), c)
      → ensure_each host nb_uuid vlan_ids [] (vlan ∷ vlans) c
        ≡ (err (other (pvid_of_network_bridge vlan)), c)
  unfolding ensure_each ensure_one ensure_absent_here
  first_refused nb_uuid vlan_ids vlans nb c found absent refused =
      rw (wrapper_found nb_uuid c nb found) (rw absent (rw refused refl))

  module _ (nb_uuid : String) (vlans : List ℕ) (across_veas : Bool) (b : Bridger S)
      (nbs : List NetBridge) (w : S) (nb peer : NetBridge) where
    pvid_try :
        (restarted : Act S (Unit {0}))
        → host.get_bridges b.world ≡ (ok nbs, w)
        → find_wrapper nb_uuid nbs ≡ some nb
        → supports_vlan vlan nb ≡ false
        → peer_supporting vlan (find_peer_nbs nbs nb false) ≡ some peer
        → find_wrapper peer.uuid nbs ≡ some peer
        → IsPvidOf vlan peer
        → ensure_try host across_veas restarted nb_uuid (vlan ∷ vlans) b
          ≡ (err (other (pvid_of_network_bridge vlan)), record b { world = w; nb_wraps = nbs })
    unfolding ensure_try ensure_read
    pvid_try restarted read found absent first peer_found h =
        let c : Bridger S = record b { world = w; nb_wraps = nbs } in
        rw
          (
            refreshed host b nbs w read,
            wrapper_found nb_uuid c nb found,
            first_refused nb_uuid (vlan ∷ vlans) vlans nb c found absent
                (peer_refuses nb peer c first peer_found h),
          )
          refl

    -- If the first VLAN asked for is not on the bridge, and the first of its peers on the virtual
    -- switch that supports it has it as its primary PVID, then ensuring the VLANs raises
    -- PvidOfNetworkBridgeError, and nothing is updated.
    pub ensure_vlans_on_nb_synch-IsPvidOf :
        (depth : ℕ)
        → host.get_bridges b.world ≡ (ok nbs, w)
        → find_wrapper nb_uuid nbs ≡ some nb
        → supports_vlan vlan nb ≡ false
        → peer_supporting vlan (find_peer_nbs nbs nb false) ≡ some peer
        → find_wrapper peer.uuid nbs ≡ some peer
        → IsPvidOf vlan peer
        → ensure_vlans_on_nb_synch host across_veas (suc depth) nb_uuid (vlan ∷ vlans) b
          ≡ (err (other (pvid_of_network_bridge vlan)), record b { world = w; nb_wraps = nbs })
    unfolding ensure_vlans_on_nb_synch
    ensure_vlans_on_nb_synch-IsPvidOf depth read found absent first peer_found h =
        let restarted = ensure_vlans_on_nb_synch host across_veas depth nb_uuid (vlan ∷ vlans) in
        retried_raises host (ensure_try host across_veas restarted nb_uuid (vlan ∷ vlans)) b
          (pvid_of_network_bridge vlan) (record b { world = w; nb_wraps = nbs })
          (pvid_try restarted read found absent first peer_found h)
