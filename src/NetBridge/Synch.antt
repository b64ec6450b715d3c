-- ===== src/NetBridge/Synch.antt =====
-- The synchronised, retried methods of NetworkBridger (pypowervm/tasks/network_bridger.py). `depth`
-- is how often `_ensure_vlans_on_nb_synch` may call itself.
use pypowervm.Prelude.{
  ℕ, zero, suc, String, Bool, true, false, not, ◌&&◌, ◌||◌, Option, none, some, List, [], ◌∷◌, ◌++◌,
  ◌==◌, length, nat_in, if◌then◌else◌,
}
use pypowervm.Exec.{hang, pure, raise, ◌>>=◌, ◌>>◌}
use pypowervm.Retry.{other, Options, dft_retry_codes, retry}
use pypowervm.NetBridge.{
  LoadGroup, NetBridge, vswitch_id_of, arbitrary_pvids, supports_vlan, find_peer_nbs,
  is_arbitrary_vid, find_new_arbitrary_vid,
}
use pypowervm.NetBridge.Trunks.{index_error}
use pypowervm.NetBridge.Untag.{remove_vlan_from_nb}
use pypowervm.NetBridge.Bridger.{
  BridgeError, pvid_of_network_bridge, python, Host, Bridger, Act, on_world, from_python, wrapper,
  all_nbs_on_vs, vid_or_raise, refresh_nbs, get_orphan_vlans, validate_orphan_on_ensure, update_nb,
  reassign_arbitrary_vid, add_vlans_to_nb,
}

-- What a VLAN that was asked for needs: nothing, a place, or that all is done again.
pub data Need : Type 0 where
  nothing : Need
  place : Need
  restart : Need

unfoldable pub peer_supporting : ℕ → List NetBridge → Option NetBridge
unfolding supports_vlan
peer_supporting vlan [] = none
peer_supporting vlan (nb ∷ nbs) =
    let rest = peer_supporting vlan nbs in if supports_vlan vlan nb then some nb else rest

module _ {S : Type 0} (host : Host S) where
  -- retry(tries=60, delay_func=STEPPED_RANDOM_DELAY)
  unfoldable pub retry_options : {A : Type 0} → Options (Bridger S) (Unit {0}) A BridgeError
  retry_options = record {
    tries = 60;
    delay_func = λ t n a. on_world (host.sleep t n);
    retry_except = none;
    http_codes = some dft_retry_codes;
    test_func = none;
    resp_checker = none;
    limit_except = none;
    argmod_func = λ t n a. pure a;
  }

  unfoldable pub retried : Act S (Unit {0}) → Act S (Unit {0})
  unfolding retry retry_options
  retried func = retry retry_options (λ _. func) tt >> pure tt

  -- lock.synchronized
  unfoldable pub locked : Act S (Unit {0}) → Act S (Unit {0})
  locked m = on_world host.acquire >>= λ _ b.
      let (r, c) = m b in (r, record c { world = host.release c.world })

  -- From `if vlan_id in req_nb.arbitrary_pvids` on.
  unfoldable pub reassign_here : ℕ → NetBridge → Act S (Unit {0})
  unfolding find_peer_nbs get_orphan_vlans find_new_arbitrary_vid reassign_arbitrary_vid
  reassign_here vlan nb = do
    orphans ← get_orphan_vlans host (vswitch_id_of nb)
    new_vid ← (λ b.
        vid_or_raise (find_new_arbitrary_vid (find_peer_nbs b.nb_wraps nb true) (vlan ∷ orphans)) b)
    reassign_arbitrary_vid host vlan new_vid nb

  -- From `if fail_if_pvid` on, with the load groups.
  unfoldable pub remove_supported : ℕ → Bool → NetBridge → List LoadGroup → Act S (Unit {0})
  unfolding remove_vlan_from_nb update_nb
  remove_supported vlan fail_if_pvid nb [] = raise (other (python index_error))
  remove_supported vlan fail_if_pvid nb (g ∷ gs) =
      if fail_if_pvid && (g.lg_pvid == vlan)
      then raise (other (pvid_of_network_bridge vlan))
      else (if (g.lg_pvid == vlan) || nat_in vlan g.lg_tagged_vlans || (length (g ∷ gs) == 1)
          then pure tt
          else (from_python (remove_vlan_from_nb vlan nb) >>= update_nb host))

  unfoldable pub remove_from : ℕ → Bool → NetBridge → Act S (Unit {0})
  unfolding reassign_here remove_supported supports_vlan
  remove_from vlan fail_if_pvid nb =
      if nat_in vlan (arbitrary_pvids nb)
      then reassign_here vlan nb
      else (if not (supports_vlan vlan nb)
          then pure tt
          else remove_supported vlan fail_if_pvid nb nb.load_grps)

  -- One try of _remove_vlan_from_nb_synch. Existing wrappers are those of the state.
  unfoldable pub remove_try : String → ℕ → Bool → Bool → Act S (Unit {0})
  unfolding remove_from wrapper refresh_nbs
  remove_try nb_uuid vlan fail_if_pvid existing =
      (if existing then pure tt else refresh_nbs host)
      >> wrapper nb_uuid
      >>= remove_from vlan fail_if_pvid

  unfoldable pub remove_vlan_from_nb_synch : String → ℕ → Bool → Bool → Act S (Unit {0})
  unfolding remove_try retried
  remove_vlan_from_nb_synch nb_uuid vlan fail_if_pvid existing =
      retried (remove_try nb_uuid vlan fail_if_pvid existing)

  unfoldable pub remove_if_any : ℕ → Option NetBridge → Act S (Unit {0})
  unfolding remove_vlan_from_nb_synch
  remove_if_any vlan none = pure tt
  remove_if_any vlan (some peer) = remove_vlan_from_nb_synch peer.uuid vlan true true

  -- The loop over peer_nbs.
  unfoldable pub remove_from_peer : ℕ → NetBridge → Act S (Unit {0})
  unfolding find_peer_nbs remove_if_any peer_supporting
  remove_from_peer vlan nb b =
      remove_if_any vlan (peer_supporting vlan (find_peer_nbs b.nb_wraps nb false)) b

  -- From `if self._is_arbitrary_vid` on.
  unfoldable pub ensure_absent : List ℕ → ℕ → NetBridge → List NetBridge → Act S Need
  unfolding is_arbitrary_vid get_orphan_vlans find_new_arbitrary_vid reassign_arbitrary_vid
      validate_orphan_on_ensure
  ensure_absent vlan_ids vlan req_nb all_nbs =
      if is_arbitrary_vid vlan all_nbs
      then (get_orphan_vlans host (vswitch_id_of req_nb) >>= λ orphans.
          vid_or_raise (find_new_arbitrary_vid all_nbs (vlan_ids ++ orphans)) >>= λ new_vid.
          reassign_arbitrary_vid host vlan new_vid req_nb >> pure restart)
      else (validate_orphan_on_ensure host vlan (vswitch_id_of req_nb) >> pure place)

  unfoldable pub ensure_absent_here : List ℕ → ℕ → NetBridge → Act S Need
  unfolding remove_from_peer all_nbs_on_vs ensure_absent
  ensure_absent_here vlan_ids vlan req_nb = do
    remove_from_peer vlan req_nb
    all_nbs ← all_nbs_on_vs req_nb
    ensure_absent vlan_ids vlan req_nb all_nbs

  -- The body of the loop over vlan_ids.
  unfoldable pub ensure_one : String → List ℕ → ℕ → Act S Need
  unfolding wrapper supports_vlan ensure_absent_here
  ensure_one nb_uuid vlan_ids vlan = do
    req_nb ← wrapper nb_uuid
    if supports_vlan vlan req_nb then pure nothing else ensure_absent_here vlan_ids vlan req_nb

  -- The loop: the new VLANs, or none where all is done again.
  unfoldable pub ensure_each : String → List ℕ → List ℕ → List ℕ → Act S (Option (List ℕ))
  unfolding ensure_one
  ensure_each nb_uuid vlan_ids new_vlans [] = pure (some new_vlans)
  ensure_each nb_uuid vlan_ids new_vlans (v ∷ vs) = ensure_one nb_uuid vlan_ids v >>= elim [
    | nothing ↦ ensure_each nb_uuid vlan_ids new_vlans vs
    | place ↦ ensure_each nb_uuid vlan_ids (new_vlans ++ v ∷ []) vs
    | restart ↦ pure none
  ]

  module _ (across_veas : Bool) where
    -- What is done with the new VLANs.
    unfoldable pub place_vlans : String → List ℕ → Act S (Unit {0})
    unfolding wrapper add_vlans_to_nb find_peer_nbs update_nb
    place_vlans nb_uuid [] = pure tt
    place_vlans nb_uuid (v ∷ vs) = do
      req_nb ← wrapper nb_uuid
      nb' ← (λ b.
          add_vlans_to_nb host across_veas req_nb (find_peer_nbs b.nb_wraps req_nb false) (v ∷ vs)
            b)
      update_nb host nb'

    -- What follows the loop over vlan_ids.
    unfoldable pub finish : Act S (Unit {0}) → String → Option (List ℕ) → Act S (Unit {0})
    unfolding place_vlans
    finish again nb_uuid none = again
    finish again nb_uuid (some new_vlans) = place_vlans nb_uuid new_vlans

    -- From `req_nb = ` on.
    unfoldable pub ensure_read : Act S (Unit {0}) → String → List ℕ → Act S (Unit {0})
    unfolding wrapper ensure_each finish
    ensure_read again nb_uuid vlan_ids = wrapper nb_uuid >>= λ req_nb.
        ensure_each nb_uuid vlan_ids [] vlan_ids >>= λ found. finish again nb_uuid found

    -- One try of _ensure_vlans_on_nb_synch, which calls `again` where all is done again.
    unfoldable pub ensure_try : Act S (Unit {0}) → String → List ℕ → Act S (Unit {0})
    unfolding refresh_nbs ensure_read
    ensure_try again nb_uuid vlan_ids = refresh_nbs host >> ensure_read again nb_uuid vlan_ids

    unfoldable pub ensure_vlans_on_nb_synch : ℕ → String → List ℕ → Act S (Unit {0})
    unfolding retried ensure_try
    ensure_vlans_on_nb_synch zero nb_uuid vlan_ids = λ b. (hang, b)
    ensure_vlans_on_nb_synch (suc depth) nb_uuid vlan_ids =
        retried (ensure_try (ensure_vlans_on_nb_synch depth nb_uuid vlan_ids) nb_uuid vlan_ids)

    unfoldable pub ensure_vlans_on_nb : ℕ → String → List ℕ → Act S (Unit {0})
    unfolding locked ensure_vlans_on_nb_synch
    ensure_vlans_on_nb depth nb_uuid vlan_ids =
        locked (ensure_vlans_on_nb_synch depth nb_uuid vlan_ids)

    unfoldable pub ensure_vlan_on_nb : ℕ → String → ℕ → Act S (Unit {0})
    unfolding ensure_vlans_on_nb
    ensure_vlan_on_nb depth nb_uuid vlan = ensure_vlans_on_nb depth nb_uuid (vlan ∷ [])

  unfoldable pub remove_vlan_from_nb_locked : String → ℕ → Bool → Bool → Act S (Unit {0})
  unfolding locked remove_vlan_from_nb_synch
  remove_vlan_from_nb_locked nb_uuid vlan fail_if_pvid existing =
      locked (remove_vlan_from_nb_synch nb_uuid vlan fail_if_pvid existing)
