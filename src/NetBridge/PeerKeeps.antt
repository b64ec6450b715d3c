-- ===== src/NetBridge/PeerKeeps.antt =====
-- What is done to a peer leaves the bridge that was asked for as it is
-- (pypowervm/tasks/network_bridger.py).
use mathlib.Core.Path.{subst}
use pypowervm.Prelude.{
  ℕ, String, Bool, true, false, not, ◌&&◌, ◌||◌, Option, none, some, List, [], ◌∷◌, ◌==◌, length,
  nat_in, All, text_eq, text_eq_iff, Bool-cases, inl, inr, ◌≡◌, ◌≢◌, refl, sym, ◌∙◌, ap, arith,
}
use pypowervm.Exec.{Result, ok, err, hang, pure, ◌>>=◌}
use pypowervm.Exec.Keeps.{Keeps, pure-Keeps, raise-Keeps, >>=-Keeps, if-Keeps}
use pypowervm.Retry.{retry}
use pypowervm.Retry.Keeps.{retry-Keeps}
use pypowervm.NetBridge.{
  LoadGroup, NetBridge, vswitch_id_of, arbitrary_pvids, supports_vlan, find_wrapper, find_peer_nbs,
}
use pypowervm.NetBridge.Untag.{remove_vlan_from_nb, reassigned}
use pypowervm.NetBridge.Bridger.{
  Host, Bridger, Act, from_python, wrapper, get_orphan_vlans, update_nb, store,
  reassign_arbitrary_vid,
}
use pypowervm.NetBridge.Synch.{
  peer_supporting, retry_options, retried, reassign_here, remove_supported, remove_from, remove_try,
  remove_vlan_from_nb_synch, remove_if_any, remove_from_peer,
}
use pypowervm.NetBridge.Uuids.{
  remove_vlan_from_nb_ends, reassigned_ends, uuid-remove_vlan_from_nb, uuid-reassigned,
  find-put_other, find_wrapper-uuid,
}
use pypowervm.NetBridge.Reads.{
  Stores, Result-cases, AtMost, IsLow, on_world-Keeps, get_orphan_vlans-Keeps, vid_or_raise-Keeps,
}

peers_apart :
    (nb : NetBridge) (ws : List NetBridge)
    → All (λ w. text_eq nb.uuid w.uuid ≡ false) (find_peer_nbs ws nb false)
unfolding find_peer_nbs
peers_apart nb [] = tt
peers_apart nb (w ∷ ws) = elim (Bool-cases (text_eq nb.uuid w.uuid)) [
  | inl e ↦ rw e (peers_apart nb ws)
  | inr e ↦ rw e (elim (Bool-cases (vswitch_id_of w == vswitch_id_of nb)) [
    | inl s ↦ rw s (e, peers_apart nb ws)
    | inr s ↦ rw s (peers_apart nb ws)
  ])
]

supporting_apart :
    (vlan : ℕ) (nb peer : NetBridge) (ws : List NetBridge)
    → All (λ w. text_eq nb.uuid w.uuid ≡ false) ws
    → peer_supporting vlan ws ≡ some peer
    → text_eq nb.uuid peer.uuid ≡ false
unfolding peer_supporting
supporting_apart vlan nb peer [] h e = absurd (ground arith)
supporting_apart vlan nb peer (w ∷ ws) (h, hs) e = elim (Bool-cases (supports_vlan vlan w)) [
  | inl s ↦ (let same : w ≡ peer = ground arith in ap (λ x. text_eq nb.uuid x.uuid) (sym same) ∙ h)
  | inr s ↦
      supporting_apart vlan nb peer ws hs
        (let later : peer_supporting vlan ws ≡ some peer = ground arith in later)
]

module _ {S : Type 0} (host : Host S) (feed : S → List NetBridge) (st : Stores host feed)
    (nb_uuid : String) (ids : List ℕ) (n : ℕ) where
  abbrev Low : Bridger S → Type 0
  Low = IsLow host feed st nb_uuid ids n

  other_feed :
      (nb : NetBridge) (w : S)
      → text_eq nb.uuid nb_uuid ≡ false
      → find_wrapper nb_uuid (feed (host.update nb w).1) ≡ find_wrapper nb_uuid (feed w)
  other_feed nb w d = elim (Result-cases (host.update nb w).0) [
    | inl (a, e) ↦
        ap (λ nbs. find_wrapper nb_uuid nbs) (st.update_ok nb w e)
        ∙ find-put_other nb_uuid nb (feed w) d
    | inr (inl (x, e)) ↦ ap (λ nbs. find_wrapper nb_uuid nbs) (st.update_err nb w x e)
    | inr (inr e) ↦ absurd (st.update_end nb w e)
  ]

  update_nb-Keeps :
      (nb : NetBridge) → text_eq nb.uuid nb_uuid ≡ false → Keeps Low (update_nb host nb)
  unfolding update_nb store
  update_nb-Keeps nb d b (h, k) = (
    st.update_end nb b.world,
    (
      subst (AtMost ids n) (sym (other_feed nb b.world d)) h,
      subst (AtMost ids n) (sym (find-put_other nb_uuid nb b.nb_wraps d)) k,
    ),
  )

  -- Where the change keeps the UUID.
  changed-Keeps :
      (r : Result _ NetBridge) (nb : NetBridge)
      → r ≢ hang
      → text_eq nb.uuid nb_uuid ≡ false
      → ((x : NetBridge) → r ≡ ok x → x.uuid ≡ nb.uuid)
      → Keeps Low (from_python r >>= update_nb host)
  changed-Keeps (ok x) nb ends d same b h =
      update_nb-Keeps x (ap (λ u. text_eq u nb_uuid) (same x refl) ∙ d) b h
  changed-Keeps (err e) nb ends d same b h = raise-Keeps Low _ b h
  changed-Keeps hang nb ends d same b h = absurd (ends refl)

  module _ (nb : NetBridge) (d : text_eq nb.uuid nb_uuid ≡ false) (vlan : ℕ) where
    reassign_arbitrary_vid-Keeps :
        (new_vid : ℕ) → Keeps Low (reassign_arbitrary_vid host vlan new_vid nb)
    unfolding reassign_arbitrary_vid
    reassign_arbitrary_vid-Keeps new_vid =
        changed-Keeps (reassigned vlan new_vid nb) nb (reassigned_ends vlan new_vid nb) d
          (λ x. uuid-reassigned vlan new_vid nb x)

    reassign_here-Keeps : Keeps Low (reassign_here host vlan nb)
    unfolding reassign_here
    reassign_here-Keeps =
        >>=-Keeps Low (get_orphan_vlans host (vswitch_id_of nb)) _
          (get_orphan_vlans-Keeps host feed st nb_uuid ids n _)
          λ orphans.
            >>=-Keeps Low _ _ (λ b. vid_or_raise-Keeps host feed st nb_uuid ids n _ b)
              λ vid. reassign_arbitrary_vid-Keeps vid

    remove_supported-Keeps :
        (fail : Bool) (gs : List LoadGroup) → Keeps Low (remove_supported host vlan fail nb gs)
    unfolding remove_supported
    remove_supported-Keeps fail [] = raise-Keeps Low _
    remove_supported-Keeps fail (g ∷ gs) =
        if-Keeps Low (fail && (g.lg_pvid == vlan)) _ _ (raise-Keeps Low _) (
          if-Keeps Low
            ((g.lg_pvid == vlan) || nat_in vlan g.lg_tagged_vlans || (length (g ∷ gs) == 1)) _ _
            (pure-Keeps Low tt)
            (changed-Keeps (remove_vlan_from_nb vlan nb) nb (remove_vlan_from_nb_ends vlan nb) d
              (λ x. uuid-remove_vlan_from_nb vlan nb x)))

    remove_from-Keeps : (fail : Bool) → Keeps Low (remove_from host vlan fail nb)
    unfolding remove_from
    remove_from-Keeps fail =
        if-Keeps Low (nat_in vlan (arbitrary_pvids nb)) _ _ reassign_here-Keeps (
          if-Keeps Low (not (supports_vlan vlan nb)) _ _ (pure-Keeps Low tt)
            (remove_supported-Keeps fail nb.load_grps))

  module _ (peer_uuid : String) (d : text_eq peer_uuid nb_uuid ≡ false) (vlan : ℕ)
      (fail : Bool) where
    peer_apart :
        (nb : NetBridge) → text_eq nb.uuid peer_uuid ≡ true → text_eq nb.uuid nb_uuid ≡ false
    peer_apart nb h = ap (λ u. text_eq u nb_uuid) ((text_eq_iff nb.uuid peer_uuid).0 h) ∙ d

    found-Keeps :
        (o : Option NetBridge)
        → (b : Bridger S) → find_wrapper peer_uuid b.nb_wraps ≡ o
        → Low b
        → ((remove_try host peer_uuid vlan fail true b).0 ≢ hang)
          × Low (remove_try host peer_uuid vlan fail true b).1
    unfolding remove_try wrapper
    found-Keeps none b e h = rw e (raise-Keeps Low _ b h)
    found-Keeps (some nb) b e h = rw e (
        remove_from-Keeps nb (peer_apart nb (find_wrapper-uuid peer_uuid nb b.nb_wraps e)) vlan fail
          b h)

    remove_vlan_from_nb_synch-Keeps :
        Keeps Low (remove_vlan_from_nb_synch host peer_uuid vlan fail true)
    unfolding remove_vlan_from_nb_synch retried
    remove_vlan_from_nb_synch-Keeps =
        let func : Unit {0} → Act S (Unit {0}) = λ _. remove_try host peer_uuid vlan fail true in
        >>=-Keeps Low (retry (retry_options host) func tt) (λ _. pure tt)
          (retry-Keeps Low (retry_options host) func (unfold retry_options in refl)
            (unfold retry_options in refl)
            (unfold retry_options in
              λ t k a.
                on_world-Keeps host feed st nb_uuid ids n (host.sleep t k) (st.sleep_end t k)
                  (st.sleep_keep t k))
            (unfold retry_options in λ t n a. pure-Keeps Low a)
            (λ a b h. found-Keeps (find_wrapper peer_uuid b.nb_wraps) b refl h) tt)
          (λ r. pure-Keeps Low tt)

  apart_from :
      (nb peer : NetBridge)
      → text_eq nb.uuid nb_uuid ≡ true
      → text_eq nb.uuid peer.uuid ≡ false
      → text_eq peer.uuid nb_uuid ≡ false
  apart_from nb peer h d = ground (
    arith,
    text_eq_iff nb.uuid nb_uuid,
    text_eq_iff nb.uuid peer.uuid,
    text_eq_iff peer.uuid nb_uuid,
  )

  if_any-Keeps :
      (vlan : ℕ) (o : Option NetBridge)
      → ((peer : NetBridge) → o ≡ some peer → text_eq peer.uuid nb_uuid ≡ false)
      → Keeps Low (remove_if_any host vlan o)
  unfolding remove_if_any
  if_any-Keeps vlan none d = pure-Keeps Low tt
  if_any-Keeps vlan (some peer) d =
      remove_vlan_from_nb_synch-Keeps peer.uuid (d peer refl) vlan true

  -- The removal of a VLAN from a peer ends and leaves the bridge with the UUID.
  pub remove_from_peer-Keeps :
      (vlan : ℕ) (nb : NetBridge)
      → text_eq nb.uuid nb_uuid ≡ true
      → Keeps Low (remove_from_peer host vlan nb)
  unfolding remove_from_peer
  remove_from_peer-Keeps vlan nb same b h =
      let peers = find_peer_nbs b.nb_wraps nb false in
      if_any-Keeps vlan (peer_supporting vlan peers)
        (λ peer e.
          apart_from nb peer same
            (supporting_apart vlan nb peer peers (peers_apart nb b.nb_wraps) e))
        b h
