-- ===== src/NetBridge/Restarts.antt =====
-- One VLAN is looked at: where all is done again after, fewer arbitrary PVIDs are among the VLANs
-- (pypowervm/tasks/network_bridger.py).
use mathlib.Core.Path.{subst}
use pypowervm.Prelude.{
  ℕ, ◌+◌, ◌≤◌, String, Bool, true, false, Option, none, some, List, ◌∷◌, ◌++◌, nat_in, text_eq,
  if◌then◌else◌, Bool-cases, inl, inr, ◌≡◌, ◌≢◌, refl, sym, ◌∙◌, ap, arith,
}
use pypowervm.Exec.{Result, ok, err, hang, pure, continue, ◌>>=◌, ◌>>◌}
use pypowervm.Exec.Keeps.{Keeps, pure-Keeps, raise-Keeps, >>=-Keeps}
use pypowervm.Retry.{Exn}
use pypowervm.NetBridge.{
  NetBridge, vswitch_id_of, arbitrary_pvids, supports_vlan, find_wrapper, put_wrapper,
  find_peer_nbs, is_arbitrary_vid,
}
use pypowervm.Prelude.Keyed.{nat_key, get}
use pypowervm.NetBridge.Orphans.{or_empty, colliding}
use pypowervm.NetBridge.Trunks.{PyError}
use pypowervm.NetBridge.Untag.{reassigned}
use pypowervm.NetBridge.Bridger.{
  BridgeError, get_orphan_map, refuse, Bridger, from_python, all_nbs_on_vs, get_orphan_vlans,
  update_nb, store, reassign_arbitrary_vid, validate_orphan_on_ensure,
}
use pypowervm.NetBridge.Synch.{
  Need, nothing, place, restart, remove_from_peer, ensure_absent, ensure_absent_here, ensure_one,
}
use pypowervm.NetBridge.NewVid.{find_new_arbitrary_vid-unused}
use pypowervm.NetBridge.Lists.{nat_in-append, or_false_left}
use pypowervm.NetBridge.Uuids.{
  hits, reassigned_lem, reassigned_ends, uuid-reassigned, find-put_same, find_wrapper-uuid,
}
use pypowervm.NetBridge.Reads.{Result-cases, AtMost, get_orphan_vlans-Keeps, get_orphan_map-Keeps}
use pypowervm.NetBridge.PeerKeeps.{remove_from_peer-Keeps}
use pypowervm.NetBridge.After.{Low, After, Fewer, after, vid_after, wrapper_after, Asked}

module _ {S : Type 0} (q : Asked S) where
  open q use {host, feed, st, nb_uuid, ids}

  stored_fewer :
      (n : ℕ) (x : NetBridge) (nbs : List NetBridge) (o : Option NetBridge)
      → text_eq x.uuid nb_uuid ≡ true
      → find_wrapper nb_uuid (put_wrapper x nbs) ≡ o
      → AtMost ids (hits ids (arbitrary_pvids x)) o
  stored_fewer n x nbs none same e = tt
  stored_fewer n x nbs (some y) same e =
      let is_x = find-put_same nb_uuid x y nbs same e in
      omega (arith, ap (λ z. hits ids (arbitrary_pvids z)) is_x)

  updated :
      (n : ℕ) (x : NetBridge) (b : Bridger S)
      → text_eq x.uuid nb_uuid ≡ true
      → hits ids (arbitrary_pvids x) + 1 ≤ n
      → Low q n b
      → After q n (λ _ c. Fewer q n c) (update_nb host x b)
  unfolding update_nb store
  updated n x b same less low = elim (Result-cases (host.update x b.world).0) [
    | inl (a, e) ↦ rw e (
      hits ids (arbitrary_pvids x),
      less,
      subst (λ nbs. AtMost ids (hits ids (arbitrary_pvids x)) (find_wrapper nb_uuid nbs))
          (sym (st.update_ok x b.world e)) (stored_fewer n x (feed b.world) _ same refl),
    )
    | inr (inl (er, e)) ↦ rw e (
        subst (λ nbs. AtMost ids n (find_wrapper nb_uuid nbs)) (sym (st.update_err x b.world er e))
          low.0)
    | inr (inr e) ↦ absurd (st.update_end x b.world e)
  ]

  reassigned_after :
      (n : ℕ) (r : Result PyError NetBridge) (b : Bridger S)
      → r ≢ hang
      → ((x : NetBridge)
          → r ≡ ok x
          → (text_eq x.uuid nb_uuid ≡ true) × (hits ids (arbitrary_pvids x) + 1 ≤ n))
      → Low q n b
      → After q n (λ _ c. Fewer q n c) ((from_python r >>= update_nb host) b)
  reassigned_after n (ok x) b ends k low = updated n x b (k x refl).0 (k x refl).1 low
  reassigned_after n (err e) b ends k low = low.0
  reassigned_after n hang b ends k low = absurd (ends refl)

  -- What is left after q a VLAN was looked at: fewer arbitrary PVIDs where all is done again.
  abbrev pub AfterOne : ℕ → Need → Bridger S → Type 0
  AfterOne n nothing b = Low q n b
  AfterOne n place b = Low q n b
  AfterOne n restart b = Fewer q n b

  then_restart :
      (n : ℕ) (r : Result (Exn BridgeError) (Unit {0})) (c : Bridger S)
      → After q n (λ _ x. Fewer q n x) (r, c)
      → After q n (AfterOne n) (continue r (λ _. pure restart) c)
  then_restart n (ok a) c h = h
  then_restart n (err e) c h = h
  then_restart n hang c h = h

  refuse-Keeps : (n vlan : ℕ) (o : Option (String × String)) → Keeps (Low q n) (refuse vlan o)
  refuse-Keeps n vlan none = pure-Keeps (Low q n) tt
  refuse-Keeps n vlan (some x) = raise-Keeps (Low q n) _

  module _ (n : ℕ) (req : NetBridge) (same : text_eq req.uuid nb_uuid ≡ true)
      (few : hits ids (arbitrary_pvids req) ≤ n) (vlan : ℕ) (asked : nat_in vlan ids ≡ true) where
    restart_after :
        (new_vid : ℕ) (b : Bridger S)
        → nat_in new_vid ids ≡ false
        → Low q n b
        → After q n (AfterOne n) ((reassign_arbitrary_vid host vlan new_vid req >> pure restart) b)
    unfolding reassign_arbitrary_vid
    restart_after new_vid b unused low =
        let run = reassign_arbitrary_vid host vlan new_vid req b in
        then_restart n run.0 run.1 (
          reassigned_after n (reassigned vlan new_vid req) b (reassigned_ends vlan new_vid req)
            (λ x e. (
              ap (λ u. text_eq u nb_uuid) (uuid-reassigned vlan new_vid req x e) ∙ same,
              omega (arith, few, reassigned_lem ids vlan new_vid req x asked unused e),
            ))
            low)

    validate-Keeps : Keeps (Low q n) (validate_orphan_on_ensure host vlan (vswitch_id_of req))
    unfolding validate_orphan_on_ensure
    validate-Keeps =
        >>=-Keeps (Low q n) (get_orphan_map host) _
          (get_orphan_map-Keeps host feed st nb_uuid ids n)
          λ m. refuse-Keeps n vlan (colliding vlan (or_empty (get (vswitch_id_of req) m)))

    absent_after :
        (all_nbs : List NetBridge) (b : Bridger S)
        → Low q n b
        → After q n (AfterOne n) (ensure_absent host ids vlan req all_nbs b)
    unfolding ensure_absent
    absent_after all_nbs b low = elim (Bool-cases (is_arbitrary_vid vlan all_nbs)) [
      | inl e ↦ rw e (
          after q n (AfterOne n) (get_orphan_vlans host (vswitch_id_of req)) _
            (get_orphan_vlans-Keeps host feed st nb_uuid ids n (vswitch_id_of req))
            (λ orphans c low'.
              vid_after q n (AfterOne n) _ _
                (λ v d found low''.
                  restart_after v d
                    (or_false_left _ _ (
                      sym (nat_in-append v ids orphans)
                      ∙ (find_new_arbitrary_vid-unused all_nbs (ids ++ orphans) v found).1))
                    low'')
                c low')
            b low)
      | inr e ↦ rw e (
          after q n (AfterOne n) (validate_orphan_on_ensure host vlan (vswitch_id_of req)) _
            validate-Keeps (λ a c low'. low') b low)
    ]

    absent_here_after :
        (b : Bridger S)
        → Low q n b
        → After q n (AfterOne n) (ensure_absent_here host ids vlan req b)
    unfolding ensure_absent_here all_nbs_on_vs
    absent_here_after b low =
        after q n (AfterOne n) (remove_from_peer host vlan req) _
          (remove_from_peer-Keeps host feed st nb_uuid ids n vlan req same)
          (λ a c low'. absent_after (req ∷ find_peer_nbs c.nb_wraps req false) c low') b low

  one_found :
      (n vlan : ℕ)
      → nat_in vlan ids ≡ true
      → (req : NetBridge) → text_eq req.uuid nb_uuid ≡ true
      → hits ids (arbitrary_pvids req) ≤ n
      → (there : Bool) → (b : Bridger S) → Low q n b
      → After q n
          (AfterOne n)
          ((if there then pure nothing else ensure_absent_here host ids vlan req) b)
  one_found n vlan asked req same few true b low = low
  one_found n vlan asked req same few false b low =
      absent_here_after n req same few vlan asked b low

  pub one_after :
      (n vlan : ℕ)
      → nat_in vlan ids ≡ true
      → (b : Bridger S) → Low q n b
      → After q n (AfterOne n) (ensure_one host nb_uuid ids vlan b)
  unfolding ensure_one
  one_after n vlan asked b low = wrapper_after q n (AfterOne n) _ b low λ req e.
      one_found n vlan asked req (find_wrapper-uuid nb_uuid req b.nb_wraps e)
        (subst (AtMost ids n) e low.1) (supports_vlan vlan req) b low
