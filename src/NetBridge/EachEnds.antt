-- ===== src/NetBridge/EachEnds.antt =====
-- The loop over the VLANs, and a try of ensuring them, end (pypowervm/tasks/network_bridger.py).
use mathlib.Core.Path.{subst}
use pypowervm.Prelude.{
  ℕ, ◌+◌, ◌≤◌, Bool, true, false, Option, none, some, List, [], ◌∷◌, ◌++◌, nat_in, All, inl, inr,
  ◌≡◌, sym, arith,
}
use pypowervm.Exec.{Result, ok, err, hang, continue, ◌>>=◌}
use pypowervm.Exec.Keeps.{Keeps, pure-Keeps, >>=-Keeps}
use pypowervm.Retry.{Exn}
use pypowervm.NetBridge.{
  NetBridge, vswitch_id_of, find_wrapper, find_peer_nbs, find_new_arbitrary_vid,
}
use pypowervm.Prelude.Keyed.{nat_key}
use pypowervm.NetBridge.Ensured.{refreshed}
use pypowervm.NetBridge.Trunks.{Place, find_available_trunks}
use pypowervm.NetBridge.Bridger.{
  BridgeError, Bridger, Act, on_world, vid_or_raise, get_orphan_vlans, update_nb, store, add_at,
  add_vlan, add_each, add_vlans_to_nb,
}
use pypowervm.NetBridge.Synch.{
  Need, nothing, place, restart, ensure_one, ensure_each, place_vlans, finish, ensure_read,
  ensure_try,
}
use pypowervm.NetBridge.Reads.{
  Result-cases, AtMost, on_world-Keeps, get_orphan_vlans-Keeps, vid_or_raise-Keeps,
}
use pypowervm.NetBridge.After.{
  Stored, Low, After, Fewer, after, wrapper_after, IsEnded, weaker, Asked,
}
use pypowervm.NetBridge.Restarts.{AfterOne, one_after}

module _ {S : Type 0} (q : Asked S) where
  open q use {host, feed, st, nb_uuid, ids}

  -- What is left after q the loop over the VLANs.
  abbrev AfterEach : ℕ → Option (List ℕ) → Bridger S → Type 0
  AfterEach n none b = Fewer q n b
  AfterEach n (some vs) b = Low q n b

  next_after :
      (n : ℕ) (r : Result (Exn BridgeError) Need) (c : Bridger S)
      (f : Need → Act S (Option (List ℕ)))
      → After q n (AfterOne q n) (r, c)
      → (Low q n c → After q n (AfterEach n) (f nothing c))
      → (Low q n c → After q n (AfterEach n) (f place c))
      → (Fewer q n c → After q n (AfterEach n) (f restart c))
      → After q n (AfterEach n) (continue r f c)
  next_after n (ok nothing) c f h x y z = x h
  next_after n (ok place) c f h x y z = y h
  next_after n (ok restart) c f h x y z = z h
  next_after n (err e) c f h x y z = h
  next_after n hang c f h x y z = h

  each_after :
      (n : ℕ) (vs new_vlans : List ℕ)
      → All (λ v. nat_in v ids ≡ true) vs
      → (b : Bridger S) → Low q n b
      → After q n (AfterEach n) (ensure_each host nb_uuid ids new_vlans vs b)
  unfolding ensure_each
  each_after n [] new_vlans h b low = low
  each_after n (v ∷ vs) new_vlans (h, hs) b low =
      next_after n (ensure_one host nb_uuid ids v b).0 (ensure_one host nb_uuid ids v b).1 _
        (one_after q n v h b low) (each_after n vs new_vlans hs _)
        (each_after n vs (new_vlans ++ v ∷ []) hs _) (λ f. f)

  add_at-Keeps :
      (n switch_id : ℕ) (peers : List NetBridge) (new_vlans : List ℕ) (nb : NetBridge) (v : ℕ)
      (o : Option (List Place))
      → Keeps (Low q n) (add_at host switch_id peers new_vlans nb v o)
  unfolding add_at
  add_at-Keeps n switch_id peers new_vlans nb v (some ps) = pure-Keeps (Low q n) _
  add_at-Keeps n switch_id peers new_vlans nb v none =
      >>=-Keeps (Low q n) (get_orphan_vlans host (vswitch_id_of nb)) _
        (get_orphan_vlans-Keeps host feed st nb_uuid ids n (vswitch_id_of nb))
        λ orphans.
          >>=-Keeps (Low q n)
            (vid_or_raise (find_new_arbitrary_vid (nb ∷ peers) (new_vlans ++ orphans))) _
            (vid_or_raise-Keeps host feed st nb_uuid ids n _) λ vid. pure-Keeps (Low q n) _

  -- Adding the VLANs keeps the bound, since only the wrapper that is returned changes.
  add_each-Keeps :
      (n : ℕ) (across_veas : Bool) (switch_id : ℕ) (peers : List NetBridge) (new_vlans vs : List ℕ)
      (nb : NetBridge)
      → Keeps (Low q n) (add_each host across_veas switch_id peers new_vlans nb vs)
  unfolding add_each add_vlan
  add_each-Keeps n across_veas switch_id peers new_vlans [] nb = pure-Keeps (Low q n) nb
  add_each-Keeps n across_veas switch_id peers new_vlans (v ∷ vs) nb =
      >>=-Keeps (Low q n) (add_at host switch_id peers new_vlans nb v _) _
        (add_at-Keeps n switch_id peers new_vlans nb v (find_available_trunks across_veas nb))
        λ x. add_each-Keeps n across_veas switch_id peers new_vlans vs x

  update-IsEnded :
      (n : ℕ) (x : NetBridge) (b : Bridger S) → Low q n b → IsEnded q n (update_nb host x b)
  unfolding update_nb store
  update-IsEnded n x b low = elim (Result-cases (host.update x b.world).0) [
    | inl (a, e) ↦ rw e tt
    | inr (inl (er, e)) ↦ rw e (
        subst (λ nbs. AtMost ids n (find_wrapper nb_uuid nbs)) (sym (st.update_err x b.world er e))
          low.0)
    | inr (inr e) ↦ absurd (st.update_end x b.world e)
  ]

  place-IsEnded :
      (n : ℕ) (across_veas : Bool) (vs : List ℕ) (b : Bridger S)
      → Low q n b
      → IsEnded q n (place_vlans host across_veas nb_uuid vs b)
  unfolding place_vlans add_vlans_to_nb
  place-IsEnded n across_veas [] b low = tt
  place-IsEnded n across_veas (v ∷ vs) b low =
      wrapper_after q n (λ _ c. Unit {0}) _ b low
        λ req e.
          after q n (λ _ c. Unit {0})
            (add_vlans_to_nb host across_veas req (find_peer_nbs b.nb_wraps req false) (v ∷ vs)) _
            (>>=-Keeps (Low q n) (on_world (host.search_vswitch (vswitch_id_of req))) _
              (on_world-Keeps host feed st nb_uuid ids n (host.search_vswitch (vswitch_id_of req))
                (st.search_end (vswitch_id_of req)) (st.search_keep (vswitch_id_of req)))
              (λ i.
                add_each-Keeps n across_veas i (find_peer_nbs b.nb_wraps req false) (v ∷ vs)
                  (v ∷ vs) req))
            (λ x c low'. update-IsEnded n x c low') b low

  module _ (n : ℕ) (across_veas : Bool) (restarted : Act S (Unit {0}))
      (ends : (k : ℕ)
        → k + 1 ≤ n
        → (b : Bridger S) → Stored q k b
        → IsEnded q k (restarted b)) where
    each-IsEnded :
        (r : Result (Exn BridgeError) (Option (List ℕ))) (c : Bridger S)
        → After q n (AfterEach n) (r, c)
        → IsEnded q n (continue r (λ found. finish host across_veas restarted nb_uuid found) c)
    unfolding finish
    each-IsEnded (ok none) c (k, less, h) =
        weaker q k n (restarted c).0 (restarted c).1 (omega arith) (ends k less c h)
    each-IsEnded (ok (some vs)) c h = place-IsEnded n across_veas vs c h
    each-IsEnded (err e) c h = h
    each-IsEnded hang c h = h

    pub try-IsEnded :
        (b : Bridger S)
        → All (λ v. nat_in v ids ≡ true) ids
        → Stored q n b
        → IsEnded q n (ensure_try host across_veas restarted nb_uuid ids b)
    unfolding ensure_try ensure_read
    try-IsEnded b asked h =
        let c : Bridger S = record b { nb_wraps = feed b.world } in
        let each : Act S (Option (List ℕ)) = ensure_each host nb_uuid ids [] ids in
        let next : Act S (Unit {0}) =
          each >>= λ found. finish host across_veas restarted nb_uuid found in
        let later : IsEnded q n (ensure_read host across_veas restarted nb_uuid ids c) =
          wrapper_after q n (λ _ x. Unit {0}) (λ _. next) c (h, h)
            λ req e. each-IsEnded (each c).0 (each c).1 (each_after n ids [] asked c (h, h)) in
        subst
          (λ r.
            IsEnded q n
              (continue r.0 (λ _. ensure_read host across_veas restarted nb_uuid ids) r.1))
          (sym (refreshed host b (feed b.world) b.world (st.get_ok b.world))) later
