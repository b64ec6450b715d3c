-- ===== src/NetBridge/Ends.antt =====
-- Ensuring VLANs ends within as many calls of itself as the bridge has arbitrary PVIDs among them
-- (pypowervm/tasks/network_bridger.py).
use pypowervm.Prelude.{
  ℕ, zero, suc, ◌+◌, ◌≤◌, String, Bool, true, List, nat_in, All, ◌≡◌, ◌≢◌, arith,
}
use pypowervm.Exec.{hang}
use pypowervm.NetBridge.{NetBridge, find_wrapper}
use pypowervm.Prelude.Keyed.{nat_key}
use pypowervm.NetBridge.Bridger.{Host, Bridger}
use pypowervm.NetBridge.Synch.{ensure_try, ensure_vlans_on_nb_synch}
use pypowervm.NetBridge.Reads.{Stores, AtMost}
use pypowervm.NetBridge.After.{Stored, IsEnded, not_hung, Asked}
use pypowervm.NetBridge.EachEnds.{try-IsEnded}
use pypowervm.NetBridge.RetriedEnds.{retried-IsEnded}

module _ {S : Type 0} (q : Asked S) where
  open q use {host, feed, st, nb_uuid, ids}

  synch-IsEnded :
      (depth n : ℕ) (across_veas : Bool) (b : Bridger S)
      → n + 1 ≤ depth
      → All (λ v. nat_in v ids ≡ true) ids
      → Stored q n b
      → IsEnded q n (ensure_vlans_on_nb_synch host across_veas depth nb_uuid ids b)
  unfolding ensure_vlans_on_nb_synch
  synch-IsEnded zero n across_veas b deep asked h = absurd (omega arith)
  synch-IsEnded (suc depth) n across_veas b deep asked h =
      let restarted = ensure_vlans_on_nb_synch host across_veas depth nb_uuid ids in
      retried-IsEnded q n (ensure_try host across_veas restarted nb_uuid ids)
        (λ c low.
          try-IsEnded q n across_veas restarted
            (λ k less d s. synch-IsEnded depth k across_veas d (omega arith) asked s) c asked low)
        b h

module _ {S : Type 0} (host : Host S) (feed : S → List NetBridge) (st : Stores host feed)
    (nb_uuid : String) (ids : List ℕ) where
  -- If the host stores what it is sent, and at most n arbitrary PVIDs of the bridge, as the host has
  -- it, are among the VLANs, then ensuring the VLANs ends within n + 1 calls of itself: it returns or
  -- raises.
  pub ensure_vlans_on_nb_synch_ends :
      (depth n : ℕ) (across_veas : Bool) (b : Bridger S)
      → n + 1 ≤ depth
      → All (λ v. nat_in v ids ≡ true) ids
      → AtMost ids n (find_wrapper nb_uuid (feed b.world))
      → (ensure_vlans_on_nb_synch host across_veas depth nb_uuid ids b).0 ≢ hang
  ensure_vlans_on_nb_synch_ends depth n across_veas b deep asked h =
      let q : Asked S = record {
        host = host;
        feed = feed;
        st = st;
        nb_uuid = nb_uuid;
        ids = ids;
      } in
      let run = ensure_vlans_on_nb_synch host across_veas depth nb_uuid ids b in
      not_hung q n run.0 run.1 (synch-IsEnded q depth n across_veas b deep asked h)
