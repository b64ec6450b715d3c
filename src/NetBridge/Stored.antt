-- ===== src/NetBridge/Stored.antt =====
-- A host that keeps its bridges (pypowervm/tasks/network_bridger.py).
use pypowervm.Prelude.{false, none, List, [], ◌∷◌, nat_in, ◌≢◌, refl, arith}
use pypowervm.Exec.{ok, hang}
use pypowervm.NetBridge.{NetBridge, find_wrapper, put_wrapper}
use pypowervm.NetBridge.Bridger.{Host, Bridger}
use pypowervm.NetBridge.Synch.{ensure_vlans_on_nb_synch}
use pypowervm.NetBridge.Reads.{Stores}
use pypowervm.NetBridge.Ends.{ensure_vlans_on_nb_synch_ends}
use pypowervm.NetBridge.Examples.{bridges}

abbrev keeper : Host (List NetBridge)
unfolding put_wrapper
keeper = record {
  get_bridges = λ w. (ok w, w);
  get_vioses = λ w. (ok [], w);
  search_vswitch = λ i w. (ok i, w);
  update = λ nb w. (ok tt, put_wrapper nb w);
  sleep = λ t n w. (ok tt, w);
  acquire = λ w. (ok tt, w);
  release = λ w. w;
}

keeper-Stores : Stores keeper (λ w. w)
unfolding keeper
keeper-Stores = record {
  get_ok = λ w. refl;
  vioses_end = λ w h. ground arith;
  vioses_keep = λ w. refl;
  search_end = λ i w h. ground arith;
  search_keep = λ i w. refl;
  sleep_end = λ t n w h. ground arith;
  sleep_keep = λ t n w. refl;
  update_end = λ nb w h. ground arith;
  update_ok = λ nb w h. refl;
  update_err = λ nb w e h. absurd (ground arith);
}

abbrev kept : Bridger (List NetBridge)
kept = record { world = bridges; nb_wraps = []; orphan_map = none }

-- 4094 is an arbitrary PVID of the bridge.
ensure_vlans_on_nb_synch_ends_example :
    (ensure_vlans_on_nb_synch keeper false 2 "nb1" (4094 ∷ 102 ∷ []) kept).0 ≢ hang
unfolding find_wrapper nat_in
ensure_vlans_on_nb_synch_ends_example =
    ensure_vlans_on_nb_synch_ends keeper (λ w. w) keeper-Stores "nb1" (4094 ∷ 102 ∷ []) 2 1 false
      kept (omega arith) (refl, (refl, tt)) (omega arith)
