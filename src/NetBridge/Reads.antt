-- ===== src/NetBridge/Reads.antt =====
-- Reading from the host and waiting leave the bridges as they are (pypowervm/tasks/network_bridger.py).
use mathlib.Core.Path.{subst}
use pypowervm.Prelude.{ℕ, ◌≤◌, String, Option, none, some, List, inl, inr, ◌⊎◌, ◌≡◌, ◌≢◌, refl, sym}
use pypowervm.Exec.{Exec, Result, ok, err, hang}
use pypowervm.Exec.Keeps.{Keeps, pure-Keeps, raise-Keeps, >>=-Keeps}
use pypowervm.Retry.{Exn}
use pypowervm.NetBridge.{NetBridge, arbitrary_pvids, find_wrapper, put_wrapper}
use pypowervm.NetBridge.Orphans.{OrphanMap}
use pypowervm.NetBridge.Bridger.{
  BridgeError, Host, Bridger, on_world, vid_or_raise, built, get_or_build, get_orphan_map,
  get_orphan_vlans,
}
use pypowervm.NetBridge.Uuids.{hits}

-- A host whose requests all end, whose bridges are `feed` of its state, and where an update that
-- succeeds replaces the bridge with the UUID and nothing else changes the bridges.
pub record Stores {S : Type 0} (host : Host S) (feed : S → List NetBridge) : Type 0 where
  pub get_ok : (w : S) → host.get_bridges w ≡ (ok (feed w), w)
  pub vioses_end : (w : S) → (host.get_vioses w).0 ≢ hang
  pub vioses_keep : (w : S) → feed (host.get_vioses w).1 ≡ feed w
  pub search_end : (i : ℕ) (w : S) → (host.search_vswitch i w).0 ≢ hang
  pub search_keep : (i : ℕ) (w : S) → feed (host.search_vswitch i w).1 ≡ feed w
  pub sleep_end : (t n : ℕ) (w : S) → (host.sleep t n w).0 ≢ hang
  pub sleep_keep : (t n : ℕ) (w : S) → feed (host.sleep t n w).1 ≡ feed w
  pub update_end : (nb : NetBridge) (w : S) → (host.update nb w).0 ≢ hang
  pub update_ok :
      (nb : NetBridge) (w : S)
      → (host.update nb w).0 ≡ ok tt
      → feed (host.update nb w).1 ≡ put_wrapper nb (feed w)
  pub update_err :
      (nb : NetBridge) (w : S) (e : Exn BridgeError)
      → (host.update nb w).0 ≡ err e
      → feed (host.update nb w).1 ≡ feed w

pub Result-cases :
    {E A : Type 0} (r : Result E A)
    → ((a : A) × (r ≡ ok a)) ⊎ (((e : E) × (r ≡ err e)) ⊎ (r ≡ hang))
Result-cases (ok a) = inl (a, refl)
Result-cases (err e) = inr (inl (e, refl))
Result-cases hang = inr (inr refl)

-- At most n arbitrary PVIDs of the bridge, where there is one, are among the VLANs.
abbrev pub AtMost : List ℕ → ℕ → Option NetBridge → Type 0
AtMost ids n none = Unit
AtMost ids n (some nb) = hits ids (arbitrary_pvids nb) ≤ n

module _ {S : Type 0} (host : Host S) (feed : S → List NetBridge) (st : Stores host feed)
    (nb_uuid : String) (ids : List ℕ) (n : ℕ) where
  -- Of the bridge as the host has it, and of its wrapper too.
  abbrev pub IsStored : Bridger S → Type 0
  IsStored b = AtMost ids n (find_wrapper nb_uuid (feed b.world))

  abbrev pub IsLow : Bridger S → Type 0
  IsLow b = IsStored b × AtMost ids n (find_wrapper nb_uuid b.nb_wraps)

  same_feed :
      (v w : S)
      → feed v ≡ feed w
      → AtMost ids n (find_wrapper nb_uuid (feed w))
      → AtMost ids n (find_wrapper nb_uuid (feed v))
  same_feed v w h k = subst (λ nbs. AtMost ids n (find_wrapper nb_uuid nbs)) (sym h) k

  pub on_world-Keeps :
      {A : Type 0} (m : Exec S (Exn BridgeError) A)
      → ((w : S) → (m w).0 ≢ hang)
      → ((w : S) → feed (m w).1 ≡ feed w)
      → Keeps IsLow (on_world m)
  on_world-Keeps m ends keeps b (h, k) =
      (ends b.world, (same_feed (m b.world).1 b.world (keeps b.world) h, k))

  get_or_build-Keeps : (o : Option OrphanMap) → Keeps IsLow (get_or_build host o)
  unfolding get_or_build built
  get_or_build-Keeps none =
      >>=-Keeps IsLow (on_world host.get_vioses) _
        (on_world-Keeps host.get_vioses st.vioses_end st.vioses_keep) λ vs b h. (λ e. cc, h)
  get_or_build-Keeps (some m) = pure-Keeps IsLow m

  pub get_orphan_map-Keeps : Keeps IsLow (get_orphan_map host)
  unfolding get_orphan_map
  get_orphan_map-Keeps b h = get_or_build-Keeps b.orphan_map b h

  pub get_orphan_vlans-Keeps : (i : ℕ) → Keeps IsLow (get_orphan_vlans host i)
  unfolding get_orphan_vlans
  get_orphan_vlans-Keeps i =
      >>=-Keeps IsLow (get_orphan_map host) _ get_orphan_map-Keeps λ m. pure-Keeps IsLow _

  pub vid_or_raise-Keeps : (o : Option ℕ) → Keeps IsLow (vid_or_raise o)
  vid_or_raise-Keeps none = raise-Keeps IsLow _
  vid_or_raise-Keeps (some v) = pure-Keeps IsLow v
