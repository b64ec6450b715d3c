-- ===== src/NetBridge/Placed.antt =====
-- What the first Shared Ethernet Adapter is after a VLAN was put on a network bridge
-- (pypowervm/tasks/network_bridger.py).
use mathlib.Core.Path.{subst}
use pypowervm.Prelude.{
  ℕ, suc, ◌+◌, ◌<◌, Bool, true, false, Option, none, some, List, [], ◌∷◌, ltb, ltb→lt, length,
  get_elem?, if◌then◌else◌, ◌≡◌, refl, sym, arith,
}
use pypowervm.NetBridge.{TrunkAdapter, Sea, NetBridge, max_vlans_per_vea}
use pypowervm.NetBridge.Trunks.{
  Place, additional, with_addl, change_at, change, change_each, find_peer_trunk, trunk_list, Least,
  is_better, least_used, find_available_trunks,
}

-- The i-th of the trunk adapters, with room for one more VLAN.
abbrev pub HasRoom : List TrunkAdapter → ℕ × TrunkAdapter → Type 0
HasRoom ts (i, t) = (get_elem? ts i ≡ some t) × (length t.tagged_vlans < max_vlans_per_vea)

module _ (P : ℕ × TrunkAdapter → Type 0) where
  abbrev Chosen : Option (ℕ × TrunkAdapter) → Type 0
  Chosen none = Unit
  Chosen (some x) = P x

  better_next :
      (i : ℕ) (t : TrunkAdapter) (cur : Option (ℕ × TrunkAdapter)) (better : Bool)
      → P (i, t)
      → Chosen cur
      → Chosen (if better then some (i, t) else cur)
  better_next i t cur true p c = p
  better_next i t cur false p c = c

  either_way :
      (b : Bool) (x y : Least)
      → (b ≡ true → Chosen x.0)
      → (b ≡ false → Chosen y.0)
      → Chosen (if b then x else y).0
  either_way true x y f g = f refl
  either_way false x y f g = g refl

  least_used-Chosen :
      (i : ℕ) (ts : List TrunkAdapter) (found : Least)
      → ((k : ℕ) (t : TrunkAdapter) → HasRoom ts (k, t) → P (i + k, t))
      → Chosen found.0
      → Chosen (least_used i ts found).0
  unfolding least_used
  least_used-Chosen i [] found h c = c
  least_used-Chosen i (t ∷ ts) (cur, n) h c =
      least_used-Chosen (suc i) ts _ (λ k u r. subst (λ x. P (x, u)) (omega arith) (h (suc k) u r))
        (either_way (ltb (length t.tagged_vlans) max_vlans_per_vea) _ _
          (λ room.
            better_next i t cur (is_better t cur)
              (subst (λ x. P (x, t)) (omega arith) (h 0 t (refl, ltb→lt _ _ room))) c)
          (λ full. c))

-- The trunk adapter that is chosen has room.
pub least_used-HasRoom :
    (ts : List TrunkAdapter) → Chosen (HasRoom ts) (least_used 0 ts (none, 0)).0
least_used-HasRoom ts =
    least_used-Chosen (HasRoom ts) 0 ts (none, 0)
      (λ k t r. subst (λ i. HasRoom ts (i, t)) (omega arith) r) tt

picked_place :
    (nb : NetBridge) (trunks : Option (ℕ × TrunkAdapter)) (stop balance : Bool)
    (places : List Place)
    → Chosen (HasRoom nb.first_sea.addl_adpts) trunks
    → (if stop then none else elim trunks [
      | none ↦ none
      | some (i, t) ↦ (if balance then none else some (trunk_list nb i t))
    ])
      ≡ some places
    → (i : ℕ) × (t : TrunkAdapter) × HasRoom nb.first_sea.addl_adpts (i, t)
      × (some places ≡ some (trunk_list nb i t))
picked_place nb trunks true balance places c h = absurd (ground arith)
picked_place nb none false balance places c h = absurd (ground arith)
picked_place nb (some (i, t)) false true places c h = absurd (ground arith)
picked_place nb (some (i, t)) false false places c h = (i, t, c, sym h)

-- The places that find_available_trunks returns are those of one trunk adapter with room and its
-- peer.
pub available_place :
    (across_veas : Bool) (nb : NetBridge) (places : List Place)
    → find_available_trunks across_veas nb ≡ some places
    → (i : ℕ) × (t : TrunkAdapter) × HasRoom nb.first_sea.addl_adpts (i, t)
      × (some places ≡ some (trunk_list nb i t))
unfolding find_available_trunks
available_place across_veas nb places h =
    picked_place nb _ _ _ places (least_used-HasRoom nb.first_sea.addl_adpts) h

-- What is done at a trunk adapter's peer leaves the first SEA as it is.
peers_keep :
    (ss : List Sea) (pvid : ℕ) (f : TrunkAdapter → TrunkAdapter) (nb : NetBridge)
    → (change_each (find_peer_trunk ss pvid) f nb).first_sea ≡ nb.first_sea
unfolding find_peer_trunk change_each change
peers_keep [] pvid f nb = refl
peers_keep (s ∷ ss) pvid f nb = ground arith

pub first_sea-change_each :
    (i : ℕ) (t : TrunkAdapter) (f : TrunkAdapter → TrunkAdapter) (nb : NetBridge)
    → (change_each (trunk_list nb i t) f nb).first_sea ≡ with_addl (change_at i f) nb.first_sea
unfolding trunk_list change_each change
first_sea-change_each i t f nb = peers_keep nb.more_seas t.pvid f (change (additional i) f nb)
