-- ===== src/NetBridge/Removed.antt =====
-- What a network bridge carries after a VLAN was removed from it
-- (pypowervm/tasks/network_bridger.py).
use mathlib.Core.Path.{subst}
use pypowervm.Prelude.{
  ℕ, zero, suc, ◌+◌, Bool, true, false, some, List, [], ◌∷◌, get_elem?, nat_in, Bool-cases,
  Option-cases, inl, inr, ◌≡◌, refl, sym, ◌∙◌, ap, arith,
}
use pypowervm.Exec.{ok}
use pypowervm.NetBridge.{TrunkAdapter, NetBridge, list_vlans}
use pypowervm.NetBridge.Trunks.{Place, additional, position, trunk_list, trunk_at}
use pypowervm.NetBridge.Untag.{
  take_from, take_each, has_vlan, matching_tas, can_remove_for_lb, remove_vlan_from_nb,
}
use pypowervm.NetBridge.Lists.{count}
use pypowervm.NetBridge.Added.{sea_vlans, on_bridge}
use pypowervm.NetBridge.Taken.{taken}
use pypowervm.NetBridge.Peers.{HavePriority, HaveOther, take_each-first, peers_keep_first}

-- What matching_tas finds.
found_place :
    (pred : TrunkAdapter → Bool) (k : ℕ) (ts : List TrunkAdapter) (i : ℕ)
    → position pred k ts ≡ some i
    → (j : ℕ) × (t : TrunkAdapter) × (i ≡ k + j) × (get_elem? ts j ≡ some t) × (pred t ≡ true)
unfolding position
found_place pred k [] i h = absurd (ground arith)
found_place pred k (u ∷ us) i h = elim (Bool-cases (pred u)) [
  | inl e ↦ (zero, u, (let same : k ≡ i = ground arith in omega arith), refl, e)
  | inr e ↦
      (let (j, t, at, got, good) =
          found_place pred (suc k) us i
            (let later : position pred (suc k) us ≡ some i = ground arith in later) in
        (suc j, t, omega arith, got, good))
]

pub matched_place :
    (pred : TrunkAdapter → Bool) (nb : NetBridge) (places : List Place)
    → matching_tas pred nb ≡ some places
    → (i : ℕ) × (t : TrunkAdapter) × (get_elem? nb.first_sea.addl_adpts i ≡ some t)
      × (pred t ≡ true)
      × (trunk_list nb i t ≡ places)
unfolding matching_tas
matched_place pred nb places h = elim (Option-cases (position pred 0 nb.first_sea.addl_adpts)) [
  | inl e ↦ absurd (ground arith)
  | inr (i, e) ↦
      (let (j, t, same, got, good) = found_place pred 0 nb.first_sea.addl_adpts i e in
        let at : i ≡ j = omega arith in
        let got_i : get_elem? nb.first_sea.addl_adpts i ≡ some t =
          ap (λ k. get_elem? nb.first_sea.addl_adpts k) at ∙ got in
        (i, t, got_i, good, ground arith))
]

take_each_removes :
    (p w vlan : ℕ) (can_remove : Bool) (nb nb' : NetBridge) (i : ℕ) (t : TrunkAdapter)
    → get_elem? nb.first_sea.addl_adpts i ≡ some t
    → nat_in vlan t.tagged_vlans ≡ true
    → HavePriority p nb.first_sea.addl_adpts
    → HaveOther p nb.more_seas
    → take_each vlan can_remove (trunk_list nb i t) nb ≡ ok nb'
    → on_bridge false w nb' + count w (vlan ∷ []) ≡ on_bridge false w nb
unfolding trunk_list
take_each_removes p w vlan can_remove nb nb' i t at has have other h =
    let (x, h1, h2) = take_each-first vlan can_remove (additional i) _ nb nb' h in
    let first_at : trunk_at (additional i) nb ≡ some t = unfold trunk_at in at in
    let (less, have', more) =
      taken p w vlan nb i t _ can_remove _ x at has have refl refl
        (ap (λ o. take_from vlan can_remove (additional i) o nb) (sym first_at) ∙ h1) in
    let kept =
      peers_keep_first p vlan t.pvid can_remove nb.more_seas x nb' have'
        (subst (HaveOther p) (sym more) other) h2 in
    let same : on_bridge false w nb' ≡ on_bridge false w x =
      unfold list_vlans in ap (λ s. count w (sea_vlans false s)) kept in
    omega (arith, less, same)

-- If the additional trunk adapters of the first SEA all have one trunk priority and no trunk adapter
-- of another SEA has it, then _remove_vlan_from_nb, where it returns, takes the VLAN once off what
-- the bridge carries and leaves every other VLAN.
pub remove_vlan_from_nb-count :
    (p w vlan : ℕ) (nb nb' : NetBridge)
    → HavePriority p nb.first_sea.addl_adpts
    → HaveOther p nb.more_seas
    → remove_vlan_from_nb vlan nb ≡ ok nb'
    → on_bridge false w nb' + count w (vlan ∷ []) ≡ on_bridge false w nb
unfolding remove_vlan_from_nb
remove_vlan_from_nb-count p w vlan nb nb' have other h =
    elim (Option-cases (matching_tas (has_vlan vlan) nb)) [
      | inl e ↦ absurd (ground arith)
      | inr (places, e) ↦
          (let (i, t, at, has, same) = matched_place (has_vlan vlan) nb places e in
            let all : take_each vlan (can_remove_for_lb nb) places nb ≡ ok nb' = ground arith in
            take_each_removes p w vlan (can_remove_for_lb nb) nb nb' i t at has have other
              (ap (λ ps. take_each vlan (can_remove_for_lb nb) ps nb) same ∙ all))
    ]
