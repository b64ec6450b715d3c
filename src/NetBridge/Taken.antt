-- ===== src/NetBridge/Taken.antt =====
-- What a network bridge carries after a VLAN was taken from one of its trunk adapters
-- (pypowervm/tasks/network_bridger.py).
use mathlib.Core.Path.{subst}
use pypowervm.Prelude.{
  ℕ, ◌+◌, Bool, true, false, ◌&&◌, Option, none, some, List, [], ◌∷◌, ◌==◌, length, get_elem?,
  nat_in, if◌then◌else◌, ◌≡◌, refl, sym, ◌∙◌, arith,
}
use pypowervm.Exec.{ok}
use pypowervm.NetBridge.{TrunkAdapter, NetBridge, trunk_vlans, list_vlans}
use pypowervm.NetBridge.Trunks.{additional, with_addl, change_at, change}
use pypowervm.NetBridge.Untag.{trunk_in, drop_trunk, take_out, remove_vlan, set_vlans, put_vlans}
use pypowervm.NetBridge.Lists.{count}
use pypowervm.NetBridge.Added.{sea_vlans, on_bridge, count_sea}
use pypowervm.NetBridge.Peers.{HavePriority}
use pypowervm.NetBridge.Fewer.{
  count_dropped, count_removed, count_changed, only_vlan, get-trunk_in, same_trunk_refl,
  dropped-HavePriority, changed-HavePriority,
}

-- The VLAN is once less on the bridge, whose additional adapters keep their priority.
abbrev pub IsWithoutOne : ℕ → ℕ → ℕ → NetBridge → NetBridge → Type 0
IsWithoutOne p w vlan nb x =
    (on_bridge false w x + count w (vlan ∷ []) ≡ on_bridge false w nb)
    × HavePriority p x.first_sea.addl_adpts
    × (x.more_seas ≡ nb.more_seas)

taken_same :
    (t : TrunkAdapter) (nb : NetBridge)
    → trunk_in t nb.first_sea.addl_adpts ≡ true
    → take_out t nb ≡ record nb { first_sea = with_addl (drop_trunk t) nb.first_sea }
unfolding take_out
taken_same t nb h = rw h refl

module _ (p w vlan : ℕ) (nb : NetBridge) (i : ℕ) (t : TrunkAdapter) where
  fewer_there :
      (ts : List TrunkAdapter)
      → count w (trunk_vlans false ts) + count w (vlan ∷ [])
        ≡ count w (trunk_vlans false nb.first_sea.addl_adpts)
      → count w (sea_vlans false (with_addl (λ _. ts) nb.first_sea)) + count w (vlan ∷ [])
        ≡ count w (sea_vlans false nb.first_sea)
  fewer_there ts h = sym (
      count_sea false w (count w (vlan ∷ [])) (with_addl (λ _. ts) nb.first_sea)
        nb.first_sea.addl_adpts (sym h))

  taken_out :
      (x : NetBridge)
      → get_elem? nb.first_sea.addl_adpts i ≡ some t
      → nat_in vlan t.tagged_vlans ≡ true
      → (length t.tagged_vlans == 1) ≡ true
      → HavePriority p nb.first_sea.addl_adpts
      → take_out t nb ≡ x
      → IsWithoutOne p w vlan nb x
  unfolding list_vlans
  taken_out x at has one have same =
      let ts = nb.first_sea.addl_adpts in
      let there = get-trunk_in ts i t at (same_trunk_refl t) in
      subst (IsWithoutOne p w vlan nb) (sym (taken_same t nb there) ∙ same) (
        fewer_there (drop_trunk t ts)
            (omega (arith, count_dropped w t ts there, only_vlan w vlan t.tagged_vlans one has)),
        dropped-HavePriority p t ts have,
        refl,
      )

  changed :
      (vs : List ℕ) (x : NetBridge)
      → get_elem? nb.first_sea.addl_adpts i ≡ some t
      → HavePriority p nb.first_sea.addl_adpts
      → remove_vlan vlan t.tagged_vlans ≡ some vs
      → change (additional i) (set_vlans vs) nb ≡ x
      → IsWithoutOne p w vlan nb x
  unfolding list_vlans change
  changed vs x at have left same = subst (IsWithoutOne p w vlan nb) same (
    fewer_there (change_at i (set_vlans vs) nb.first_sea.addl_adpts) (
        count_changed w vlan i t vs nb.first_sea.addl_adpts at
          (count_removed w vlan t.tagged_vlans vs left)),
    changed-HavePriority p i vs nb.first_sea.addl_adpts have,
    refl,
  )

  pub taken :
      (out can_remove : Bool) (vlans : Option (List ℕ)) (x : NetBridge)
      → get_elem? nb.first_sea.addl_adpts i ≡ some t
      → nat_in vlan t.tagged_vlans ≡ true
      → HavePriority p nb.first_sea.addl_adpts
      → remove_vlan vlan t.tagged_vlans ≡ vlans
      → ((length t.tagged_vlans == 1) && can_remove) ≡ out
      → (if out then ok (take_out t nb) else put_vlans (additional i) vlans nb) ≡ ok x
      → IsWithoutOne p w vlan nb x
  taken true can_remove vlans x at has have left one h =
      taken_out x at has (let alone : (length t.tagged_vlans == 1) ≡ true = ground arith in alone)
        have (let same : take_out t nb ≡ x = ground arith in same)
  taken false can_remove none x at has have left one h = absurd (ground arith)
  taken false can_remove (some vs) x at has have left one h =
      changed vs x at have left
        (let same : change (additional i) (set_vlans vs) nb ≡ x = ground arith in same)
