-- ===== src/NetBridge/Added.antt =====
-- What a network bridge carries after VLANs were added to it (pypowervm/tasks/network_bridger.py).
use pypowervm.Prelude.{
  ℕ, zero, suc, ◌+◌, Bool, true, false, Option, none, some, List, [], ◌∷◌, ◌++◌, get_elem?, nat_in,
  if◌then◌else◌, inl, inr, ◌⊎◌, ◌≡◌, refl, sym, ◌∙◌, ap, arith,
}
use pypowervm.Exec.{ok, pure}
use pypowervm.NetBridge.{TrunkAdapter, Sea, NetBridge, vswitch_id_of, trunk_vlans, list_vlans}
use pypowervm.NetBridge.Trunks.{
  Place, with_addl, change_at, change_each, trunk_list, find_available_trunks, tag, append_trunk,
  with_trunk,
}
use pypowervm.NetBridge.Bridger.{Host, Bridger, vid_or_raise, get_orphan_vlans, add_at, add_vlan}
use pypowervm.NetBridge.Lists.{count, count-append, nat_in-append, or_false_left}
use pypowervm.NetBridge.NewVid.{find_new_arbitrary_vid-unused}
use pypowervm.Exec.Returns.{>>=-returns}
use pypowervm.NetBridge.Placed.{HasRoom, available_place, first_sea-change_each}

-- The VLANs of a bridge's first SEA, with the arbitrary PVIDs or without.
abbrev pub sea_vlans : Bool → Sea → List ℕ
sea_vlans arbitrary sea =
    (sea.primary_adpt.pvid ∷ [])
    ++ sea.primary_adpt.tagged_vlans
    ++ trunk_vlans arbitrary sea.addl_adpts

pub list_vlans-sea_vlans :
    (arbitrary : Bool) (nb : NetBridge)
    → list_vlans true arbitrary nb ≡ sea_vlans arbitrary nb.first_sea
unfolding list_vlans
list_vlans-sea_vlans arbitrary nb = refl

-- How often the VLAN is on the bridge.
abbrev pub on_bridge : Bool → ℕ → NetBridge → ℕ
on_bridge arbitrary w nb = count w (list_vlans true arbitrary nb)

abbrev pvid_of : Bool → TrunkAdapter → List ℕ
pvid_of arbitrary t = if arbitrary then t.pvid ∷ [] else []

pub count_trunks :
    (arbitrary : Bool) (w : ℕ) (t : TrunkAdapter) (ts : List TrunkAdapter)
    → count w (trunk_vlans arbitrary (t ∷ ts))
      ≡ count w (pvid_of arbitrary t) + count w t.tagged_vlans + count w (trunk_vlans arbitrary ts)
unfolding trunk_vlans
count_trunks arbitrary w t ts =
    let rest = trunk_vlans arbitrary ts in
    count-append w (pvid_of arbitrary t ++ t.tagged_vlans) rest
    ∙ omega (arith, count-append w (pvid_of arbitrary t) t.tagged_vlans)

pub count_tagged :
    (arbitrary : Bool) (w v i : ℕ) (t : TrunkAdapter) (ts : List TrunkAdapter)
    → get_elem? ts i ≡ some t
    → count w (trunk_vlans arbitrary (change_at i (tag v) ts))
      ≡ count w (trunk_vlans arbitrary ts) + count w (v ∷ [])
unfolding change_at
count_tagged arbitrary w v i t [] h = absurd (ground arith)
count_tagged arbitrary w v zero t (u ∷ us) h =
    count_trunks arbitrary w (tag v u) us
    ∙ omega (arith, count_trunks arbitrary w u us, count-append w u.tagged_vlans (v ∷ []))
count_tagged arbitrary w v (suc i) t (u ∷ us) h =
    count_trunks arbitrary w u (change_at i (tag v) us)
    ∙ omega (arith, count_trunks arbitrary w u us, count_tagged arbitrary w v i t us h)

pub count_built :
    (arbitrary : Bool) (w : ℕ) (ts : List TrunkAdapter) (u : TrunkAdapter)
    → count w (trunk_vlans arbitrary (ts ++ u ∷ []))
      ≡ count w (trunk_vlans arbitrary ts)
        + (count w (pvid_of arbitrary u) + count w u.tagged_vlans)
count_built arbitrary w [] u =
    let empty : count w (trunk_vlans arbitrary []) ≡ 0 = unfold count trunk_vlans in refl in
    count_trunks arbitrary w u [] ∙ omega (arith, empty)
count_built arbitrary w (t ∷ ts) u =
    count_trunks arbitrary w t (ts ++ u ∷ [])
    ∙ omega (arith, count_trunks arbitrary w t ts, count_built arbitrary w ts u)

-- More VLANs on the additional adapters are more on the SEA.
pub count_sea :
    (arbitrary : Bool) (w n : ℕ) (sea : Sea) (ts : List TrunkAdapter)
    → count w (trunk_vlans arbitrary ts) ≡ count w (trunk_vlans arbitrary sea.addl_adpts) + n
    → count w (sea_vlans arbitrary (with_addl (λ _. ts) sea))
      ≡ count w (sea_vlans arbitrary sea) + n
count_sea arbitrary w n sea ts h =
    let first = (sea.primary_adpt.pvid ∷ []) ++ sea.primary_adpt.tagged_vlans in
    count-append w first (trunk_vlans arbitrary ts)
    ∙ omega (arith, h, count-append w first (trunk_vlans arbitrary sea.addl_adpts))

-- What is added to the bridge with a VLAN: it, and an unused arbitrary PVID where a trunk adapter
-- is built.
abbrev pub IsTagged : NetBridge → ℕ → Sea → Type 0
IsTagged nb v sea =
    (i : ℕ) × (t : TrunkAdapter) × HasRoom nb.first_sea.addl_adpts (i, t)
    × (sea ≡ with_addl (change_at i (tag v)) nb.first_sea)

abbrev pub IsBuilt : NetBridge → List ℕ → ℕ → Sea → Type 0
IsBuilt nb new_vlans v sea =
    (arb_vid : ℕ) × (switch_id : ℕ) × (nat_in arb_vid (list_vlans true true nb) ≡ false)
    × (nat_in arb_vid new_vlans ≡ false)
    × (sea ≡ append_trunk arb_vid v switch_id nb.first_sea)

pub pure_same : {S E A : Type 0} (a b : A) (s t : S) → pure {S = S} {E = E} a s ≡ (ok b, t) → a ≡ b
pure_same a b s t h = ground arith

vid_found :
    {S : Type 0} (o : Option ℕ) (b : Bridger S) (vid : ℕ)
    → (vid_or_raise o b).0 ≡ ok vid
    → o ≡ some vid
vid_found none b vid h = absurd (ground arith)
vid_found (some v) b vid h = ground arith

module _ {S : Type 0} (host : Host S) (switch_id : ℕ) (peers : List NetBridge) (new_vlans : List ℕ)
    (nb : NetBridge) (v : ℕ) (nb' : NetBridge) (b c : Bridger S) where
  add_at-IsBuilt :
      add_at host switch_id peers new_vlans nb v none b ≡ (ok nb', c)
      → IsBuilt nb new_vlans v nb'.first_sea
  unfolding add_at with_trunk
  add_at-IsBuilt h =
      let (orphans, _, h1) = >>=-returns (get_orphan_vlans host (vswitch_id_of nb)) _ b nb' c h in
      let (vid, found, h2) = >>=-returns (vid_or_raise _) _ _ nb' c h1 in
      let unused =
        find_new_arbitrary_vid-unused (nb ∷ peers) (new_vlans ++ orphans) vid
          (vid_found _ _ vid found) in
      (
        vid,
        switch_id,
        unused.0.0,
        or_false_left _ _ (sym (nat_in-append vid new_vlans orphans) ∙ unused.1),
        sym (ap (λ x. x.first_sea) (pure_same _ _ _ _ h2)),
      )

  add_at-IsTagged :
      (places : List Place)
      → ((i : ℕ) × (t : TrunkAdapter) × HasRoom nb.first_sea.addl_adpts (i, t)
          × (some places ≡ some (trunk_list nb i t)))
      → add_at host switch_id peers new_vlans nb v (some places) b ≡ (ok nb', c)
      → IsTagged nb v nb'.first_sea
  unfolding add_at
  add_at-IsTagged places (i, t, room, same) h =
      let same_places : places ≡ trunk_list nb i t = ground arith in
      (
        i,
        t,
        room,
        sym (ap (λ x. x.first_sea) (pure_same _ _ _ _ h))
            ∙ ap (λ ps. (change_each ps (tag v) nb).first_sea) same_places
            ∙ first_sea-change_each i t (tag v) nb,
      )

  added_at :
      (across_veas : Bool) (o : Option (List Place))
      → find_available_trunks across_veas nb ≡ o
      → add_at host switch_id peers new_vlans nb v o b ≡ (ok nb', c)
      → IsTagged nb v nb'.first_sea ⊎ IsBuilt nb new_vlans v nb'.first_sea
  added_at across_veas none e h = inr (add_at-IsBuilt h)
  added_at across_veas (some places) e h =
      inl (add_at-IsTagged places (available_place across_veas nb places e) h)

  pub add_vlan-shape :
      (across_veas : Bool)
      → add_vlan host across_veas switch_id peers new_vlans nb v b ≡ (ok nb', c)
      → IsTagged nb v nb'.first_sea ⊎ IsBuilt nb new_vlans v nb'.first_sea
  unfolding add_vlan
  add_vlan-shape across_veas h = added_at across_veas (find_available_trunks across_veas nb) refl h
