-- ===== src/NetBridge/Carried.antt =====
-- The VLANs that a network bridge carries after new ones were put on it, and the limits of its trunk
-- adapters (pypowervm/tasks/network_bridger.py).
use mathlib.Core.Path.{subst}
use pypowervm.Prelude.{
  ℕ, zero, suc, ◌+◌, ◌≤◌, Bool, true, false, List, [], ◌∷◌, ◌++◌, ◌==◌, length, length-append,
  nat_in, All, if◌then◌else◌, Bool-cases, inl, inr, ◌⊎◌, ◌≡◌, refl, sym, ◌∙◌, ap, arith,
}
use pypowervm.Exec.{ok}
use pypowervm.Exec.Returns.{>>=-returns, returned_pair}
use pypowervm.NetBridge.{TrunkAdapter, NetBridge, max_vlans_per_vea, vswitch_id_of, list_vlans}
use pypowervm.NetBridge.Trunks.{change_at, tag, append_trunk}
use pypowervm.NetBridge.Bridger.{Host, Bridger, on_world, add_vlan, add_each, add_vlans_to_nb}
use pypowervm.NetBridge.Lists.{count, count-append, count_absent}
use pypowervm.NetBridge.Placed.{HasRoom}
use pypowervm.NetBridge.Added.{
  sea_vlans, IsTagged, IsBuilt, on_bridge, count_tagged, count_built, count_sea, pure_same,
  add_vlan-shape,
}

module _ (w : ℕ) (nb : NetBridge) (new_vlans : List ℕ) (v : ℕ) (nb' : NetBridge) where
  tagged_adds :
      (arbitrary : Bool)
      → IsTagged nb v nb'.first_sea
      → on_bridge arbitrary w nb' ≡ on_bridge arbitrary w nb + count w (v ∷ [])
  unfolding list_vlans
  tagged_adds arbitrary (i, t, room, same) =
      ap (λ s. count w (sea_vlans arbitrary s)) same
      ∙ count_sea arbitrary w (count w (v ∷ [])) nb.first_sea _
          (count_tagged arbitrary w v i t nb.first_sea.addl_adpts room.0)

  -- The VLAN, and the PVID where arbitrary ones are counted.
  built_adds :
      (arbitrary : Bool) (arb_vid switch_id : ℕ)
      → nb'.first_sea ≡ append_trunk arb_vid v switch_id nb.first_sea
      → on_bridge arbitrary w nb'
        ≡ on_bridge arbitrary w nb
          + (count w (if arbitrary then arb_vid ∷ [] else []) + count w (v ∷ []))
  unfolding list_vlans append_trunk
  built_adds arbitrary arb_vid switch_id same =
      ap (λ s. count w (sea_vlans arbitrary s)) same
      ∙ count_sea arbitrary w (count w (if arbitrary then arb_vid ∷ [] else []) + count w (v ∷ []))
          nb.first_sea _ (count_built arbitrary w nb.first_sea.addl_adpts _)

  vlan_added :
      IsTagged nb v nb'.first_sea ⊎ IsBuilt nb new_vlans v nb'.first_sea
      → on_bridge false w nb' ≡ on_bridge false w nb + count w (v ∷ [])
  vlan_added (inl h) = tagged_adds false h
  vlan_added (inr (a, sw, _, _, same)) =
      let empty : count w [] ≡ 0 = unfold count in refl in
      built_adds false a sw same ∙ omega (arith, empty)

-- Whether one VLAN is the other.
count_one : (w v : ℕ) → (count w (v ∷ []) ≡ 0) ⊎ ((w ≡ v) × (count w (v ∷ []) ≡ 1))
unfolding count
count_one w v = elim (Bool-cases (v == w)) [
  | inl e ↦ inr (ground arith, rw e refl)
  | inr e ↦ inl (rw e refl)
]

-- The VLANs on the bridge and those still to be put there are all different, and those to be put
-- there are among the new ones.
abbrev IsRoomFor : NetBridge → List ℕ → List ℕ → Type 0
IsRoomFor nb new_vlans vs =
    ((w : ℕ) → on_bridge true w nb + count w vs ≤ 1)
    × ((w : ℕ) → nat_in w new_vlans ≡ false → count w vs ≡ 0)

room_next :
    (nb : NetBridge) (new_vlans : List ℕ) (v : ℕ) (vs : List ℕ) (nb' : NetBridge)
    → IsTagged nb v nb'.first_sea ⊎ IsBuilt nb new_vlans v nb'.first_sea
    → IsRoomFor nb new_vlans (v ∷ vs)
    → IsRoomFor nb' new_vlans vs
room_next nb new_vlans v vs nb' (inl h) (once, new) = (
  λ w. omega (arith, once w, count-append w (v ∷ []) vs, tagged_adds w nb new_vlans v nb' true h),
  λ w n. omega (arith, new w n, count-append w (v ∷ []) vs),
)
room_next nb new_vlans v vs nb' (inr (a, sw, free, other, same)) (once, new) = (
  λ w. elim (count_one w a) [
    | inl z ↦ omega (
      arith,
      once w,
      count-append w (v ∷ []) vs,
      z,
      built_adds w nb new_vlans v nb' true a sw same,
    )
    | inr (e, z) ↦
        (let none_there : count w (list_vlans true true nb) ≡ 0 =
            rw e (count_absent a (list_vlans true true nb) free) in
          let not_new : count w (v ∷ vs) ≡ 0 = rw e (new a other) in
          omega (
            arith,
            none_there,
            not_new,
            count-append w (v ∷ []) vs,
            z,
            built_adds w nb new_vlans v nb' true a sw same,
          ))
  ],
  λ w n. omega (arith, new w n, count-append w (v ∷ []) vs),
)

abbrev pub HasNoMore : ℕ → List TrunkAdapter → Type 0
HasNoMore n ts = All (λ t. length t.tagged_vlans ≤ n) ts

full_tagged :
    (v i : ℕ) (t : TrunkAdapter) (ts : List TrunkAdapter)
    → HasRoom ts (i, t)
    → HasNoMore max_vlans_per_vea ts
    → HasNoMore max_vlans_per_vea (change_at i (tag v) ts)
unfolding change_at
full_tagged v i t [] room h = tt
full_tagged v zero t (u ∷ us) (at, room) (h, hs) =
    let same : u ≡ t = ground arith in
    (
      subst (λ n. n ≤ max_vlans_per_vea) (sym (length-append u.tagged_vlans (v ∷ [])))
          (omega (arith, ap (λ x. length x.tagged_vlans) same)),
      hs,
    )
full_tagged v (suc i) t (u ∷ us) room (h, hs) = (h, full_tagged v i t us room hs)

full_built :
    (ts : List TrunkAdapter) (u : TrunkAdapter)
    → length u.tagged_vlans ≤ max_vlans_per_vea
    → HasNoMore max_vlans_per_vea ts
    → HasNoMore max_vlans_per_vea (ts ++ u ∷ [])
full_built [] u one h = (one, tt)
full_built (t ∷ ts) u one (h, hs) = (h, full_built ts u one hs)

full_next :
    (nb : NetBridge) (new_vlans : List ℕ) (v : ℕ) (nb' : NetBridge)
    → IsTagged nb v nb'.first_sea ⊎ IsBuilt nb new_vlans v nb'.first_sea
    → HasNoMore max_vlans_per_vea nb.first_sea.addl_adpts
    → HasNoMore max_vlans_per_vea nb'.first_sea.addl_adpts
unfolding append_trunk
full_next nb new_vlans v nb' (inl (i, t, room, same)) h =
    subst (λ s. HasNoMore max_vlans_per_vea s.addl_adpts) (sym same)
      (full_tagged v i t nb.first_sea.addl_adpts room h)
full_next nb new_vlans v nb' (inr (a, sw, _, _, same)) h =
    subst (λ s. HasNoMore max_vlans_per_vea s.addl_adpts) (sym same)
      (full_built nb.first_sea.addl_adpts _ (omega arith) h)

module _ {S : Type 0} (host : Host S) (across_veas : Bool) (peers : List NetBridge)
    (new_vlans : List ℕ) where
  -- What each turn of the loop keeps, the loop keeps.
  each_keeps :
      (P : NetBridge → List ℕ → Type 0)
      → ((nb : NetBridge) (v : ℕ) (vs : List ℕ) (nb' : NetBridge)
          → IsTagged nb v nb'.first_sea ⊎ IsBuilt nb new_vlans v nb'.first_sea
          → P nb (v ∷ vs)
          → P nb' vs)
      → (switch_id : ℕ) (vs : List ℕ) (nb nb' : NetBridge) (b c : Bridger S)
      → add_each host across_veas switch_id peers new_vlans nb vs b ≡ (ok nb', c)
      → P nb vs
      → P nb' []
  unfolding add_each
  each_keeps P step switch_id [] nb nb' b c h p = subst (λ x. P x []) (pure_same nb nb' b c h) p
  each_keeps P step switch_id (v ∷ vs) nb nb' b c h p =
      let (nb1, got, h1) =
        >>=-returns (add_vlan host across_veas switch_id peers new_vlans nb v) _ b nb' c h in
      each_keeps P step switch_id vs nb1 nb' _ c h1 (
        step nb v vs nb1
          (add_vlan-shape host switch_id peers new_vlans nb v nb1 b _ across_veas
            (returned_pair got))
          p)

  loop_keeps :
      (P : NetBridge → List ℕ → Type 0)
      → ((nb : NetBridge) (v : ℕ) (vs : List ℕ) (nb' : NetBridge)
          → IsTagged nb v nb'.first_sea ⊎ IsBuilt nb new_vlans v nb'.first_sea
          → P nb (v ∷ vs)
          → P nb' vs)
      → (nb nb' : NetBridge) (b c : Bridger S)
      → add_vlans_to_nb host across_veas nb peers new_vlans b ≡ (ok nb', c)
      → P nb new_vlans
      → P nb' []
  unfolding add_vlans_to_nb
  loop_keeps P step nb nb' b c h p =
      let (switch_id, _, h1) =
        >>=-returns (on_world (host.search_vswitch (vswitch_id_of nb))) _ b nb' c h in
      each_keeps P step switch_id new_vlans nb nb' _ c h1 p

  module _ (nb nb' : NetBridge) (b c : Bridger S) where
    -- The VLANs that the bridge carries, tagged or as its primary PVID, are after _add_vlans_to_nb,
    -- where it returns, those that it carried and the new ones, each as often as it came.
    pub add_vlans_to_nb-count :
        (w : ℕ)
        → add_vlans_to_nb host across_veas nb peers new_vlans b ≡ (ok nb', c)
        → on_bridge false w nb' ≡ on_bridge false w nb + count w new_vlans
    add_vlans_to_nb-count w h =
        let empty : count w [] ≡ 0 = unfold count in refl in
        let kept =
          loop_keeps
            (λ x vs. on_bridge false w x + count w vs ≡ on_bridge false w nb + count w new_vlans)
            (λ x v vs x' shape p.
              omega (arith, p, vlan_added w x new_vlans v x' shape, count-append w (v ∷ []) vs))
            nb nb' b c h refl in
        omega (arith, kept, empty)

    -- If no VLAN, arbitrary PVIDs included, is on the bridge twice, and the new VLANs are all
    -- different and not on it, then no VLAN is on it twice after _add_vlans_to_nb has returned.
    pub add_vlans_to_nb-once :
        ((w : ℕ) → on_bridge true w nb + count w new_vlans ≤ 1)
        → add_vlans_to_nb host across_veas nb peers new_vlans b ≡ (ok nb', c)
        → (w : ℕ) → on_bridge true w nb' ≤ 1
    add_vlans_to_nb-once once h w =
        let kept =
          loop_keeps (λ x vs. IsRoomFor x new_vlans vs) (λ x v vs x'. room_next x new_vlans v vs x')
            nb nb' b c h (once, λ u n. count_absent u new_vlans n) in
        omega (arith, kept.0 w)

    -- If no additional trunk adapter of the first SEA has more than 20 tagged VLANs, then none has
    -- more after _add_vlans_to_nb has returned.
    pub add_vlans_to_nb-HasNoMore :
        HasNoMore max_vlans_per_vea nb.first_sea.addl_adpts
        → add_vlans_to_nb host across_veas nb peers new_vlans b ≡ (ok nb', c)
        → HasNoMore max_vlans_per_vea nb'.first_sea.addl_adpts
    add_vlans_to_nb-HasNoMore few h =
        loop_keeps (λ x vs. HasNoMore max_vlans_per_vea x.first_sea.addl_adpts)
          (λ x v vs x' shape p. full_next x new_vlans v x' shape p) nb nb' b c h few
