-- ===== src/NetBridge/Groups.antt =====
-- How many virtual networks a load group gets (pypowervm/tasks/network_bridger.py).
use mathlib.Core.Path.{subst}
use pypowervm.Prelude.{
  ℕ, zero, suc, ◌+◌, ◌≤◌, ◌<◌, String, Bool, true, false, Option, none, some, List, [], ◌∷◌, ◌++◌,
  ltb, ltb→lt, length, length-append, get_elem?, All, if◌then◌else◌, ◌≡◌, refl, sym, ap, arith,
}
use pypowervm.Exec.{ok, pure}
use pypowervm.Exec.Returns.{>>=-returns, returned_pair}
use pypowervm.NetBridge.{max_vlans_per_vea}
use pypowervm.NetBridge.Trunks.{change_at}
use pypowervm.NetBridge.LoadGroups.{Uris, VNet, is_shorter, fewest, find_available_ld_grp}
use pypowervm.NetBridge.Vnet.{
  Group, VnetBridge, Switch, VnetHost, rest_of, group_uris, add_uri, on_rest, built_group,
}
use pypowervm.NetBridge.VnetOps.{
  find_or_create_vnet, find_new_group_vid, build_group, put_on, add_group_vlans,
  add_vlans_to_groups,
}

-- The k-th list of links has room for one more.
abbrev HasSpace : List Uris → ℕ × Uris → Type 0
HasSpace gs (k, g) = (get_elem? gs k ≡ some g) × (length g < max_vlans_per_vea)

module _ (P : ℕ × Uris → Type 0) where
  abbrev Holds : Option (ℕ × Uris) → Type 0
  Holds none = Unit
  Holds (some x) = P x

  better_of_two :
      (i : ℕ) (g : Uris) (cur : Option (ℕ × Uris)) (better : Bool)
      → P (i, g)
      → Holds cur
      → Holds (if better then some (i, g) else cur)
  better_of_two i g cur true p c = p
  better_of_two i g cur false p c = c

  either_one :
      (b : Bool) (x y : Option (ℕ × Uris) × ℕ)
      → (b ≡ true → Holds x.0)
      → (b ≡ false → Holds y.0)
      → Holds (if b then x else y).0
  either_one true x y f g = f refl
  either_one false x y f g = g refl

  fewest-Holds :
      (i : ℕ) (gs : List Uris) (found : Option (ℕ × Uris) × ℕ)
      → ((k : ℕ) (g : Uris) → HasSpace gs (k, g) → P (i + k, g))
      → Holds found.0
      → Holds (fewest i gs found).0
  unfolding fewest
  fewest-Holds i [] found h c = c
  fewest-Holds i (g ∷ gs) (cur, n) h c =
      fewest-Holds (suc i) gs _ (λ k u r. subst (λ x. P (x, u)) (omega arith) (h (suc k) u r))
        (either_one (ltb (length g) max_vlans_per_vea) _ _
          (λ room.
            better_of_two i g cur (is_shorter g cur)
              (subst (λ x. P (x, g)) (omega arith) (h 0 g (refl, ltb→lt _ _ room))) c)
          (λ full. c))

kept_choice :
    (gs : List Uris) (found : Option (ℕ × Uris)) (balance : Bool)
    → Holds (HasSpace gs) found
    → Holds (HasSpace gs) (elim found [ none ↦ none | some x ↦ (if balance then none else some x) ])
kept_choice gs none balance h = tt
kept_choice gs (some x) true h = tt
kept_choice gs (some x) false h = h

choice-HasSpace :
    (balance : Bool) (gs : List Uris) → Holds (HasSpace gs) (find_available_ld_grp balance gs)
unfolding find_available_ld_grp
choice-HasSpace balance gs = kept_choice gs (fewest 0 gs (none, 0)).0 _ (
    fewest-Holds (HasSpace gs) 0 gs (none, 0)
      (λ k g r. subst (λ i. HasSpace gs (i, g)) (omega arith) r) tt)

-- No load group has more than 20 virtual networks.
abbrev pub AreSmall : List Group → Type 0
AreSmall gs = All (λ g. length g.uris ≤ max_vlans_per_vea) gs

small_changed :
    (uri : String) (i : ℕ) (u : Uris) (gs : List Group)
    → HasSpace (group_uris gs) (i, u)
    → AreSmall gs
    → AreSmall (change_at i (add_uri uri) gs)
unfolding change_at
small_changed uri i u [] room h = tt
small_changed uri zero u (g ∷ gs) (at, room) (h, hs) =
    let same : g.uris ≡ u = ground arith in
    (
      subst (λ n. n ≤ max_vlans_per_vea) (sym (length-append g.uris (uri ∷ [])))
          (omega (arith, ap (λ x. length x) same)),
      hs,
    )
small_changed uri (suc i) u (g ∷ gs) room (h, hs) = (h, small_changed uri i u gs room hs)

small_built :
    (gs : List Group) (g : Group)
    → length g.uris ≤ max_vlans_per_vea
    → AreSmall gs
    → AreSmall (gs ++ g ∷ [])
small_built [] g one h = (one, tt)
small_built (x ∷ gs) g one (h, hs) = (h, small_built gs g one hs)

small_rest :
    (gs : List Group) (g : Group)
    → length g.uris ≤ max_vlans_per_vea
    → AreSmall (rest_of gs)
    → AreSmall (rest_of (gs ++ g ∷ []))
small_rest [] g one h = tt
small_rest (x ∷ gs) g one h = small_built gs g one h

small_on_rest :
    (uri : String) (i : ℕ) (u : Uris) (gs : List Group)
    → HasSpace (group_uris (rest_of gs)) (i, u)
    → AreSmall (rest_of gs)
    → AreSmall (rest_of (on_rest (change_at i (add_uri uri)) gs))
small_on_rest uri i u [] room h = tt
small_on_rest uri i u (g ∷ gs) room h = small_changed uri i u gs room h

two_links : (a b : String) → length (a ∷ b ∷ []) ≤ max_vlans_per_vea
two_links a b = omega arith

pure_is :
    {S : Type 0} {a b : VnetBridge} {s t : S} {E : Type 0}
    → pure {S = S} {E = E} a s ≡ (ok b, t)
    → a ≡ b
pure_is h = ground arith

module _ {S : Type 0} (host : VnetHost S) (vnets : List VNet) (switch : Switch)
    (peers : List VnetBridge) (new_vlans : List ℕ) where
  put_on-AreSmall :
      (nb nb' : VnetBridge) (v : VNet) (o : Option (ℕ × Uris)) (s t : S)
      → Holds (HasSpace (group_uris (rest_of nb.all_groups))) o
      → AreSmall (rest_of nb.all_groups)
      → put_on host vnets switch peers new_vlans nb v o s ≡ (ok nb', t)
      → AreSmall (rest_of nb'.all_groups)
  unfolding put_on build_group
  put_on-AreSmall nb nb' v none s t room small h =
      let (orphans, _, h1) = >>=-returns (host.get_orphan_vlans nb.switch_id) _ s nb' t h in
      let (arb_vid, _, h2) =
        >>=-returns (find_new_group_vid host (nb ∷ peers) (new_vlans ++ orphans)) _ _ nb' t h1 in
      let (arb_vnet, _, h3) =
        >>=-returns (find_or_create_vnet host vnets arb_vid switch false) _ _ nb' t h2 in
      subst (λ x. AreSmall (rest_of x.all_groups)) (pure_is h3)
        (small_rest nb.all_groups
          (built_group arb_vid (arb_vnet.related_href ∷ v.related_href ∷ []))
          (two_links arb_vnet.related_href v.related_href) small)
  put_on-AreSmall nb nb' v (some (i, u)) s t room small h =
      subst (λ x. AreSmall (rest_of x.all_groups)) (pure_is h)
        (small_on_rest v.related_href i u nb.all_groups room small)

  each-AreSmall :
      (vs : List ℕ) (nb nb' : VnetBridge) (s t : S)
      → AreSmall (rest_of nb.all_groups)
      → add_group_vlans host vnets switch peers new_vlans nb vs s ≡ (ok nb', t)
      → AreSmall (rest_of nb'.all_groups)
  unfolding add_group_vlans
  each-AreSmall [] nb nb' s t small h =
      subst (λ x. AreSmall (rest_of x.all_groups)) (pure_is h) small
  each-AreSmall (v ∷ vs) nb nb' s t small h =
      let (vid_vnet, _, h1) =
        >>=-returns (find_or_create_vnet host vnets v switch true) _ s nb' t h in
      let (nb1, got, h2) =
        >>=-returns (put_on host vnets switch peers new_vlans nb vid_vnet _) _ _ nb' t h1 in
      each-AreSmall vs nb1 nb' _ t
        (put_on-AreSmall nb nb1 vid_vnet _ _ _
          (choice-HasSpace nb.balanced (group_uris (rest_of nb.all_groups))) small
          (returned_pair got))
        h2

-- If no load group of the bridge after the first has more than 20 virtual networks, then none has
-- more after _add_vlans_to_nb of NetworkBridgerVNET has returned.
pub add_vlans_to_groups-AreSmall :
    {S : Type 0} (host : VnetHost S) (nb nb' : VnetBridge) (peers : List VnetBridge)
    (new_vlans : List ℕ) (s t : S)
    → AreSmall (rest_of nb.all_groups)
    → add_vlans_to_groups host nb peers new_vlans s ≡ (ok nb', t)
    → AreSmall (rest_of nb'.all_groups)
unfolding add_vlans_to_groups
add_vlans_to_groups-AreSmall host nb nb' peers new_vlans s t small h =
    let (switch, _, h1) = >>=-returns (host.search_vswitch nb.switch_id) _ s nb' t h in
    let (vnets, _, h2) = >>=-returns host.get_vnets _ _ nb' t h1 in
    each-AreSmall host vnets switch peers new_vlans new_vlans nb nb' _ t small h2
