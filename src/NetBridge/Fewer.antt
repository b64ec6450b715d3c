-- ===== src/NetBridge/Fewer.antt =====
-- Lists of trunk adapters from which a VLAN or a trunk adapter was taken
-- (pypowervm/tasks/network_bridger.py).
use pypowervm.Prelude.{
  ℕ, zero, suc, ◌+◌, true, false, Option, none, some, List, [], ◌∷◌, ◌==◌, length, get_elem?,
  nat_in, text_eq_iff, Bool-cases, Option-cases, inl, inr, ◌⊎◌, ◌≡◌, refl, ap, arith,
}
use pypowervm.NetBridge.{TrunkAdapter, trunk_vlans}
use pypowervm.NetBridge.Trunks.{change_at}
use pypowervm.NetBridge.Untag.{
  same_vlans, same_rest, same_trunk, trunk_in, drop_trunk, remove_vlan, set_vlans,
}
use pypowervm.NetBridge.Lists.{count, count-append}
use pypowervm.NetBridge.Added.{count_trunks}
use pypowervm.NetBridge.Peers.{HavePriority}

same_vlans_lem : (xs ys : List ℕ) → same_vlans xs ys ≡ true → xs ≡ ys
unfolding same_vlans
same_vlans_lem [] [] h = refl
same_vlans_lem [] (y ∷ ys) h = absurd (ground arith)
same_vlans_lem (x ∷ xs) [] h = absurd (ground arith)
same_vlans_lem (x ∷ xs) (y ∷ ys) h = ground (arith, same_vlans_lem xs ys)

same_tagged : (t u : TrunkAdapter) → same_trunk t u ≡ true → t.tagged_vlans ≡ u.tagged_vlans
unfolding same_trunk
same_tagged t u h =
    same_vlans_lem t.tagged_vlans u.tagged_vlans
      (let both : same_vlans t.tagged_vlans u.tagged_vlans ≡ true = ground arith in both)

same_refl : (xs : List ℕ) → same_vlans xs xs ≡ true
unfolding same_vlans
same_refl [] = refl
same_refl (x ∷ xs) = ground (arith, same_refl xs)

-- The trunk adapter that is dropped takes its VLANs away.
pub count_dropped :
    (w : ℕ) (t : TrunkAdapter) (ts : List TrunkAdapter)
    → trunk_in t ts ≡ true
    → count w (trunk_vlans false (drop_trunk t ts)) + count w t.tagged_vlans
      ≡ count w (trunk_vlans false ts)
unfolding trunk_in drop_trunk
count_dropped w t [] h = absurd (ground arith)
count_dropped w t (u ∷ us) h = elim (Bool-cases (same_trunk u t)) [
  | inl e ↦
      (let empty : count w [] ≡ 0 = unfold count in refl in
        rw e (
          omega (arith, count_trunks false w u us, empty, ap (λ x. count w x) (same_tagged u t e))))
  | inr e ↦ rw e (
      omega (
        arith,
        count_trunks false w u us,
        count_trunks false w u (drop_trunk t us),
        count_dropped w t us (let there : trunk_in t us ≡ true = ground arith in there),
      ))
]

removed_head :
    (vlan x : ℕ) (xs ys : List ℕ)
    → remove_vlan vlan (x ∷ xs) ≡ some ys
    → ((x ≡ vlan) × (xs ≡ ys)) ⊎ ((ws : List ℕ) × (remove_vlan vlan xs ≡ some ws) × (x ∷ ws ≡ ys))
unfolding remove_vlan
removed_head vlan x xs ys h = elim (Bool-cases (x == vlan)) [
  | inl e ↦ inl (ground arith, ground arith)
  | inr e ↦ inr (elim (Option-cases (remove_vlan vlan xs)) [
    | inl n ↦ absurd (ground arith)
    | inr (ws, s) ↦ (ws, s, ground arith)
  ])
]

pub count_removed :
    (w vlan : ℕ) (xs ys : List ℕ)
    → remove_vlan vlan xs ≡ some ys
    → count w ys + count w (vlan ∷ []) ≡ count w xs
count_removed w vlan [] ys h = absurd (unfold remove_vlan in ground arith)
count_removed w vlan (x ∷ xs) ys h = elim (removed_head vlan x xs ys h) [
  | inl (e, s) ↦
      omega (arith, count-append w (x ∷ []) xs, ap (λ y. count w (y ∷ [])) e, ap (λ y. count w y) s)
  | inr (ws, r, s) ↦ omega (
    arith,
    count-append w (x ∷ []) xs,
    count-append w (x ∷ []) ws,
    ap (λ y. count w y) s,
    count_removed w vlan xs ws r,
  )
]

pub count_changed :
    (w vlan i : ℕ) (t : TrunkAdapter) (vs : List ℕ) (ts : List TrunkAdapter)
    → get_elem? ts i ≡ some t
    → count w vs + count w (vlan ∷ []) ≡ count w t.tagged_vlans
    → count w (trunk_vlans false (change_at i (set_vlans vs) ts)) + count w (vlan ∷ [])
      ≡ count w (trunk_vlans false ts)
unfolding change_at
count_changed w vlan i t vs [] e h = absurd (ground arith)
count_changed w vlan zero t vs (u ∷ us) e h =
    let same : u ≡ t = ground arith in
    omega (
      arith,
      h,
      count_trunks false w u us,
      count_trunks false w (set_vlans vs u) us,
      ap (λ x. count w x.tagged_vlans) same,
    )
count_changed w vlan (suc i) t vs (u ∷ us) e h = omega (
  arith,
  count_trunks false w u us,
  count_trunks false w u (change_at i (set_vlans vs) us),
  count_changed w vlan i t vs us e h,
)

-- The only VLAN of a list.
pub only_vlan :
    (w vlan : ℕ) (xs : List ℕ)
    → (length xs == 1) ≡ true
    → nat_in vlan xs ≡ true
    → count w (vlan ∷ []) ≡ count w xs
unfolding nat_in
only_vlan w vlan [] one h = absurd (ground arith)
only_vlan w vlan (x ∷ []) one h =
    let same : vlan ≡ x = ground arith in ap (λ y. count w (y ∷ [])) same
only_vlan w vlan (x ∷ y ∷ ys) one h = absurd (ground arith)

pub get-trunk_in :
    (ts : List TrunkAdapter) (i : ℕ) (t : TrunkAdapter)
    → get_elem? ts i ≡ some t
    → same_trunk t t ≡ true
    → trunk_in t ts ≡ true
unfolding trunk_in
get-trunk_in [] i t h r = absurd (ground arith)
get-trunk_in (u ∷ us) zero t h r = ground (arith, (let same : u ≡ t = ground arith in same))
get-trunk_in (u ∷ us) (suc i) t h r = ground (arith, get-trunk_in us i t h r)

rest_refl : (o : Option ℕ) → same_rest o o ≡ true
rest_refl none = refl
rest_refl (some n) = ground arith

pub same_trunk_refl : (t : TrunkAdapter) → same_trunk t t ≡ true
unfolding same_trunk
same_trunk_refl t =
    ground (arith, text_eq_iff t.dev_name t.dev_name, same_refl t.tagged_vlans, rest_refl t.rest)

pub dropped-HavePriority :
    (p : ℕ) (t : TrunkAdapter) (ts : List TrunkAdapter)
    → HavePriority p ts
    → HavePriority p (drop_trunk t ts)
unfolding drop_trunk
dropped-HavePriority p t [] h = tt
dropped-HavePriority p t (u ∷ us) (h, hs) = elim (Bool-cases (same_trunk u t)) [
  | inl e ↦ rw e hs
  | inr e ↦ rw e (h, dropped-HavePriority p t us hs)
]

pub changed-HavePriority :
    (p i : ℕ) (vs : List ℕ) (ts : List TrunkAdapter)
    → HavePriority p ts
    → HavePriority p (change_at i (set_vlans vs) ts)
unfolding change_at
changed-HavePriority p i vs [] h = tt
changed-HavePriority p zero vs (u ∷ us) h = h
changed-HavePriority p (suc i) vs (u ∷ us) (h, hs) = (h, changed-HavePriority p i vs us hs)
