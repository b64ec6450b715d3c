-- ===== src/NetBridge/NewVid.antt =====
-- The new arbitrary VLAN ID (pypowervm/tasks/network_bridger.py).
use pypowervm.Prelude.{
  ℕ, zero, suc, ◌+◌, ◌≤◌, true, false, some, List, [], ◌∷◌, ◌++◌, nat_in, All, Bool-cases, inl, inr,
  ◌≡◌, refl, sym, ◌∙◌, arith,
}
use pypowervm.NetBridge.{NetBridge, list_vlans, all_vlans, walk_down, find_new_arbitrary_vid}
use pypowervm.NetBridge.Lists.{nat_in-append, or_false_left, or_false_right}

-- No bridge has the VLAN, not as an arbitrary PVID either.
abbrev pub AreWithout : ℕ → List NetBridge → Type 0
AreWithout v nbs = All (λ nb. nat_in v (list_vlans true true nb) ≡ false) nbs

walk_used :
    (n : ℕ) (used : List ℕ) → nat_in (n + 2) used ≡ true → walk_down (suc n) used ≡ walk_down n used
unfolding walk_down
walk_used n used h = ground arith

walk_unused :
    (n : ℕ) (used : List ℕ) → nat_in (n + 2) used ≡ false → walk_down (suc n) used ≡ some (n + 2)
unfolding walk_down
walk_unused n used h = ground arith

walk_down_free :
    (n w : ℕ) (used : List ℕ)
    → 2 ≤ w
    → w ≤ n + 1
    → nat_in w used ≡ false
    → (v : ℕ) × (walk_down n used ≡ some v) × (w ≤ v) × (v ≤ n + 1) × (nat_in v used ≡ false)
unfolding walk_down
walk_down_free zero w used lo hi free = (2, ground arith, omega arith, omega arith, ground arith)
walk_down_free (suc n) w used lo hi free = elim (Bool-cases (nat_in (n + 2) used)) [
  | inl e ↦
      let (v, eq, le, top, ok) = walk_down_free n w used lo (ground arith) free in
      (v, walk_used n used e ∙ eq, le, omega arith, ok)
  | inr e ↦ (n + 2, walk_unused n used e, omega arith, omega arith, e)
]

without_all : (v : ℕ) (nbs : List NetBridge) → AreWithout v nbs → nat_in v (all_vlans nbs) ≡ false
unfolding all_vlans nat_in
without_all v [] h = refl
without_all v (nb ∷ nbs) (h, hs) =
    rw (nat_in-append v (list_vlans true true nb) (all_vlans nbs)) (rw h (without_all v nbs hs))

all_without : (v : ℕ) (nbs : List NetBridge) → nat_in v (all_vlans nbs) ≡ false → AreWithout v nbs
unfolding all_vlans
all_without v [] h = tt
all_without v (nb ∷ nbs) h =
    let split = sym (nat_in-append v (list_vlans true true nb) (all_vlans nbs)) ∙ h in
    (or_false_left _ _ split, all_without v nbs (or_false_right _ _ split))

-- If some VLAN w from 2 to 4094 is neither on a bridge nor one of the others, then
-- find_new_arbitrary_vid returns a VLAN that is neither, which is from w to 4094: the greatest.
pub find_new_arbitrary_vid_lem :
    (all_nbs : List NetBridge) (others : List ℕ) (w : ℕ)
    → 2 ≤ w
    → w ≤ 4094
    → AreWithout w all_nbs
    → nat_in w others ≡ false
    → (v : ℕ) × (find_new_arbitrary_vid all_nbs others ≡ some v)
      × (w ≤ v)
      × (v ≤ 4094)
      × AreWithout v all_nbs
      × (nat_in v others ≡ false)
unfolding find_new_arbitrary_vid
find_new_arbitrary_vid_lem all_nbs others w lo hi free other =
    let unused : nat_in w (all_vlans all_nbs ++ others) ≡ false =
      rw (nat_in-append w (all_vlans all_nbs) others) (rw (without_all w all_nbs free) other) in
    let (v, eq, le, top, h) = walk_down_free 4093 w (all_vlans all_nbs ++ others) lo hi unused in
    let split = sym (nat_in-append v (all_vlans all_nbs) others) ∙ h in
    (v, eq, le, top, all_without v all_nbs (or_false_left _ _ split), or_false_right _ _ split)

walk_down_unused : (n v : ℕ) (used : List ℕ) → walk_down n used ≡ some v → nat_in v used ≡ false
walk_down_unused zero v used h = absurd (unfold walk_down in ground arith)
walk_down_unused (suc n) v used h = elim (Bool-cases (nat_in (n + 2) used)) [
  | inl e ↦ walk_down_unused n v used (sym (walk_used n used e) ∙ h)
  | inr e ↦
      (let same : n + 2 ≡ v = (let eq = sym (walk_unused n used e) ∙ h in ground arith) in
        rw (sym same) e)
]

-- A VLAN that was found is neither on a bridge nor one of the others.
pub find_new_arbitrary_vid-unused :
    (all_nbs : List NetBridge) (others : List ℕ) (v : ℕ)
    → find_new_arbitrary_vid all_nbs others ≡ some v
    → AreWithout v all_nbs × (nat_in v others ≡ false)
unfolding find_new_arbitrary_vid
find_new_arbitrary_vid-unused all_nbs others v h =
    let split =
      sym (nat_in-append v (all_vlans all_nbs) others)
      ∙ walk_down_unused 4093 v (all_vlans all_nbs ++ others) h in
    (all_without v all_nbs (or_false_left _ _ split), or_false_right _ _ split)
