-- ===== src/NetBridge/Lists.antt =====
-- Membership in lists of VLANs.
use pypowervm.Prelude.{
  ℕ, suc, ◌+◌, ◌≤◌, Bool, true, false, ◌||◌, if◌then◌else◌, List, [], ◌∷◌, ◌++◌, ◌==◌, nat_in, ◌≡◌,
  refl, arith,
}

pub nat_in-append : (v : ℕ) (xs ys : List ℕ) → nat_in v (xs ++ ys) ≡ (nat_in v xs || nat_in v ys)
unfolding nat_in
nat_in-append v [] ys = refl
nat_in-append v (x ∷ xs) ys = ground (arith, nat_in-append v xs ys)

pub or_false_left : (a b : Bool) → (a || b) ≡ false → a ≡ false
or_false_left a b h = ground arith

pub or_false_right : (a b : Bool) → (a || b) ≡ false → b ≡ false
or_false_right a b h = ground arith

-- How often a VLAN is in a list.
unfoldable pub count : ℕ → List ℕ → ℕ
count v [] = 0
count v (x ∷ xs) = let rest = count v xs in if x == v then suc rest else rest

pub count-append : (v : ℕ) (xs ys : List ℕ) → count v (xs ++ ys) ≡ count v xs + count v ys
unfolding count
count-append v [] ys = omega arith
count-append v (x ∷ xs) ys = ground (arith, count-append v xs ys)

pub count_absent : (v : ℕ) (xs : List ℕ) → nat_in v xs ≡ false → count v xs ≡ 0
unfolding count nat_in
count_absent v [] h = refl
count_absent v (x ∷ xs) h = ground (arith, count_absent v xs)

pub count_present : (v : ℕ) (xs : List ℕ) → nat_in v xs ≡ true → 1 ≤ count v xs
unfolding count nat_in
count_present v [] h = ground arith
count_present v (x ∷ xs) h = ground (arith, count_present v xs)
