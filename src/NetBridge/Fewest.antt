-- ===== src/NetBridge/Fewest.antt =====
-- The load group that gets a VLAN (pypowervm/tasks/network_bridger.py).
use pypowervm.Prelude.{
  ℕ, suc, ◌≤◌, Bool, true, false, Option, none, some, List, [], ◌∷◌, ltb, length, All,
  if◌then◌else◌, Bool-cases, inl, inr, ◌⊎◌, ◌≡◌, refl, sym, ◌∙◌, ap, arith,
}
use pypowervm.NetBridge.{max_vlans_per_vea}
use pypowervm.NetBridge.LoadGroups.{Uris, is_shorter, fewest, find_available_ld_grp}

-- Each group is full or has at least n networks.
abbrev HaveAtLeast : ℕ → List Uris → Type 0
HaveAtLeast n gs = All (λ g. (n ≤ length g) ⊎ (max_vlans_per_vea ≤ length g)) gs

-- The number is no more than what was found so far, where there is something.
abbrev IsNoMore : ℕ → Option (ℕ × Uris) → Type 0
IsNoMore n none = Unit
IsNoMore n (some (i, best)) = n ≤ length best

with_room :
    (i : ℕ) (x : Uris) (xs : List Uris) (cur : Option (ℕ × Uris)) (n : ℕ)
    → ltb (length x) max_vlans_per_vea ≡ true
    → fewest i (x ∷ xs) (cur, n)
      ≡ fewest (suc i) xs (if is_shorter x cur then some (i, x) else cur, suc n)
unfolding fewest
with_room i x xs cur n e = rw e refl

when_full :
    (i : ℕ) (x : Uris) (xs : List Uris) (cur : Option (ℕ × Uris)) (n : ℕ)
    → ltb (length x) max_vlans_per_vea ≡ false
    → fewest i (x ∷ xs) (cur, n) ≡ fewest (suc i) xs (cur, n)
unfolding fewest
when_full i x xs cur n e = rw e refl

-- What was found is bounded by the better of the two.
better_of :
    (m i : ℕ) (x : Uris) (cur : Option (ℕ × Uris))
    → IsNoMore m (if is_shorter x cur then some (i, x) else cur)
    → IsNoMore m cur × (m ≤ length x)
better_of m i x none h = (tt, h)
better_of m i x (some (j, best)) h = elim (Bool-cases (ltb (length x) (length best))) [
  | inl e ↦ (ground arith, ground arith)
  | inr e ↦ (ground arith, ground arith)
]

ends_with :
    (i j k n : ℕ) (best g : Uris)
    → (fewest i [] (some (j, best), n)).0 ≡ some (k, g)
    → length g ≤ length best
unfolding fewest
ends_with i j k n best g h = ground arith

fewest_lem :
    (i : ℕ) (gs : List Uris) (cur : Option (ℕ × Uris)) (n k : ℕ) (g : Uris)
    → (fewest i gs (cur, n)).0 ≡ some (k, g)
    → IsNoMore (length g) cur × HaveAtLeast (length g) gs
fewest_lem i [] none n k g h = (tt, tt)
fewest_lem i [] (some (j, best)) n k g h = (ends_with i j k n best g h, tt)
fewest_lem i (x ∷ xs) cur n k g h = elim (Bool-cases (ltb (length x) max_vlans_per_vea)) [
  | inl e ↦
      (let (bound, rest) =
          fewest_lem (suc i) xs (if is_shorter x cur then some (i, x) else cur) (suc n) k g
            (ap (λ f. f.0) (sym (with_room i x xs cur n e)) ∙ h) in
        let (old, new) = better_of (length g) i x cur bound in (old, (inl new, rest)))
  | inr e ↦
      (let (bound, rest) =
          fewest_lem (suc i) xs cur n k g (ap (λ f. f.0) (sym (when_full i x xs cur n e)) ∙ h) in
        (bound, (inr (ground arith), rest)))
]

chosen_group :
    (balance : Bool) (found : Option (ℕ × Uris)) (k : ℕ) (g : Uris)
    → (elim found [ none ↦ none | some x ↦ (if balance then none else some x) ]) ≡ some (k, g)
    → found ≡ some (k, g)
chosen_group balance none k g h = absurd (ground arith)
chosen_group true (some x) k g h = absurd (ground arith)
chosen_group false (some x) k g h = h

-- The load group that find_available_ld_grp returns has no more networks than any of the groups
-- that is not full.
find_available_ld_grp-HaveAtLeast :
    (load_balance : Bool) (ld_grps : List Uris) (k : ℕ) (g : Uris)
    → find_available_ld_grp load_balance ld_grps ≡ some (k, g)
    → HaveAtLeast (length g) ld_grps
unfolding find_available_ld_grp
find_available_ld_grp-HaveAtLeast load_balance ld_grps k g h =
    (fewest_lem 0 ld_grps none 0 k g (chosen_group _ (fewest 0 ld_grps (none, 0)).0 k g h)).1
