-- ===== src/NpivMap/Turns.antt =====
-- The round of _derive_npiv_map over the VIOSes (pypowervm/tasks/vfc_mapper.py): which have been tried
-- since the last mapping.
use pypowervm.Prelude.{
  ℕ, suc, zero, ◌+◌, ◌≤◌, ◌<◌, ◌%◌, ◌≡◌, ◌⊎◌, refl, sym, String, true, none, some, List, [], ◌∷◌,
  ltb, length, get_elem?, arith, Bool-cases, inl, inr,
}
use native.Mathlib.Nat.{mod-eq_of_lt, mod_self}
use pypowervm.NpivMap.{Vios, Mapping, find_ports_on_vio, find_map_port}
use pypowervm.NpivMap.Ports.{has_port, some_vios_has, IsUsable}
use pypowervm.NpivMap.UsedUp.{uses, IsFull, no_port-IsFull}

pub none_or_some : (n : ℕ) → (n ≡ 0) ⊎ (0 < n)
none_or_some n = elim (Bool-cases (ltb 0 n)) [
  | inl some' ↦ inr (ground arith)
  | inr none' ↦ inl (ground arith)
]

get_elem?-none : (vs : List Vios) (i : ℕ) → get_elem? vs i ≡ none → length vs ≤ i
get_elem?-none [] i h = omega arith
get_elem?-none (v ∷ vs) zero h = absurd (ground arith)
get_elem?-none (v ∷ vs) (suc i) h = let k = get_elem?-none vs i h in omega arith

-- A port that some VIOS has is on the one at some position.
some_vios_has-index :
    (w : String) (vs : List Vios)
    → some_vios_has w vs ≡ true
    → (i : ℕ) × (v : Vios) × (i < length vs)
      × (get_elem? vs i ≡ some v)
      × (has_port w v.pfc_ports ≡ true)
some_vios_has-index w [] h = absurd (ground arith)
some_vios_has-index w (v ∷ vs) h = elim (Bool-cases (has_port w v.pfc_ports)) [
  | inl here ↦ (0, v, omega arith, refl, here)
  | inr there ↦
      let (i, u, below, at, has) = some_vios_has-index w vs (ground arith) in
      (suc i, u, omega arith, at, has)
]

module _ (vs : List Vios) (wwpns : List String) where
  -- The VIOS at the position, if there is one, has no port to spare.
  abbrev pub IsFullAt : List Mapping → ℕ → Type 0
  IsFullAt ms i = (v : Vios) → get_elem? vs i ≡ some v → IsFull wwpns ms v

  -- The positions of the last `loops` passes before the position `pos`, in a round, are all full.
  abbrev pub AreTried : ℕ → ℕ → List Mapping → Type 0
  AreTried pos loops ms =
      (i : ℕ)
      → i < length vs
      → pos ≤ i + loops
      → (i < pos) ⊎ (pos + length vs ≤ i + loops)
      → IsFullAt ms i

  -- All ports that may be used are used by 128 mappings at least.
  abbrev pub AreUsedUp : List Mapping → Type 0
  AreUsedUp ms = (w : String) → IsUsable vs wwpns w → 128 ≤ uses w ms

  pub none_there :
      (pos : ℕ) → get_elem? vs pos ≡ none → (length vs ≡ 0) ⊎ (pos < length vs) → length vs ≡ 0
  none_there pos h (inl e) = e
  none_there pos h (inr below) = let k = get_elem?-none vs pos h in absurd (omega arith)

  pub full_at :
      (pos : ℕ) (vio : Vios) (ms : List Mapping)
      → get_elem? vs pos ≡ some vio
      → (find_ports_on_vio vio wwpns ≡ []) ⊎ (find_map_port (find_ports_on_vio vio wwpns) ms ≡ none)
      → IsFullAt ms pos
  full_at pos vio ms at h v there =
      let e : vio ≡ v = ground arith in rw (sym e) (no_port-IsFull wwpns ms vio h)

  all_full-AreUsedUp :
      (ms : List Mapping) → ((i : ℕ) → i < length vs → IsFullAt ms i) → AreUsedUp ms
  all_full-AreUsedUp ms full w (has, known) =
      let (i, v, below, at, on_vios) = some_vios_has-index w vs has in
      full i below v at w on_vios known

  -- A position is the one just tried or was tried before.
  tried_or :
      (i pos loops : ℕ) (ms : List Mapping)
      → IsFullAt ms pos
      → AreTried pos loops ms
      → i < length vs
      → pos + 1 ≤ i + (loops + 1)
      → (i < pos + 1) ⊎ ((pos + 1) + length vs ≤ i + (loops + 1))
      → IsFullAt ms i
  tried_or i pos loops ms full tried inside near (inr far) =
      tried i inside (omega arith) (inr (omega arith))
  tried_or i pos loops ms full tried inside near (inl here) = elim (Bool-cases (ltb i pos)) [
    | inl before ↦ tried i inside (omega arith) (inl (ground arith))
    | inr at ↦ let e : i ≡ pos = ground arith in rw e full
  ]

  wrapped :
      (i pos loops : ℕ) (ms : List Mapping)
      → pos + 1 ≡ length vs
      → IsFullAt ms pos
      → AreTried pos loops ms
      → i < length vs
      → length vs ≤ i + (loops + 1)
      → IsFullAt ms i
  wrapped i pos loops ms last full tried inside near = elim (Bool-cases (ltb i pos)) [
    | inl before ↦ tried i inside (omega arith) (inl (ground arith))
    | inr at ↦ let e : i ≡ pos = ground arith in rw e full
  ]

  pub next_tried :
      (pos loops : ℕ) (ms : List Mapping)
      → (length vs ≡ 0) ⊎ (pos < length vs)
      → loops + 1 ≤ length vs
      → IsFullAt ms pos
      → AreTried pos loops ms
      → AreTried ((pos + 1) % length vs) (loops + 1) ms
        × ((length vs ≡ 0) ⊎ ((pos + 1) % length vs < length vs))
  next_tried pos loops ms (inl e) room full tried = absurd (omega arith)
  next_tried pos loops ms (inr below) room full tried =
      elim (Bool-cases (ltb (pos + 1) (length vs))) [
        | inl more ↦
            let e : (pos + 1) % length vs ≡ pos + 1 = mod-eq_of_lt (ground arith) in
            rw e (
              λ i inside near which. tried_or i pos loops ms full tried inside near which,
              inr (ground arith),
            )
        | inr wraps ↦
            let last : pos + 1 ≡ length vs = ground arith in
            let e : (pos + 1) % length vs ≡ 0 = rw last (mod_self (length vs)) in
            rw e (
              λ i inside near which. elim which [
                | inl a ↦ absurd (omega arith)
                | inr b ↦ wrapped i pos loops ms last full tried inside (omega arith)
              ],
              inr (omega arith),
            )
      ]

  pub untried : (pos : ℕ) (ms : List Mapping) → AreTried pos 0 ms
  untried pos ms i inside near (inl before) = absurd (omega arith)
  untried pos ms i inside near (inr far) = absurd (omega arith)

  -- A pass that raises has tried all VIOSes.
  pub raised-AreUsedUp :
      (pos loops : ℕ) (ms : List Mapping)
      → (length vs ≡ 0) ⊎ (pos < length vs)
      → loops ≤ length vs
      → (get_elem? vs pos ≡ none) ⊎ (length vs < loops + 1)
      → AreTried pos loops ms
      → AreUsedUp ms
  raised-AreUsedUp pos loops ms (inl e) room why tried =
      all_full-AreUsedUp ms (λ i inside. absurd (omega arith))
  raised-AreUsedUp pos loops ms (inr below) room (inl absent) tried =
      let e = none_there pos absent (inr below) in absurd (omega arith)
  raised-AreUsedUp pos loops ms (inr below) room (inr over) tried =
      all_full-AreUsedUp ms (λ i inside. elim (Bool-cases (ltb i pos)) [
        | inl before ↦ tried i inside (omega arith) (inl (ground arith))
        | inr beyond ↦ tried i inside (omega arith) (inr (ground arith))
      ])
