-- ===== src/SlotMap/Lookups.antt =====
-- What a build map and a store (pypowervm/tasks/slot_map.py) give back of the slots put into them.
use pypowervm.Prelude.{ℕ, ◌+◌, ◌≤◌, ◌≡◌, none, [], ◌∷◌, arith, All}
use pypowervm.SlotMap.{Topology, SlotTopo, Classes}
use pypowervm.SlotMap.Build.{highest_slot, get_max_vslots}

highest_slot-All :
    (t : Topology) (m : ℕ) → highest_slot t + 10 ≤ m → All (λ (p : ℕ × Classes). p.0 + 10 ≤ m) t
unfolding highest_slot
highest_slot-All [] m h = tt
highest_slot-All ((slot, classes) ∷ t) m h = (omega arith, highest_slot-All t m (omega arith))

highest_slot-le :
    (t : Topology) (m : ℕ)
    → 64 ≤ m
    → All (λ (p : ℕ × Classes). p.0 + 10 ≤ m) t
    → highest_slot t + 10 ≤ m
unfolding highest_slot
highest_slot-le [] m k h = omega arith
highest_slot-le ((slot, classes) ∷ t) m k h = omega (arith, highest_slot-le t m k h.1)

-- Where no maximum was registered, get_max_vslots is the least number that is at least 64 and at
-- least 10 above every registered slot.
get_max_vslots_least :
    (s : SlotTopo) (m : ℕ)
    → s.max_vslots ≡ none
    → 64 ≤ m
    → All (λ (p : ℕ × Classes). p.0 + 10 ≤ m) s.topo
    → (64 ≤ get_max_vslots s)
      × (get_max_vslots s ≤ m)
      × All (λ (p : ℕ × Classes). p.0 + 10 ≤ get_max_vslots s) s.topo
unfolding get_max_vslots
get_max_vslots_least s m h k bound = (
  ground arith,
  ground (arith, highest_slot-le s.topo m k bound),
  highest_slot-All s.topo (get_max_vslots s) (ground arith),
)
