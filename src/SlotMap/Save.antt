-- ===== src/SlotMap/Save.antt =====
-- Saving and loading of SlotMapStore (pypowervm/tasks/slot_map.py). The storage back end is what a
-- subclass implements, and what pickling makes of a dictionary is opaque, so all of these are
-- parameters.
use pypowervm.Prelude.{
  ℕ, String, Bool, true, false, ◌&&◌, Option, none, some, List, [], ◌∷◌, ◌==◌, text_eq,
  if◌then◌else◌,
}
use pypowervm.Prelude.Keyed.{KeyEq, get, nat_key, text_key}
use pypowervm.SlotMap.{Spec, no_spec, text_spec, list_spec, Topology, SlotTopo, Store, new}

unfoldable pub texts_eq : List String → List String → Bool
texts_eq [] [] = true
texts_eq (x ∷ xs) (y ∷ ys) = text_eq x y && texts_eq xs ys
texts_eq _ _ = false

unfoldable pub spec_eq : Spec → Spec → Bool
unfolding texts_eq
spec_eq no_spec no_spec = true
spec_eq (text_spec s) (text_spec t) = text_eq s t
spec_eq (list_spec xs) (list_spec ys) = texts_eq xs ys
spec_eq _ _ = false

-- Two dictionaries are equal when each has every entry of the other, in whatever order.
module _ {K V : Type 0} ⦃e : KeyEq K⦄ (same : V → V → Bool) where
  unfoldable pub has_all : List (K × V) → List (K × V) → Bool
  unfolding get
  has_all [] b = true
  has_all ((k, v) ∷ a) b = (elim (get k b) [ none ↦ false | some w ↦ same v w ]) && has_all a b

  unfoldable pub dict_eq : List (K × V) → List (K × V) → Bool
  unfolding has_all
  dict_eq a b = has_all a b && has_all b a

abbrev pub max_eq : Option ℕ → Option ℕ → Bool
max_eq none none = true
max_eq (some m) (some n) = m == n
max_eq _ _ = false

unfoldable pub topo_eq : Topology → Topology → Bool
unfolding dict_eq spec_eq
topo_eq = dict_eq (dict_eq (dict_eq spec_eq))

unfoldable pub slot_topo_eq : SlotTopo → SlotTopo → Bool
unfolding topo_eq
slot_topo_eq a b = topo_eq a.topo b.topo && max_eq a.max_vslots b.max_vslots

-- `D` is the state of the back end and `B` an opaque blob, which is not empty.
abbrev pub loaded : {B : Type 0} → (B → SlotTopo) → Option B → Option SlotTopo
loaded loads none = none
loaded loads (some blob) = some (loads blob)

module _ {D B : Type 0} (loads : B → SlotTopo) (load_blob : String → D → Option B) where
  -- __init__
  unfoldable pub load : String → Bool → D → Store
  unfolding new
  load inst_key true d = new inst_key (loaded loads (load_blob inst_key d))
  load inst_key false d = new inst_key none

module _ {D B : Type 0} (dumps : Topology → B) (save_blob : String → B → D → D) where
  unfoldable pub save : Store × D → Store × D
  unfolding slot_topo_eq
  save (s, d) =
      if slot_topo_eq s.slot_topo s.loaded_topo
      then (s, d)
      else (record s { loaded_topo = s.slot_topo }, save_blob s.inst_key (dumps s.slot_topo.topo) d)

unfoldable pub delete : {D : Type 0} (delete_blob : String → D → D) → Store × D → Store × D
delete delete_blob (s, d) = (s, delete_blob s.inst_key d)
