-- ===== src/SlotMap/Vscsi.antt =====
-- The vSCSI part of RebuildSlotMap (pypowervm/tasks/slot_map.py): for each slot, the most used first,
-- a VIOS that can see all its storage. `pop` is the set's choice of an element.
use pypowervm.Prelude.{
  ℕ, ◌+◌, String, not, none, some, List, [], ◌∷◌, ◌++◌, text_eq, is_in, ltb, if◌then◌else◌, length,
}
use pypowervm.Prelude.Keyed.{get, put, nat_key, text_key}
use pypowervm.Exec.{Result, ok, err}
use pypowervm.SlotMap.{Spec, Keys, Classes, Topology, or_nil, pv, lu, vdisk, vopt}
use pypowervm.SlotMap.Build.{
  is_nil, ◌>>=◌, udids_val, to_udids, BuildMap, class_map, BuildError, value_error, invalid_io_type,
  no_vios_for_udid, not_enough_vios,
}

unfoldable pub put_vios_val : String → String → String → ℕ × Spec → BuildMap → BuildMap
unfolding put get
put_vios_val stg_class vios udid v b =
    let by_vios = class_map stg_class b in
    put stg_class (put vios (udids_val (put udid v (to_udids (get vios by_vios)))) by_vios) b

-- _vscsi_build_slot_order: the slots with their numbers of storage elements
unfoldable pub count_slots : Topology → Result BuildError (List (ℕ × ℕ))
unfolding get
count_slots [] = ok []
count_slots ((slot, classes) ∷ t) =
    let rest = count_slots t in
    if not (is_nil (or_nil (get vopt classes)))
    then err (invalid_io_type "Virtual Optical Media")
    else rest >>= λ counts. ok (
        (
          slot,
          length (or_nil (get pv classes))
              + length (or_nil (get lu classes))
              + length (or_nil (get vdisk classes)),
        )
        ∷ counts)

-- `sorted(.., key=count, reverse=True)`, which keeps the order of equal counts
unfoldable pub insert_slot : ℕ × ℕ → List (ℕ × ℕ) → List (ℕ × ℕ)
insert_slot p [] = p ∷ []
insert_slot p (q ∷ qs) = if ltb p.1 q.1 then q ∷ insert_slot p qs else p ∷ q ∷ qs

unfoldable pub sort_slots : List (ℕ × ℕ) → List (ℕ × ℕ)
unfolding insert_slot
sort_slots [] = []
sort_slots (p ∷ ps) = insert_slot p (sort_slots ps)

unfoldable pub vscsi_build_slot_order : Topology → Result BuildError (List (ℕ × ℕ))
unfolding count_slots sort_slots
vscsi_build_slot_order t = count_slots t >>= λ counts. ok (sort_slots counts)

-- A storage element of a slot: its UDID, LUA and class.
pub record Elem : Type 0 where
  pub udid : String
  pub lua : Spec
  pub stg_class : String

unfoldable pub elems : String → Keys → List Elem
elems stg_class [] = []
elems stg_class ((u, l) ∷ keys) =
    record { udid = u; lua = l; stg_class = stg_class } ∷ elems stg_class keys

unfoldable pub slot_info : Classes → List Elem
unfolding elems get
slot_info classes =
    elems pv (or_nil (get pv classes))
    ++ elems lu (or_nil (get lu classes))
    ++ elems vdisk (or_nil (get vdisk classes))

-- { udid: [ vios_uuid, .. ] }
abbrev pub VolToVio : Type 0
VolToVio = List (String × List String)

-- `s & set(xs)`
unfoldable pub inter : List String → List String → List String
unfolding is_in
inter [] xs = []
inter (v ∷ s) xs = let rest = inter s xs in if is_in v xs then v ∷ rest else rest

-- The VIOSes among the candidates that can see every element.
unfoldable pub narrow : VolToVio → List Elem → List String → Result BuildError (List String)
unfolding get inter
narrow vols [] candidates = ok candidates
narrow vols (e ∷ es) candidates = elim (get e.udid vols) [
  | none ↦ err (no_vios_for_udid e.udid)
  | some vioses ↦
      let left = inter candidates vioses in
      let rest = narrow vols es left in if is_nil left then err (not_enough_vios e.udid) else rest
]

-- `xs.remove(v)`
unfoldable pub remove : String → List String → Result BuildError (List String)
remove v [] = err value_error
remove v (x ∷ xs) =
    let rest = remove v xs in if text_eq x v then ok xs else (rest >>= λ ys. ok (x ∷ ys))

-- the second loop over a slot's elements, once their VIOS is chosen
unfoldable pub assign :
    ℕ → String → List Elem → VolToVio × BuildMap → Result BuildError (VolToVio × BuildMap)
unfolding put_vios_val get put remove
assign slot vios [] (vols, b) = ok (vols, b)
assign slot vios (e ∷ es) (vols, b) = remove vios (or_nil (get e.udid vols)) >>= λ left.
    assign slot vios es (put e.udid left vols, put_vios_val e.stg_class vios e.udid (slot, e.lua) b)

module _ (pop : List String → String) where
  unfoldable pub build_slot :
      List String → ℕ → Classes → VolToVio × BuildMap → Result BuildError (VolToVio × BuildMap)
  unfolding slot_info narrow assign
  build_slot all_vioses slot classes (vols, b) =
      let es = slot_info classes in
      if is_nil es
      then ok (vols, b)
      else (narrow vols es all_vioses >>= λ candidates. assign slot (pop candidates) es (vols, b))

  unfoldable pub build_slots :
      List String
      → Topology
      → List (ℕ × ℕ)
      → VolToVio × BuildMap
      → Result BuildError (VolToVio × BuildMap)
  unfolding build_slot get
  build_slots all_vioses t [] s = ok s
  build_slots all_vioses t ((slot, n) ∷ order) s =
      build_slot all_vioses slot (or_nil (get slot t)) s >>= λ s'. build_slots all_vioses t order s'

  unfoldable pub vscsi_build_out :
      List String → Topology → VolToVio → BuildMap → Result BuildError BuildMap
  unfolding vscsi_build_slot_order build_slots
  vscsi_build_out all_vioses t vols b =
      vscsi_build_slot_order t >>= λ order. build_slots all_vioses t order (vols, b) >>= λ s. ok s.1
