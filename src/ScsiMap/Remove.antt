-- ===== src/ScsiMap/Remove.antt =====
-- What remove_maps leaves (pypowervm/tasks/scsi_mapper.py).
use pypowervm.Prelude.{
  ℕ, Bool, false, not, ◌||◌, Option, List, [], ◌∷◌, ◌==◌, only, Bool-cases, inl, inr, ◌≡◌, refl, ap,
  ◌∙◌, arith,
}
use pypowervm.ScsiMap.{Mapping, Vios, LparId, Wanted, is_found, find_maps}
use pypowervm.ScsiMap.Ops.{remove_map, remove_each, remove_maps}

abbrev pub has_element : ℕ → List Mapping → Bool
has_element e [] = false
has_element e (m ∷ ms) = e == m.element || has_element e ms

-- No two mappings are the same element.
abbrev pub AreApart : List Mapping → Type 0
AreApart [] = Unit
AreApart (m ∷ ms) = (has_element m.element ms ≡ false) × AreApart ms

remove_first : (m : Mapping) (ms : List Mapping) → remove_map m (m ∷ ms) ≡ ms
unfolding remove_map
remove_first m ms = ground arith

or_false : (a b : Bool) → (a || b) ≡ false → (a ≡ false) × (b ≡ false)
or_false a b h = ground arith

remove_each_past :
    (x : Mapping) (fs xs : List Mapping)
    → has_element x.element fs ≡ false
    → remove_each fs (x ∷ xs) ≡ x ∷ remove_each fs xs
unfolding remove_each remove_map
remove_each_past x [] xs h = refl
remove_each_past x (f ∷ fs) xs h =
    let (here, on) = or_false (x.element == f.element) (has_element x.element fs) h in
    rw here (remove_each_past x fs (remove_map f xs) on)

module _ (client : Option LparId) (wanted : Wanted) (orphans : Bool) where
  has_element_found :
      (e : ℕ) (ms : List Mapping)
      → has_element e ms ≡ false
      → has_element e (find_maps client wanted orphans ms) ≡ false
  unfolding find_maps
  has_element_found e [] h = refl
  has_element_found e (m ∷ ms) h = ground (arith, has_element_found e ms, h)

  found_only :
      (ms : List Mapping)
      → find_maps client wanted orphans ms ≡ only (is_found client wanted orphans) ms
  unfolding find_maps
  found_only [] = refl
  found_only (m ∷ ms) = rw (found_only ms) refl

  remove_found :
      (ms : List Mapping)
      → AreApart ms
      → remove_each (find_maps client wanted orphans ms) ms
        ≡ only (λ m. not (is_found client wanted orphans m)) ms
  unfolding find_maps remove_each
  remove_found [] h = refl
  remove_found (m ∷ ms) h = elim (Bool-cases (is_found client wanted orphans m)) [
    | inl e ↦ rw e (
        ap (remove_each (find_maps client wanted orphans ms)) (remove_first m ms)
        ∙ remove_found ms h.1)
    | inr e ↦ rw e (
        remove_each_past m (find_maps client wanted orphans ms) ms
          (has_element_found m.element ms h.0)
        ∙ ap (λ xs. m ∷ xs) (remove_found ms h.1))
  ]

  -- Where no two mappings are the same element, remove_maps takes away exactly the mappings that
  -- the search finds, returns them in order, and leaves the others in order.
  pub remove_maps_lem :
      (v : Vios)
      → AreApart v.scsi_mappings
      → remove_maps v client wanted orphans ≡ (
        only (is_found client wanted orphans) v.scsi_mappings,
        record v {
          scsi_mappings = only (λ m. not (is_found client wanted orphans m)) v.scsi_mappings;
        },
      )
  unfolding remove_maps
  remove_maps_lem v h = rw (remove_found v.scsi_mappings h) (rw (found_only v.scsi_mappings) refl)
