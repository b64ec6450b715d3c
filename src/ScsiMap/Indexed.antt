-- ===== src/ScsiMap/Indexed.antt =====
-- What index_mappings finds under a key (pypowervm/tasks/scsi_mapper.py).
use pypowervm.Prelude.{
  String, false, Option, List, [], ◌∷◌, ◌++◌, only, Bool-cases, inl, inr, text_eq, text_eq_iff,
  if◌then◌else◌, ◌≡◌, refl, sym, ◌∙◌, arith,
}
use pypowervm.Prelude.Keyed.{text_key, get}
use pypowervm.ScsiMap.{Mapping, or_nil}
use pypowervm.ScsiMap.Index.{
  Indexed, str, add, storage_udid, lpar_uuid, lpar_id_text, index_one, index_onto, index_mappings,
}
use pypowervm.ScsiMap.Silos.{get_gathered, append_nil, one_more}

module _ (f : Mapping → Option String) where
  add_each : List (String × List Mapping) → List Mapping → List (String × List Mapping)
  add_each d [] = d
  add_each d (m ∷ ms) = add_each (add (f m) m d) ms

  empty_other : (u : String) → text_eq u "" ≡ false → text_eq "" u ≡ false
  empty_other u h = ground (arith, text_eq_iff "" u, text_eq_iff u "")

  get-add :
      (u : String) (m : Mapping) (d : List (String × List Mapping))
      → text_eq u "" ≡ false
      → or_nil (get u (add (f m) m d))
        ≡ (if text_eq (str (f m)) u then or_nil (get u d) ++ m ∷ [] else or_nil (get u d))
  unfolding add
  get-add u m d h = elim (Bool-cases (text_eq (str (f m)) "")) [
    | inl e ↦ rw e (rw ((text_eq_iff (str (f m)) "").0 e) (rw (empty_other u h) refl))
    | inr e ↦ rw e (get_gathered (str (f m)) u m d)
  ]

  get-add_each :
      (u : String) (ms : List Mapping) (d : List (String × List Mapping))
      → text_eq u "" ≡ false
      → or_nil (get u (add_each d ms)) ≡ or_nil (get u d) ++ only (λ m. text_eq (str (f m)) u) ms
  unfolding add_each
  get-add_each u [] d h = sym (append_nil (or_nil (get u d)))
  get-add_each u (m ∷ ms) d h =
      get-add_each u ms (add (f m) m d) h
      ∙ rw (get-add u m d h) (
          one_more (text_eq (str (f m)) u) (or_nil (get u d)) m
            (only (λ x. text_eq (str (f x)) u) ms))

udid_of : Mapping → Option String
udid_of m = storage_udid m.backing_storage

index_each :
    (ms : List Mapping) (ret : Indexed)
    → ((index_onto ret ms).by_lpar_uuid ≡ add_each lpar_uuid ret.by_lpar_uuid ms)
      × ((index_onto ret ms).by_lpar_id ≡ add_each lpar_id_text ret.by_lpar_id ms)
      × ((index_onto ret ms).by_storage_udid ≡ add_each udid_of ret.by_storage_udid ms)
unfolding index_onto index_one add_each udid_of
index_each [] ret = (refl, refl, refl)
index_each (m ∷ ms) ret = index_each ms (index_one ret m)

-- Under every key but the empty text, each of the three indices has the mappings whose identifier,
-- turned into a text, is that key, in their order: the UUID of the client's href, the short ID of
-- the server adapter and the UDID of the storage. An identifier that is None becomes "None".
pub index_mappings_lem :
    (u : String) (maps : List Mapping)
    → text_eq u "" ≡ false
    → (or_nil (get u (index_mappings maps).by_lpar_uuid)
        ≡ only (λ m. text_eq (str (lpar_uuid m)) u) maps)
      × (or_nil (get u (index_mappings maps).by_lpar_id)
          ≡ only (λ m. text_eq (str (lpar_id_text m)) u) maps)
      × (or_nil (get u (index_mappings maps).by_storage_udid)
          ≡ only (λ m. text_eq (str (storage_udid m.backing_storage)) u) maps)
unfolding index_mappings get udid_of
index_mappings_lem u maps h =
    let none_yet : Indexed = record { by_lpar_id = []; by_lpar_uuid = []; by_storage_udid = [] } in
    let (a, b, c) = index_each maps none_yet in
    (
      rw a (get-add_each lpar_uuid u maps [] h),
      rw b (get-add_each lpar_id_text u maps [] h),
      rw c (get-add_each udid_of u maps [] h),
    )
