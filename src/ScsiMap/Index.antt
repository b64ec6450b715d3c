-- ===== src/ScsiMap/Index.antt =====
-- index_mappings of pypowervm/tasks/scsi_mapper.py.
use pypowervm.Prelude.{
  String, true, Option, none, some, List, [], ◌∷◌, ◌++◌, text_eq, if◌then◌else◌,
}
use pypowervm.Prelude.Keyed.{text_key, get, put}
use pypowervm.Exn.{decimal}
use pypowervm.ScsiMap.{Mapping, Storage, path_uuid, or_nil}

pub record Indexed : Type 0 where
  pub by_lpar_id : List (String × List Mapping)
  pub by_lpar_uuid : List (String × List Mapping)
  pub by_storage_udid : List (String × List Mapping)

-- `str(ident)`
abbrev pub str : Option String → String
str none = "None"
str (some s) = s

unfoldable pub add :
    Option String → Mapping → List (String × List Mapping) → List (String × List Mapping)
unfolding get put
add ident smap d =
    if text_eq (str ident) ""
    then d
    else put (str ident) (or_nil (get (str ident) d) ++ smap ∷ []) d

abbrev pub storage_udid : Option Storage → Option String
storage_udid none = some ""
storage_udid (some s) = s.udid

-- A mapping without an href has no UUID, and one without storage no UDID.
abbrev pub lpar_uuid : Mapping → Option String
lpar_uuid m = elim m.client_lpar_href [ none ↦ some "" | some href ↦ path_uuid true (some href) ]

-- A mapping that was never on a server has no short ID of its client.
abbrev pub lpar_id_text : Mapping → Option String
lpar_id_text m = elim m.server_adapter.lpar_id [ none ↦ none | some n ↦ some (decimal n) ]

unfoldable pub index_one : Indexed → Mapping → Indexed
unfolding add
index_one ret m = record {
  by_lpar_uuid = add (lpar_uuid m) m ret.by_lpar_uuid;
  by_lpar_id = add (lpar_id_text m) m ret.by_lpar_id;
  by_storage_udid = add (storage_udid m.backing_storage) m ret.by_storage_udid;
}

unfoldable pub index_onto : Indexed → List Mapping → Indexed
unfolding index_one
index_onto ret [] = ret
index_onto ret (m ∷ ms) = index_onto (index_one ret m) ms

unfoldable pub index_mappings : List Mapping → Indexed
unfolding index_onto
index_mappings maps =
    index_onto (record { by_lpar_id = []; by_lpar_uuid = []; by_storage_udid = [] }) maps
