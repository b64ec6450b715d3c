-- ===== src/ScsiMap/Build.antt =====
-- The mapping that is built for a storage element (pypowervm/tasks/scsi_mapper.py, and VSCSIMapping
-- of pypowervm/wrappers/virtual_io_server.py).
use pypowervm.Prelude.{
  ℕ, String, Bool, false, not, ◌||◌, Option, none, some, [], is_some, text_eq, if◌then◌else◌,
}
use pypowervm.Exec.{Result, ok, err, hang}
use pypowervm.Href.{Url}
use pypowervm.ScsiMap.{Storage, ClientAdapter, Mapping, Vios, separate_mappings, clonable_map}

-- A ValueError, and an attribute of None.
pub data BuildError : Type 0 where
  value_error : BuildError
  attribute_error : BuildError

-- The slot number, LUA and target name that are asked for, None where the server is to choose, and
-- the identity of the element that is built.
pub record Request : Type 0 where
  pub lpar_slot_num : Option ℕ
  pub lua : Option String
  pub target_name : Option String
  pub element : ℕ

abbrev pub is_nonempty : Option String → Bool
is_nonempty none = false
is_nonempty (some s) = not (text_eq s "")

abbrev pub set_slot : Option ℕ → Option ClientAdapter → Result BuildError (Option ClientAdapter)
set_slot none ca = ok ca
set_slot (some n) none = err attribute_error
set_slot (some n) (some ca) = ok (some (record { slot = some n; use_next_slot = false }))

abbrev pub set_target : Request → Option Storage → Mapping → Result BuildError Mapping
set_target r stg m =
    if is_nonempty r.lua || is_nonempty r.target_name
    then elim stg [
      | none ↦ err value_error
      | some s ↦ ok (record m { target_dev = some (record { lua = r.lua; name = r.target_name }) })
    ]
    else ok m

-- The copy with the client adapter that is given, where there is one.
unfoldable pub with_adapter :
    Result BuildError (Option ClientAdapter)
    → Mapping
    → Option Storage
    → Request
    → Result BuildError Mapping
with_adapter (ok ca) m stg r = set_target r stg (record {
  element = r.element;
  client_lpar_href = m.client_lpar_href;
  client_adapter = ca;
  server_adapter = m.server_adapter;
  backing_storage = stg;
  target_dev = none;
})
with_adapter (err e) m stg r = err e
with_adapter hang m stg r = hang

-- `VSCSIMapping.bld_from_existing`
unfoldable pub bld_from_existing : Mapping → Option Storage → Request → Result BuildError Mapping
unfolding with_adapter
bld_from_existing m stg r = with_adapter (set_slot r.lpar_slot_num m.client_adapter) m stg r

-- `VSCSIMapping.bld`, with the href of the client LPAR. The server fills in the new server adapter.
unfoldable pub bld : Url → Storage → Request → Mapping
bld href stg r = record {
  element = r.element;
  client_lpar_href = some href;
  client_adapter =
      some (record { slot = r.lpar_slot_num; use_next_slot = not (is_some r.lpar_slot_num) });
  server_adapter = record { lpar_id = none; udid = none };
  backing_storage = some stg;
  target_dev =
      (if is_some r.lua || is_some r.target_name
        then some (record { lua = r.lua; name = r.target_name })
        else none);
}

-- The clone of the mapping that was chosen, or a new one.
unfoldable pub built_from : Option Mapping → Url → Storage → Request → Result BuildError Mapping
unfolding bld_from_existing bld
built_from none lpar_href stg r = ok (bld lpar_href stg r)
built_from (some m) lpar_href stg r = bld_from_existing m (some stg) r

-- `build_vscsi_mapping`, with the href of the client LPAR.
unfoldable pub build_vscsi_mapping : ℕ → Url → Vios → Storage → Request → Result BuildError Mapping
unfolding separate_mappings clonable_map built_from
build_vscsi_mapping fuse_limit lpar_href vios_w =
    built_from
      (clonable_map fuse_limit (separate_mappings (some lpar_href) [] vios_w.scsi_mappings))
      lpar_href
