-- ===== src/ScsiMap.antt =====
-- Virtual SCSI mappings: which ones a search finds, and the mapping built for a storage element
-- (pypowervm/tasks/scsi_mapper.py, VSCSIMapping of pypowervm/wrappers/virtual_io_server.py).
use Prim.Native.Char.{Char, code}
use pypowervm.Prelude.{
  ℕ, String, Bool, true, false, not, ◌&&◌, ◌||◌, Option, none, some, List, [], ◌∷◌, ◌++◌, ◌==◌, ltb,
  length, is_in, is_some, text_eq, if◌then◌else◌, ◌≡◌, ◌↔◌, refl, ap, text_eq_iff, arith,
}
use pypowervm.Prelude.Keyed.{KeyEq, get, put}
use pypowervm.Href.{Url, get_req_path_uuid}
use pypowervm.Sanitize.{chars}
pub mod Index
pub mod Build
pub mod Ops
pub mod Rest
pub mod Remove
pub mod Silos
mod Bus
mod Added
mod Indexed
mod Examples

-- The wrapper classes of storage elements.
pub data StgClass : Type 0 where
  v_disk : StgClass
  v_opt_media : StgClass
  lu : StgClass
  pv : StgClass

pub record Storage : Type 0 where
  cls : StgClass
  schema_type : String
  name : String
  media_name : String
  udid : Option String

pub record ClientAdapter : Type 0 where
  slot : Option ℕ
  use_next_slot : Bool

pub record ServerAdapter : Type 0 where
  lpar_id : Option ℕ
  udid : Option String

pub record TargetDev : Type 0 where
  lua : Option String
  name : Option String

-- `element` is the identity of the mapping's XML element.
pub record Mapping : Type 0 where
  element : ℕ
  client_lpar_href : Option Url
  client_adapter : Option ClientAdapter
  server_adapter : ServerAdapter
  backing_storage : Option Storage
  target_dev : Option TargetDev

pub record Vios : Type 0 where
  uuid : String
  scsi_mappings : List Mapping

-- A client LPAR as uuid.id_or_uuid reads it: a short ID or a UUID.
pub data LparId : Type 0 where
  short : ℕ → LparId
  uuid : String → LparId

abbrev same_class : StgClass → StgClass → Bool
same_class v_disk v_disk = true
same_class v_opt_media v_opt_media = true
same_class lu lu = true
same_class pv pv = true
same_class _ _ = false

-- The property on which names are matched.
pub data NameProp : Type 0 where
  by_name : NameProp
  by_media_name : NameProp

abbrev prop_of : NameProp → Storage → String
prop_of by_name s = s.name
prop_of by_media_name s = s.media_name

-- `s.startswith(prefix)`
starts : List Char → List Char → Bool
starts [] cs = true
starts (p ∷ ps) [] = false
starts (p ∷ ps) (c ∷ cs) = code p == code c && starts ps cs

any_prefix : List String → String → Bool
unfolding starts
any_prefix [] s = false
any_prefix (p ∷ ps) s = starts (chars p) (chars s) || any_prefix ps s

-- The matching function, with the lists in place of None or empty ones.
unfoldable pub gen_match_func :
    StgClass → NameProp → List String → List String → List String → Option Storage → Bool
unfolding is_in any_prefix
gen_match_func wcls name_prop names prefixes udids none = false
gen_match_func wcls name_prop (n ∷ ns) prefixes udids (some s) =
    same_class s.cls wcls && is_in (prop_of name_prop s) (n ∷ ns)
gen_match_func wcls name_prop [] (p ∷ ps) udids (some s) =
    same_class s.cls wcls && any_prefix (p ∷ ps) (prop_of name_prop s)
gen_match_func wcls name_prop [] [] (u ∷ us) (some s) =
    same_class s.cls wcls && (elim s.udid [ none ↦ false | some v ↦ is_in v (u ∷ us) ])
gen_match_func wcls name_prop [] [] [] (some s) = same_class s.cls wcls

-- The arguments match_func and stg_elem. Both at once are a ValueError, which is left out.
pub data Wanted : Type 0 where
  everything : Wanted
  matching : (Option Storage → Bool) → Wanted
  storing : Storage → Wanted

unfoldable pub match_func : Wanted → Option Storage → Bool
match_func everything stg = true
match_func (matching f) stg = f stg
match_func (storing e) none = false
match_func (storing e) (some s) = text_eq s.schema_type e.schema_type && text_eq s.name e.name

-- `x == y`, where both may be None.
abbrev pub option_eq : Option String → Option String → Bool
option_eq none none = true
option_eq (some a) (some b) = text_eq a b
option_eq none (some b) = false
option_eq (some a) none = false

abbrev pub path_uuid : Bool → Option Url → Option String
path_uuid preserve_case none = none
path_uuid preserve_case (some href) = get_req_path_uuid preserve_case false href

-- The mapping is to the client, by the href for a UUID and by the server adapter for a short ID.
unfoldable pub is_to : Option LparId → Mapping → Bool
is_to none m = true
is_to (some (uuid u)) m =
    is_some m.client_lpar_href && option_eq (some u) (path_uuid true m.client_lpar_href)
is_to (some (short n)) m =
    n == 0 || (elim m.server_adapter.lpar_id [ none ↦ false | some k ↦ k == n ])

unfoldable pub is_found : Option LparId → Wanted → Bool → Mapping → Bool
unfolding is_to match_func
is_found client_lpar_id wanted include_orphans m =
    if not include_orphans && not (is_some m.client_adapter)
    then false
    else if is_to client_lpar_id m
    then match_func wanted m.backing_storage
    else false

unfoldable pub find_maps : Option LparId → Wanted → Bool → List Mapping → List Mapping
unfolding is_found
find_maps client_lpar_id wanted include_orphans [] = []
find_maps client_lpar_id wanted include_orphans (m ∷ ms) =
    let rest = find_maps client_lpar_id wanted include_orphans ms in
    if is_found client_lpar_id wanted include_orphans m then m ∷ rest else rest

pub option_eq_iff : (a b : Option String) → (option_eq a b ≡ true) ↔ (a ≡ b)
option_eq_iff none none = (λ h. refl, λ h. refl)
option_eq_iff none (some b) = (λ h. ground arith, λ h. ground arith)
option_eq_iff (some a) none = (λ h. ground arith, λ h. ground arith)
option_eq_iff (some a) (some b) =
    (λ h. ap some ((text_eq_iff a b).0 h), λ h. (text_eq_iff a b).1 (ground (arith, h)))

instance abbrev pub udid_key : KeyEq (Option String)
udid_key = record { beq = option_eq; beq_iff = option_eq_iff }

abbrev pub or_nil {ℓ} : {A : Type ℓ} → Option (List A) → List A
or_nil none = []
or_nil (some xs) = xs

-- _separate_mappings, with what `resp` has so far.
unfoldable pub separate_mappings :
    Option Url
    → List (Option String × List Mapping)
    → List Mapping
    → List (Option String × List Mapping)
unfolding get put
separate_mappings client_href resp [] = resp
separate_mappings client_href resp (m ∷ ms) =
    let key = m.server_adapter.udid in
    let added = put key (or_nil (get key resp) ++ m ∷ []) resp in
    separate_mappings client_href
      (if option_eq (path_uuid false m.client_lpar_href) (path_uuid false client_href)
          && is_some m.client_adapter
        then added
        else resp)
      ms

-- The first mapping of the first list below the fuse limit. The lists are not empty.
unfoldable pub clonable_map : ℕ → List (Option String × List Mapping) → Option Mapping
clonable_map fuse_limit [] = none
clonable_map fuse_limit ((k, []) ∷ d) = clonable_map fuse_limit d
clonable_map fuse_limit ((k, m ∷ ms) ∷ d) =
    let rest = clonable_map fuse_limit d in
    if ltb (length (m ∷ ms)) fuse_limit then some m else rest
