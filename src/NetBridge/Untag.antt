-- ===== src/NetBridge/Untag.antt =====
-- NetworkBridgerTA of pypowervm/tasks/network_bridger.py: `_remove_vlan_from_nb`, and the change of an
-- arbitrary PVID in `_reassign_arbitrary_vid`.
use pypowervm.Prelude.{
  ℕ, Bool, true, false, ◌&&◌, Option, none, some, List, [], ◌∷◌, ◌==◌, ltb, length, get_elem?,
  text_eq, nat_in, if◌then◌else◌,
}
use pypowervm.Exec.{Result, ok, err, hang}
use pypowervm.NetBridge.{TrunkAdapter, Sea, NetBridge}
use pypowervm.NetBridge.Trunks.{
  Place, PyError, type_error, value_error, attribute_error, with_addl, change, change_each,
  trunk_at, position, trunk_list,
}

unfoldable pub same_vlans : List ℕ → List ℕ → Bool
same_vlans [] [] = true
same_vlans [] (y ∷ ys) = false
same_vlans (x ∷ xs) [] = false
same_vlans (x ∷ xs) (y ∷ ys) = (x == y) && same_vlans xs ys

abbrev pub same_rest : Option ℕ → Option ℕ → Bool
same_rest none none = true
same_rest none (some n) = false
same_rest (some n) none = false
same_rest (some m) (some n) = m == n

-- ElementWrapper.__eq__: the elements hold the same.
unfoldable pub same_trunk : TrunkAdapter → TrunkAdapter → Bool
unfolding same_vlans
same_trunk t u =
    text_eq t.dev_name u.dev_name
    && (t.pvid == u.pvid)
    && same_vlans t.tagged_vlans u.tagged_vlans
    && (t.vswitch_id == u.vswitch_id)
    && (t.trunk_pri == u.trunk_pri)
    && same_rest t.rest u.rest

unfoldable pub trunk_in : TrunkAdapter → List TrunkAdapter → Bool
unfolding same_trunk
trunk_in t [] = false
trunk_in t (u ∷ us) = if same_trunk u t then true else trunk_in t us

-- list.remove, for a trunk adapter that is there
unfoldable pub drop_trunk : TrunkAdapter → List TrunkAdapter → List TrunkAdapter
unfolding same_trunk
drop_trunk t [] = []
drop_trunk t (u ∷ us) = let rest = drop_trunk t us in if same_trunk u t then us else u ∷ rest

unfoldable pub drop_from : TrunkAdapter → List Sea → List Sea
unfolding trunk_in drop_trunk
drop_from t [] = []
drop_from t (s ∷ ss) =
    let rest = drop_from t ss in
    if trunk_in t s.addl_adpts then with_addl (drop_trunk t) s ∷ ss else s ∷ rest

-- The loop that removes the trunk adapter from the first SEA that has it.
unfoldable pub take_out : TrunkAdapter → NetBridge → NetBridge
unfolding trunk_in drop_trunk drop_from
take_out t nb =
    if trunk_in t nb.first_sea.addl_adpts
    then record nb { first_sea = with_addl (drop_trunk t) nb.first_sea }
    else record nb { more_seas = drop_from t nb.more_seas }

-- list.remove, which is a ValueError for a value that is not there
unfoldable pub remove_vlan : ℕ → List ℕ → Option (List ℕ)
remove_vlan vlan [] = none
remove_vlan vlan (v ∷ vs) =
    let rest = remove_vlan vlan vs in
    if v == vlan then some vs else elim rest [ none ↦ none | some ws ↦ some (v ∷ ws) ]

abbrev pub set_vlans : List ℕ → TrunkAdapter → TrunkAdapter
set_vlans vlans t = record t { tagged_vlans = vlans }

abbrev pub put_vlans : Place → Option (List ℕ) → NetBridge → Result PyError NetBridge
put_vlans p none nb = err value_error
put_vlans p (some vlans) nb = ok (change p (set_vlans vlans) nb)

abbrev pub take_from : ℕ → Bool → Place → Option TrunkAdapter → NetBridge → Result PyError NetBridge
take_from vlan can_remove p none nb = err attribute_error
take_from vlan can_remove p (some t) nb =
    if (length t.tagged_vlans == 1) && can_remove
    then ok (take_out t nb)
    else put_vlans p (remove_vlan vlan t.tagged_vlans) nb

abbrev pub then_do :
    Result PyError NetBridge → (NetBridge → Result PyError NetBridge) → Result PyError NetBridge
then_do (ok nb) f = f nb
then_do (err e) f = err e
then_do hang f = hang

-- The loop over matching_tas.
unfoldable pub take_each : ℕ → Bool → List Place → NetBridge → Result PyError NetBridge
unfolding trunk_at take_out remove_vlan change
take_each vlan can_remove [] nb = ok nb
take_each vlan can_remove (p ∷ ps) nb =
    then_do (take_from vlan can_remove p (trunk_at p nb) nb) (take_each vlan can_remove ps)

abbrev pub has_vlan : ℕ → TrunkAdapter → Bool
has_vlan vlan t = nat_in vlan t.tagged_vlans

-- The places of the first additional adapter with the property and of its peer.
unfoldable pub matching_tas : (TrunkAdapter → Bool) → NetBridge → Option (List Place)
unfolding position trunk_list
matching_tas p nb = elim (position p 0 nb.first_sea.addl_adpts) [
  | none ↦ none
  | some i ↦ (elim (get_elem? nb.first_sea.addl_adpts i) [
    | none ↦ none
    | some t ↦ some (trunk_list nb i t)
  ])
]

abbrev pub can_remove_for_lb : NetBridge → Bool
can_remove_for_lb nb = if nb.load_balance then ltb 1 (length nb.first_sea.addl_adpts) else true

-- `_remove_vlan_from_nb`: where no trunk adapter has the VLAN, None is iterated.
unfoldable pub remove_vlan_from_nb : ℕ → NetBridge → Result PyError NetBridge
unfolding matching_tas take_each
remove_vlan_from_nb vlan nb = elim (matching_tas (has_vlan vlan) nb) [
  | none ↦ err type_error
  | some tas ↦ take_each vlan (can_remove_for_lb nb) tas nb
]

abbrev pub set_pvid : ℕ → TrunkAdapter → TrunkAdapter
set_pvid vid t = record t { pvid = vid }

-- `_reassign_arbitrary_vid` up to its update: where no additional adapter of the bridge has the old
-- PVID, it is set on None.
unfoldable pub reassigned : ℕ → ℕ → NetBridge → Result PyError NetBridge
unfolding matching_tas change_each
reassigned old_vid new_vid nb = elim (matching_tas (λ t. t.pvid == old_vid) nb) [
  | none ↦ err attribute_error
  | some tas ↦ ok (change_each tas (set_pvid new_vid) nb)
]
