-- ===== src/NetBridge/Uuids.antt =====
-- A network bridge keeps its UUID, and a wrapper that is stored is found by it
-- (pypowervm/tasks/network_bridger.py).
use pypowervm.Prelude.{
  ℕ, zero, suc, ◌+◌, String, Bool, true, false, Option, none, some, List, [], ◌∷◌, ◌==◌, nat_in,
  get_elem?, text_eq, text_eq_iff, if◌then◌else◌, Bool-cases, Option-cases, inl, inr, ◌≡◌, refl,
  sym, ◌∙◌, ◌≢◌, ap, arith,
}
use pypowervm.Exec.{Result, ok, err, hang}
use pypowervm.NetBridge.{TrunkAdapter, NetBridge, pvids, arbitrary_pvids, find_wrapper, put_wrapper}
use pypowervm.NetBridge.Trunks.{
  Place, additional, peer_primary, peer_additional, PyError, change_at, change, change_each,
  trunk_at,
}
use pypowervm.NetBridge.Untag.{
  trunk_in, take_out, remove_vlan, set_vlans, put_vlans, then_do, take_from, take_each, has_vlan,
  matching_tas, can_remove_for_lb, remove_vlan_from_nb, set_pvid, reassigned,
}
use pypowervm.NetBridge.Placed.{first_sea-change_each}
use pypowervm.NetBridge.Peers.{then_ok}
use pypowervm.NetBridge.Removed.{matched_place}

uuid-change :
    (p : Place) (f : TrunkAdapter → TrunkAdapter) (nb : NetBridge) → (change p f nb).uuid ≡ nb.uuid
unfolding change
uuid-change (additional i) f nb = refl
uuid-change peer_primary f nb = refl
uuid-change (peer_additional i) f nb = refl

uuid-change_each :
    (ps : List Place) (f : TrunkAdapter → TrunkAdapter) (nb : NetBridge)
    → (change_each ps f nb).uuid ≡ nb.uuid
unfolding change_each
uuid-change_each [] f nb = refl
uuid-change_each (p ∷ ps) f nb = uuid-change_each ps f (change p f nb) ∙ uuid-change p f nb

uuid-take_out : (t : TrunkAdapter) (nb : NetBridge) → (take_out t nb).uuid ≡ nb.uuid
unfolding take_out
uuid-take_out t nb = elim (Bool-cases (trunk_in t nb.first_sea.addl_adpts)) [
  | inl e ↦ rw e refl
  | inr e ↦ rw e refl
]

uuid-either :
    (b : Bool) (p : Place) (t : TrunkAdapter) (o : Option (List ℕ)) (nb x : NetBridge)
    → (if b then ok (take_out t nb) else put_vlans p o nb) ≡ ok x
    → x.uuid ≡ nb.uuid
uuid-either true p t o nb x h =
    let same : take_out t nb ≡ x = ground arith in ap (λ y. y.uuid) (sym same) ∙ uuid-take_out t nb
uuid-either false p t none nb x h = absurd (ground arith)
uuid-either false p t (some vs) nb x h =
    let same : change p (set_vlans vs) nb ≡ x = ground arith in
    ap (λ y. y.uuid) (sym same) ∙ uuid-change p (set_vlans vs) nb

uuid-take_from :
    (vlan : ℕ) (can : Bool) (p : Place) (o : Option TrunkAdapter) (nb x : NetBridge)
    → take_from vlan can p o nb ≡ ok x
    → x.uuid ≡ nb.uuid
uuid-take_from vlan can p none nb x h = absurd (ground arith)
uuid-take_from vlan can p (some t) nb x h =
    uuid-either _ p t (remove_vlan vlan t.tagged_vlans) nb x h

uuid-take_each :
    (vlan : ℕ) (can : Bool) (ps : List Place) (nb x : NetBridge)
    → take_each vlan can ps nb ≡ ok x
    → x.uuid ≡ nb.uuid
unfolding take_each
uuid-take_each vlan can [] nb x h = let same : nb ≡ x = ground arith in ap (λ y. y.uuid) (sym same)
uuid-take_each vlan can (p ∷ ps) nb x h =
    let (y, h1, h2) =
      then_ok (take_from vlan can p (trunk_at p nb) nb) (take_each vlan can ps) x h in
    uuid-take_each vlan can ps y x h2 ∙ uuid-take_from vlan can p (trunk_at p nb) nb y h1

pub uuid-remove_vlan_from_nb :
    (vlan : ℕ) (nb x : NetBridge) → remove_vlan_from_nb vlan nb ≡ ok x → x.uuid ≡ nb.uuid
unfolding remove_vlan_from_nb
uuid-remove_vlan_from_nb vlan nb x h = elim (Option-cases (matching_tas (has_vlan vlan) nb)) [
  | inl e ↦ absurd (ground arith)
  | inr (tas, e) ↦
      (let all : take_each vlan (can_remove_for_lb nb) tas nb ≡ ok x = ground arith in
        uuid-take_each vlan (can_remove_for_lb nb) tas nb x all)
]

-- How many arbitrary PVIDs are among the VLANs.
abbrev pub hits : List ℕ → List ℕ → ℕ
hits ids [] = 0
hits ids (p ∷ ps) = let rest = hits ids ps in if nat_in p ids then suc rest else rest

abbrev has_old : ℕ → TrunkAdapter → Bool
has_old old_vid t = t.pvid == old_vid

hits_changed :
    (ids : List ℕ) (old_vid new_vid i : ℕ) (t : TrunkAdapter) (ts : List TrunkAdapter)
    → nat_in old_vid ids ≡ true
    → nat_in new_vid ids ≡ false
    → get_elem? ts i ≡ some t
    → has_old old_vid t ≡ true
    → hits ids (pvids (change_at i (set_pvid new_vid) ts)) + 1 ≡ hits ids (pvids ts)
unfolding change_at
hits_changed ids o n i t [] a b g h = absurd (ground arith)
hits_changed ids o n zero t (u ∷ us) a b g h =
    let same : u ≡ t = ground arith in
    let is_old : t.pvid ≡ o = ground arith in
    let old_in : nat_in u.pvid ids ≡ true =
      ap (λ x. nat_in x.pvid ids) same ∙ ap (λ x. nat_in x ids) is_old ∙ a in
    rw old_in (rw b (omega arith))
hits_changed ids o n (suc i) t (u ∷ us) a b g h =
    ground (arith, hits_changed ids o n i t us a b g h)

pub reassigned_lem :
    (ids : List ℕ) (old_vid new_vid : ℕ) (nb x : NetBridge)
    → nat_in old_vid ids ≡ true
    → nat_in new_vid ids ≡ false
    → reassigned old_vid new_vid nb ≡ ok x
    → hits ids (arbitrary_pvids x) + 1 ≡ hits ids (arbitrary_pvids nb)
unfolding reassigned
reassigned_lem ids o n nb x a b h = elim (Option-cases (matching_tas (has_old o) nb)) [
  | inl e ↦ absurd (ground arith)
  | inr (tas, e) ↦
      (let (i, t, at, is_old, same) = matched_place (has_old o) nb tas e in
        let made : change_each tas (set_pvid n) nb ≡ x = ground arith in
        let first =
          ap (λ y. y.first_sea) (sym made)
          ∙ ap (λ ps. (change_each ps (set_pvid n) nb).first_sea) (sym same)
          ∙ first_sea-change_each i t (set_pvid n) nb in
        ap (λ s. hits ids (pvids s.addl_adpts) + 1) first
        ∙ hits_changed ids o n i t nb.first_sea.addl_adpts a b at is_old)
]

pub uuid-reassigned :
    (old_vid new_vid : ℕ) (nb x : NetBridge)
    → reassigned old_vid new_vid nb ≡ ok x
    → x.uuid ≡ nb.uuid
unfolding reassigned
uuid-reassigned o n nb x h = elim (Option-cases (matching_tas (has_old o) nb)) [
  | inl e ↦ absurd (ground arith)
  | inr (tas, e) ↦
      (let made : change_each tas (set_pvid n) nb ≡ x = ground arith in
        ap (λ y. y.uuid) (sym made) ∙ uuid-change_each tas (set_pvid n) nb)
]

pub find-put_other :
    (u : String) (nb : NetBridge) (nbs : List NetBridge)
    → text_eq nb.uuid u ≡ false
    → find_wrapper u (put_wrapper nb nbs) ≡ find_wrapper u nbs
unfolding find_wrapper put_wrapper
find-put_other u nb [] h = refl
find-put_other u nb (w ∷ ws) h =
    ground (arith, find-put_other u nb ws h, text_eq_iff w.uuid nb.uuid, text_eq_iff w.uuid u)

pub find-put_same :
    (u : String) (nb x : NetBridge) (nbs : List NetBridge)
    → text_eq nb.uuid u ≡ true
    → find_wrapper u (put_wrapper nb nbs) ≡ some x
    → x ≡ nb
unfolding find_wrapper put_wrapper
find-put_same u nb x [] h f = absurd (ground arith)
find-put_same u nb x (w ∷ ws) h f = ground (
  arith,
  find-put_same u nb x ws h,
  text_eq_iff w.uuid nb.uuid,
  text_eq_iff w.uuid u,
  text_eq_iff nb.uuid u,
)

pub find_wrapper-uuid :
    (u : String) (nb : NetBridge) (nbs : List NetBridge)
    → find_wrapper u nbs ≡ some nb
    → text_eq nb.uuid u ≡ true
unfolding find_wrapper
find_wrapper-uuid u nb [] h = absurd (ground arith)
find_wrapper-uuid u nb (w ∷ ws) h = ground (arith, find_wrapper-uuid u nb ws)

either_ends :
    (b : Bool) (p : Place) (t : TrunkAdapter) (o : Option (List ℕ)) (nb : NetBridge)
    → (if b then ok (take_out t nb) else put_vlans p o nb) ≢ hang
either_ends true p t o nb h = ground arith
either_ends false p t none nb h = ground arith
either_ends false p t (some vs) nb h = ground arith

take_from_ends :
    (vlan : ℕ) (can : Bool) (p : Place) (o : Option TrunkAdapter) (nb : NetBridge)
    → take_from vlan can p o nb ≢ hang
take_from_ends vlan can p none nb h = ground arith
take_from_ends vlan can p (some t) nb h = either_ends _ p t (remove_vlan vlan t.tagged_vlans) nb h

then_ends :
    (r : Result PyError NetBridge) (f : NetBridge → Result PyError NetBridge)
    → r ≢ hang
    → ((x : NetBridge) → f x ≢ hang)
    → then_do r f ≢ hang
then_ends (ok x) f e g h = g x h
then_ends (err x) f e g h = ground arith
then_ends hang f e g h = e refl

take_each_ends :
    (vlan : ℕ) (can : Bool) (ps : List Place) (nb : NetBridge) → take_each vlan can ps nb ≢ hang
unfolding take_each
take_each_ends vlan can [] nb h = ground arith
take_each_ends vlan can (p ∷ ps) nb h =
    then_ends (take_from vlan can p (trunk_at p nb) nb) (take_each vlan can ps)
      (take_from_ends vlan can p (trunk_at p nb) nb) (take_each_ends vlan can ps) h

pub remove_vlan_from_nb_ends : (vlan : ℕ) (nb : NetBridge) → remove_vlan_from_nb vlan nb ≢ hang
unfolding remove_vlan_from_nb
remove_vlan_from_nb_ends vlan nb h = elim (Option-cases (matching_tas (has_vlan vlan) nb)) [
  | inl e ↦ ground arith
  | inr (tas, e) ↦
      take_each_ends vlan (can_remove_for_lb nb) tas nb
        (let all : take_each vlan (can_remove_for_lb nb) tas nb ≡ hang = ground arith in all)
]

pub reassigned_ends : (o n : ℕ) (nb : NetBridge) → reassigned o n nb ≢ hang
unfolding reassigned
reassigned_ends o n nb h = ground arith
