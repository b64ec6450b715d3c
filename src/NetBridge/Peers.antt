-- ===== src/NetBridge/Peers.antt =====
-- What the removal of a VLAN does at the peer of a trunk adapter leaves the first Shared Ethernet
-- Adapter as it is (pypowervm/tasks/network_bridger.py).
use mathlib.Core.Path.{subst}
use pypowervm.Prelude.{
  ℕ, zero, suc, ◌⊎◌, Bool, true, false, Option, none, some, List, [], ◌∷◌, ◌==◌, get_elem?, All,
  if◌then◌else◌, inl, inr, ◌≡◌, refl, sym, ◌∙◌, ap, arith,
}
use pypowervm.Exec.{Result, ok, err, hang}
use pypowervm.NetBridge.{TrunkAdapter, Sea, NetBridge}
use pypowervm.NetBridge.Trunks.{
  Place, additional, peer_primary, peer_additional, PyError, change, find_peer_trunk, trunk_at,
}
use pypowervm.NetBridge.Untag.{
  same_trunk, trunk_in, take_out, set_vlans, put_vlans, take_from, take_each, then_do,
}

-- The trunk adapters have the priority, or none of them has it.
abbrev pub HavePriority : ℕ → List TrunkAdapter → Type 0
HavePriority p ts = All (λ t. t.trunk_pri ≡ p) ts

abbrev pub HaveOther : ℕ → List Sea → Type 0
HaveOther p seas =
    All (λ s. All (λ t. (t.trunk_pri == p) ≡ false) (s.primary_adpt ∷ s.addl_adpts)) seas

pub then_ok :
    (r : Result PyError NetBridge) (f : NetBridge → Result PyError NetBridge) (nb : NetBridge)
    → then_do r f ≡ ok nb
    → (x : NetBridge) × (r ≡ ok x) × (f x ≡ ok nb)
then_ok (ok x) f nb h = (x, refl, h)
then_ok (err e) f nb h = absurd (ground arith)
then_ok hang f nb h = absurd (ground arith)

pub take_each-first :
    (vlan : ℕ) (can_remove : Bool) (p : Place) (ps : List Place) (nb nb' : NetBridge)
    → take_each vlan can_remove (p ∷ ps) nb ≡ ok nb'
    → (x : NetBridge) × (take_from vlan can_remove p (trunk_at p nb) nb ≡ ok x)
      × (take_each vlan can_remove ps x ≡ ok nb')
unfolding take_each
take_each-first vlan can_remove p ps nb nb' h = then_ok _ _ nb' h

not_in :
    (p : ℕ) (t : TrunkAdapter) (ts : List TrunkAdapter)
    → (t.trunk_pri == p) ≡ false
    → HavePriority p ts
    → trunk_in t ts ≡ false
unfolding trunk_in same_trunk
not_in p t [] other h = refl
not_in p t (u ∷ us) other (h, hs) = ground (arith, not_in p t us other hs)

take_out_keeps :
    (t : TrunkAdapter) (nb : NetBridge)
    → trunk_in t nb.first_sea.addl_adpts ≡ false
    → (take_out t nb).first_sea ≡ nb.first_sea
unfolding take_out
take_out_keeps t nb h = rw h refl

abbrev is_peer : Place → Bool
is_peer peer_primary = true
is_peer (peer_additional i) = true
is_peer _ = false

All-get :
    (P : TrunkAdapter → Type 0) (ts : List TrunkAdapter) (i : ℕ) (t : TrunkAdapter)
    → All P ts
    → get_elem? ts i ≡ some t
    → P t
All-get P [] i t h e = absurd (ground arith)
All-get P (u ∷ us) zero t (h, hs) e = let same : u ≡ t = ground arith in subst P same h
All-get P (u ∷ us) (suc i) t (h, hs) e = All-get P us i t hs e

other_in :
    (p : ℕ) (q : Place) (seas : List Sea) (nb : NetBridge) (t : TrunkAdapter)
    → is_peer q ≡ true
    → nb.more_seas ≡ seas
    → HaveOther p seas
    → trunk_at q nb ≡ some t
    → (t.trunk_pri == p) ≡ false
unfolding trunk_at
other_in p (additional i) seas nb t peer same h e = absurd (ground arith)
other_in p peer_primary [] nb t peer same h e = absurd (ground arith)
other_in p peer_primary (s ∷ ss) nb t peer same ((h, hs), k) e = ground arith
other_in p (peer_additional i) [] nb t peer same h e = absurd (ground arith)
other_in p (peer_additional i) (s ∷ ss) nb t peer same ((h, hs), k) e =
    All-get (λ u. (u.trunk_pri == p) ≡ false) s.addl_adpts i t hs
      (let at : get_elem? s.addl_adpts i ≡ some t = ground arith in at)

change_keeps :
    (q : Place) (f : TrunkAdapter → TrunkAdapter) (nb : NetBridge)
    → is_peer q ≡ true
    → (change q f nb).first_sea ≡ nb.first_sea
unfolding change
change_keeps (additional i) f nb h = absurd (ground arith)
change_keeps peer_primary f nb h = refl
change_keeps (peer_additional i) f nb h = refl

taken_keeps :
    (out : Bool) (q : Place) (t : TrunkAdapter) (vlans : Option (List ℕ)) (nb x : NetBridge)
    → is_peer q ≡ true
    → trunk_in t nb.first_sea.addl_adpts ≡ false
    → (if out then ok (take_out t nb) else put_vlans q vlans nb) ≡ ok x
    → x.first_sea ≡ nb.first_sea
taken_keeps true q t vlans nb x peer apart h =
    let same : take_out t nb ≡ x = ground arith in
    ap (λ y. y.first_sea) (sym same) ∙ take_out_keeps t nb apart
taken_keeps false q t none nb x peer apart h = absurd (ground arith)
taken_keeps false q t (some vs) nb x peer apart h =
    let same : change q (set_vlans vs) nb ≡ x = ground arith in
    ap (λ y. y.first_sea) (sym same) ∙ change_keeps q (set_vlans vs) nb peer

take_from_keeps :
    (p vlan : ℕ) (can_remove : Bool) (q : Place) (o : Option TrunkAdapter) (nb x : NetBridge)
    → is_peer q ≡ true
    → HavePriority p nb.first_sea.addl_adpts
    → HaveOther p nb.more_seas
    → trunk_at q nb ≡ o
    → take_from vlan can_remove q o nb ≡ ok x
    → x.first_sea ≡ nb.first_sea
take_from_keeps p vlan can_remove q none nb x peer have other at h = absurd (ground arith)
take_from_keeps p vlan can_remove q (some t) nb x peer have other at h =
    taken_keeps _ q t _ nb x peer
      (not_in p t nb.first_sea.addl_adpts (other_in p q nb.more_seas nb t peer refl other at) have)
      h

one_of :
    (b : Bool) (o : Option ℕ)
    → ((if b then peer_primary ∷ [] else (elim o [ none ↦ [] | some i ↦ peer_additional i ∷ [] ]))
        ≡ [])
      ⊎ ((q : Place) × (is_peer q ≡ true)
          × ((if b
                then peer_primary ∷ []
                else (elim o [ none ↦ [] | some i ↦ peer_additional i ∷ [] ]))
              ≡ q ∷ []))
one_of true o = inr (peer_primary, refl, refl)
one_of false none = inl refl
one_of false (some i) = inr (peer_additional i, refl, refl)

one_peer :
    (ss : List Sea) (pvid : ℕ)
    → (find_peer_trunk ss pvid ≡ [])
      ⊎ ((q : Place) × (is_peer q ≡ true) × (find_peer_trunk ss pvid ≡ q ∷ []))
unfolding find_peer_trunk
one_peer [] pvid = inl refl
one_peer (s ∷ ss) pvid = one_of _ _

take_none :
    (vlan : ℕ) (can_remove : Bool) (nb x : NetBridge)
    → take_each vlan can_remove [] nb ≡ ok x
    → x.first_sea ≡ nb.first_sea
unfolding take_each
take_none vlan can_remove nb x h =
    let same : nb ≡ x = ground arith in ap (λ y. y.first_sea) (sym same)

-- The removal at the peers leaves the first SEA, where the SEAs have different trunk priorities.
pub peers_keep_first :
    (p vlan pvid : ℕ) (can_remove : Bool) (ss : List Sea) (nb x : NetBridge)
    → HavePriority p nb.first_sea.addl_adpts
    → HaveOther p nb.more_seas
    → take_each vlan can_remove (find_peer_trunk ss pvid) nb ≡ ok x
    → x.first_sea ≡ nb.first_sea
peers_keep_first p vlan pvid can_remove ss nb x have other h = elim (one_peer ss pvid) [
  | inl e ↦
      (take_none vlan can_remove nb x (ap (λ ps. take_each vlan can_remove ps nb) (sym e) ∙ h))
  | inr (q, peer, e) ↦
      (let (y, h1, h2) =
          take_each-first vlan can_remove q [] nb x
            (ap (λ ps. take_each vlan can_remove ps nb) (sym e) ∙ h) in
        take_none vlan can_remove y x h2
        ∙ take_from_keeps p vlan can_remove q (trunk_at q nb) nb y peer have other refl h1)
]
