-- ===== src/NetBridge/Stale.antt =====
-- A removal of a VLAN that is tried again on wrappers that were changed already
-- (pypowervm/tasks/network_bridger.py).
use pypowervm.Prelude.{
  ℕ, String, Bool, true, false, ◌||◌, ◌&&◌, some, List, ◌∷◌, ◌==◌, length, nat_in, ◌≡◌, refl, ◌∙◌,
  ap, arith,
}
use pypowervm.Exec.{ok, err}
use pypowervm.Retry.{http, etag_mismatch}
use pypowervm.NetBridge.{
  LoadGroup, NetBridge, arbitrary_pvids, supports_vlan, find_wrapper, put_wrapper,
}
use pypowervm.NetBridge.Untag.{remove_vlan_from_nb}
use pypowervm.NetBridge.Bridger.{BridgeError, Host, Bridger, update_nb, store}
use pypowervm.NetBridge.Synch.{remove_supported, remove_from, remove_try, remove_vlan_from_nb_synch}
use pypowervm.NetBridge.Ensured.{wrapper_found}
use pypowervm.NetBridge.Retried.{retried_again}

-- The VLAN can be taken from the bridge: it is not arbitrary, not on the first load group, and there
-- is another group.
abbrev pub IsRemovable : ℕ → NetBridge → Type 0
IsRemovable vlan nb =
    (nat_in vlan (arbitrary_pvids nb) ≡ false)
    × (supports_vlan vlan nb ≡ true)
    × (g : LoadGroup) × (gs : List LoadGroup) × (nb.load_grps ≡ g ∷ gs)
    × (((g.lg_pvid == vlan) || nat_in vlan g.lg_tagged_vlans || (length (g ∷ gs) == 1)) ≡ false)
    × ((g.lg_pvid == vlan) ≡ false)

-- The VLAN is not on the bridge.
abbrev pub IsGone : ℕ → NetBridge → Type 0
IsGone vlan nb = (nat_in vlan (arbitrary_pvids nb) ≡ false) × (supports_vlan vlan nb ≡ false)

module _ {S : Type 0} (host : Host S) (nb_uuid : String) (vlan : ℕ) (fail_if_pvid : Bool)
    (b : Bridger S) (nb nb' : NetBridge) (e : BridgeError) (w1 w2 : S) where
  abbrev changed_wrappers : S → Bridger S
  changed_wrappers w = record b { world = w; nb_wraps = put_wrapper nb' b.nb_wraps }

  update_refused :
      host.update nb' b.world ≡ (err (http etag_mismatch e), w1)
      → update_nb host nb' b ≡ (err (http etag_mismatch e), changed_wrappers w1)
  unfolding update_nb store
  update_refused h = rw h refl

  taken_then_refused :
      (g : LoadGroup) (gs : List LoadGroup)
      → ((g.lg_pvid == vlan) || nat_in vlan g.lg_tagged_vlans || (length (g ∷ gs) == 1)) ≡ false
      → (fail_if_pvid && (g.lg_pvid == vlan)) ≡ false
      → remove_vlan_from_nb vlan nb ≡ ok nb'
      → host.update nb' b.world ≡ (err (http etag_mismatch e), w1)
      → remove_supported host vlan fail_if_pvid nb (g ∷ gs) b
        ≡ (err (http etag_mismatch e), changed_wrappers w1)
  unfolding remove_supported
  taken_then_refused g gs kept may taken refused =
      rw may (rw kept (rw taken (update_refused refused)))

  never_fails : (f p : Bool) → p ≡ false → (f && p) ≡ false
  never_fails f p h = ground arith

  first_try :
      IsRemovable vlan nb
      → remove_vlan_from_nb vlan nb ≡ ok nb'
      → host.update nb' b.world ≡ (err (http etag_mismatch e), w1)
      → remove_from host vlan fail_if_pvid nb b ≡ (err (http etag_mismatch e), changed_wrappers w1)
  unfolding remove_from
  first_try (free, has, g, gs, groups, kept, other_pvid) taken refused =
      rw (free, has)
        (ap (λ l. remove_supported host vlan fail_if_pvid nb l b) groups
          ∙ taken_then_refused g gs kept (never_fails fail_if_pvid _ other_pvid) taken refused)

  second_try :
      (c : Bridger S) → IsGone vlan nb' → remove_from host vlan fail_if_pvid nb' c ≡ (ok tt, c)
  unfolding remove_from
  second_try c (free, gone) = rw (free, gone) refl

  -- If the VLAN can be taken from the bridge among the existing wrappers, the changed wrapper has it
  -- no more, and the update is refused because of its etag, then the removal on existing wrappers
  -- returns after the delay: its second try finds the VLAN gone from the wrapper and updates nothing.
  pub remove_vlan_from_nb_synch-IsGone :
      find_wrapper nb_uuid b.nb_wraps ≡ some nb
      → IsRemovable vlan nb
      → remove_vlan_from_nb vlan nb ≡ ok nb'
      → find_wrapper nb_uuid (put_wrapper nb' b.nb_wraps) ≡ some nb'
      → IsGone vlan nb'
      → host.update nb' b.world ≡ (err (http etag_mismatch e), w1)
      → host.sleep 1 60 w1 ≡ (ok tt, w2)
      → remove_vlan_from_nb_synch host nb_uuid vlan fail_if_pvid true b
        ≡ (ok tt, changed_wrappers w2)
  unfolding remove_vlan_from_nb_synch
  remove_vlan_from_nb_synch-IsGone found removable taken stored gone refused slept =
      retried_again host (remove_try host nb_uuid vlan fail_if_pvid true) b e (changed_wrappers w1)
        w2 (changed_wrappers w2)
        (unfold remove_try in
          rw (wrapper_found nb_uuid b nb found) (first_try removable taken refused))
        slept
        (unfold remove_try in
          rw (wrapper_found nb_uuid (changed_wrappers w2) nb' stored)
            (second_try (changed_wrappers w2) gone))
