-- ===== src/NetBridge/After.antt =====
-- What holds after a step of ensuring VLANs, with the arbitrary PVIDs that are left among them
-- (pypowervm/tasks/network_bridger.py).
use mathlib.Core.Path.{subst}
use pypowervm.Prelude.{
  ℕ, ◌+◌, ◌≤◌, String, true, false, Option, none, some, List, Option-cases, inl, inr, ◌≡◌, ◌≢◌,
  refl, sym, arith,
}
use pypowervm.Exec.{Result, ok, err, hang, continue, ◌>>=◌}
use pypowervm.Exec.Keeps.{Keeps}
use pypowervm.Retry.{Exn, other}
use pypowervm.NetBridge.{NetBridge, find_wrapper}
use pypowervm.Prelude.Keyed.{nat_key}
use pypowervm.NetBridge.Ensured.{wrapper_found}
use pypowervm.NetBridge.Trunks.{attribute_error}
use pypowervm.NetBridge.Bridger.{BridgeError, python, Host, Bridger, Act, wrapper, vid_or_raise}
use pypowervm.NetBridge.Reads.{Stores, AtMost}

AtMost-trans :
    (ids : List ℕ) (m n : ℕ) (o : Option NetBridge) → m ≤ n → AtMost ids m o → AtMost ids n o
AtMost-trans ids m n none h k = tt
AtMost-trans ids m n (some nb) h k = omega arith

-- A bridge and the VLANs that it is asked to have, on a host that stores what it is sent.
pub record Asked (S : Type 0) : Type 0 where
  pub host : Host S
  pub feed : S → List NetBridge
  pub st : Stores host feed
  pub nb_uuid : String
  pub ids : List ℕ

module _ {S : Type 0} (q : Asked S) where
  open q use {host, feed, st, nb_uuid, ids}

  abbrev pub Stored : ℕ → Bridger S → Type 0
  Stored n b = AtMost ids n (find_wrapper nb_uuid (feed b.world))

  abbrev pub Low : ℕ → Bridger S → Type 0
  Low n b = Stored n b × AtMost ids n (find_wrapper nb_uuid b.nb_wraps)

  -- What holds where a step has returned, by what it returned, or has raised. It has not hung.
  abbrev pub After :
      {A : Type 0} → ℕ → (A → Bridger S → Type 0) → Result (Exn BridgeError) A × Bridger S → Type 0
  After n Q (ok a, b) = Q a b
  After n Q (err e, b) = Stored n b
  After n Q (hang, b) = true ≡ false

  -- Fewer than n are left.
  abbrev pub Fewer : ℕ → Bridger S → Type 0
  Fewer n b = (k : ℕ) × (k + 1 ≤ n) × Stored k b

  after_kept :
      {A B : Type 0} (n : ℕ) (Q : B → Bridger S → Type 0) (r : Result (Exn BridgeError) A)
      (c : Bridger S) (f : A → Act S B)
      → r ≢ hang
      → Low n c
      → ((a : A) → After n Q (f a c))
      → After n Q (continue r f c)
  after_kept n Q (ok a) c f ends h k = k a
  after_kept n Q (err e) c f ends h k = h.0
  after_kept n Q hang c f ends h k = absurd (ends refl)

  -- A step that keeps the bound, and then another.
  pub after :
      {A B : Type 0} (n : ℕ) (Q : B → Bridger S → Type 0) (m : Act S A) (f : A → Act S B)
      → Keeps (Low n) m
      → ((a : A) (c : Bridger S) → Low n c → After n Q (f a c))
      → (b : Bridger S) → Low n b
      → After n Q ((m >>= f) b)
  after n Q m f keeps k b h =
      let (ends, low) = keeps b h in
      after_kept n Q (m b).0 (m b).1 f ends low (λ a. k a (m b).1 low)

  pub vid_after :
      {B : Type 0} (n : ℕ) (Q : B → Bridger S → Type 0) (o : Option ℕ) (f : ℕ → Act S B)
      → ((v : ℕ) (c : Bridger S) → o ≡ some v → Low n c → After n Q (f v c))
      → (b : Bridger S) → Low n b
      → After n Q ((vid_or_raise o >>= f) b)
  vid_after n Q none f k b h = h.0
  vid_after n Q (some v) f k b h = k v b refl h

  missing :
      (b : Bridger S)
      → find_wrapper nb_uuid b.nb_wraps ≡ none
      → (wrapper nb_uuid b) ≡ (err (other (python attribute_error)), b)
  unfolding wrapper
  missing b h = cc

  pub wrapper_after :
      {A : Type 0} (n : ℕ) (Q : A → Bridger S → Type 0) (f : NetBridge → Act S A) (b : Bridger S)
      → Low n b
      → ((req : NetBridge) → find_wrapper nb_uuid b.nb_wraps ≡ some req → After n Q (f req b))
      → After n Q ((wrapper nb_uuid >>= f) b)
  wrapper_after n Q f b low k = elim (Option-cases (find_wrapper nb_uuid b.nb_wraps)) [
    | inl e ↦ subst (λ r. After n Q (continue r.0 f r.1)) (sym (missing b e)) low.0
    | inr (req, e) ↦
        subst (λ r. After n Q (continue r.0 f r.1)) (sym (wrapper_found nb_uuid b req e)) (k req e)
  ]

  -- A run that did not hang, and where it raised, the bound holds of what the host has.
  abbrev pub IsEnded : ℕ → Result (Exn BridgeError) (Unit {0}) × Bridger S → Type 0
  IsEnded n r = After n (λ _ c. Unit {0}) r

  pub weaker :
      (m n : ℕ) (r : Result (Exn BridgeError) (Unit {0})) (c : Bridger S)
      → m ≤ n
      → IsEnded m (r, c)
      → IsEnded n (r, c)
  weaker m n (ok a) c le h = tt
  weaker m n (err e) c le h = AtMost-trans ids m n _ le h
  weaker m n hang c le h = h

  pub not_hung :
      (n : ℕ) (r : Result (Exn BridgeError) (Unit {0})) (c : Bridger S)
      → IsEnded n (r, c)
      → r ≢ hang
  not_hung n (ok a) c h e = ground arith
  not_hung n (err y) c h e = ground arith
  not_hung n hang c h e = ground arith
