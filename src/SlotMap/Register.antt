-- ===== src/SlotMap/Register.antt =====
-- Registering and dropping slots in the store of pypowervm/tasks/slot_map.py.
use pypowervm.Prelude.{
  ℕ, String, ◌≡◌, ◌≢◌, refl, ap, ◌∙◌, Option-cases, Bool, true, false, Option, none, some, List, [],
  ◌∷◌, ◌&&◌, arith, if◌then◌else◌, ◌==◌, text_eq, text_eq_iff, inl, inr,
}
use pypowervm.Prelude.Keyed.{
  get, has_key, put, del, nat_key, text_key, get-put, get-del, nat_beq_iff, has_key-get,
  has_key-put, KeyEq, del-put_fresh, put-put, put-get,
}
use pypowervm.SlotMap.{
  Spec, Keys, Classes, Topology, reg_topo, drop_topo, or_nil, classes_without, topo_without,
}

-- What the topology says of a device at a slot.
abbrev pub spec_at : Topology → ℕ → String → String → Option Spec
spec_at t slot io_class io_key = elim (get slot t) [
  | none ↦ none
  | some classes ↦ elim (get io_class classes) [ none ↦ none | some keys ↦ get io_key keys ]
]

-- Registering a device sets what the topology says of it and leaves what it says of every other.
spec_at-reg_topo :
    (io_class io_key : String) (slot : ℕ) (spec : Spec) (t : Topology) (j : ℕ) (c k : String)
    → spec_at (reg_topo io_class io_key slot spec t) j c k ≡ (
        if (slot == j) && (text_eq io_class c && text_eq io_key k)
        then some spec
        else spec_at t j c k)
unfolding reg_topo get
spec_at-reg_topo io_class io_key slot spec t j c k = ground (
  arith,
  get-put slot j
      (put io_class (put io_key spec (or_nil (get io_class (or_nil (get slot t)))))
        (or_nil (get slot t)))
      t,
  get-put io_class c (put io_key spec (or_nil (get io_class (or_nil (get slot t)))))
      (or_nil (get slot t)),
  get-put io_key k spec (or_nil (get io_class (or_nil (get slot t)))),
  nat_beq_iff slot j,
  text_eq_iff io_class c,
  text_eq_iff io_key k,
)

abbrev is_nil : {A : Type 0} → List A → Bool
is_nil [] = true
is_nil (x ∷ xs) = false

-- What a deletion leaves of a class and of a slot, as far as lookups see it.
get-classes_without :
    (io_class c : String) (keys : Keys) (classes : Classes)
    → get c (classes_without io_class keys classes)
      ≡ (if text_eq io_class c then (if is_nil keys then none else some keys) else get c classes)
get-classes_without io_class c [] classes = get-del io_class c classes
get-classes_without io_class c (k ∷ keys) classes = get-put io_class c (k ∷ keys) classes

get-topo_without :
    (slot j : ℕ) (classes : Classes) (t : Topology)
    → get j (topo_without slot classes t)
      ≡ (if slot == j then (if is_nil classes then none else some classes) else get j t)
get-topo_without slot j [] t = get-del slot j t
get-topo_without slot j (c ∷ classes) t = get-put slot j (c ∷ classes) t

get-is_nil : {V : Type 0} (k : String) (d : List (String × V)) → is_nil d ≡ true → get k d ≡ none
unfolding get
get-is_nil k [] h = refl
get-is_nil k (x ∷ d) h = cc

-- Dropping a device clears what the topology says of it and leaves what it says of every other.
spec_at-drop_topo :
    (io_class io_key : String) (slot : ℕ) (t : Topology) (j : ℕ) (c k : String)
    → spec_at (drop_topo io_class io_key slot t) j c k
      ≡ (if (slot == j) && (text_eq io_class c && text_eq io_key k) then none else spec_at t j c k)
unfolding drop_topo
spec_at-drop_topo io_class io_key slot t j c k = elim (Option-cases (get slot t)) [
  | inl absent ↦ ground (arith, nat_beq_iff slot j)
  | inr (classes, found) ↦ elim (Option-cases (get io_class classes)) [
    | inl absent ↦ ground (arith, nat_beq_iff slot j, text_eq_iff io_class c)
    | inr (keys, at) ↦
        let left = del io_key keys in
        let rest = classes_without io_class left classes in
        ground (
          arith,
          nat_beq_iff slot j,
          text_eq_iff io_class c,
          text_eq_iff io_key k,
          get-topo_without slot j rest t,
          get-classes_without io_class c left classes,
          get-del io_key k keys,
          has_key-get io_key keys,
          get-is_nil k left,
          get-is_nil c rest,
        )
  ]
]

-- No slot and no class of a slot is empty.
pub record IsCompact (t : Topology) : Type 0 where
  pub full_slots : (j : ℕ) → get j t ≢ some []
  pub full_classes :
      (j : ℕ) (classes : Classes) (c : String) → get j t ≡ some classes → get c classes ≢ some []

put-ne-nil : {V : Type 0} (k : String) (v : V) (d : List (String × V)) → put k v d ≢ []
unfolding put
put-ne-nil k v [] h = cc
put-ne-nil k v ((j, w) ∷ d) h = ground arith

-- A topology without empty slots or classes stays so.
pub reg_topo-IsCompact :
    (io_class io_key : String) (slot : ℕ) (spec : Spec) (t : Topology)
    → IsCompact t
    → IsCompact (reg_topo io_class io_key slot spec t)
unfolding reg_topo
reg_topo-IsCompact io_class io_key slot spec t h =
    let classes = or_nil (get slot t) in
    let keys = put io_key spec (or_nil (get io_class classes)) in
    let new = put io_class keys classes in
    record {
      full_slots = λ j e. ground (
        arith,
        get-put slot j new t,
        put-ne-nil io_class keys classes,
        h.full_slots j,
        nat_beq_iff slot j,
      );
      full_classes = λ j cs c g e. ground (
        arith,
        get-put slot j new t,
        get-put io_class c keys classes,
        put-ne-nil io_key spec (or_nil (get io_class classes)),
        h.full_classes j cs c,
        h.full_classes slot classes c,
        nat_beq_iff slot j,
      );
    }

-- And so it does when a device is dropped.
pub drop_topo-IsCompact :
    (io_class io_key : String) (slot : ℕ) (t : Topology)
    → IsCompact t
    → IsCompact (drop_topo io_class io_key slot t)
unfolding drop_topo
drop_topo-IsCompact io_class io_key slot t h = elim (Option-cases (get slot t)) [
  | inl absent ↦ rw (absent, drop_topo) h
  | inr (classes, found) ↦ elim (Option-cases (get io_class classes)) [
    | inl absent ↦ record {
      full_slots = λ j e. ground (arith, h.full_slots j);
      full_classes = λ j cs c g e. ground (arith, h.full_classes j cs c);
    }
    | inr (keys, at) ↦
        let left = del io_key keys in
        let rest = classes_without io_class left classes in
        record {
          full_slots = λ j e.
              ground (arith, h.full_slots j, get-topo_without slot j rest t, nat_beq_iff slot j);
          full_classes = λ j cs c g e. ground (
            arith,
            h.full_classes j cs c,
            h.full_classes slot classes c,
            get-topo_without slot j rest t,
            get-classes_without io_class c left classes,
            nat_beq_iff slot j,
            text_eq_iff io_class c,
          );
        }
  ]
]

drop_topo-put :
    (io_class io_key : String) (slot : ℕ) (keys : Keys) (classes : Classes) (t : Topology)
    (spec : Spec)
    → has_key io_key keys ≡ false
    → drop_topo io_class io_key slot (put slot (put io_class (put io_key spec keys) classes) t)
      ≡ topo_without slot
          (classes_without io_class keys (put io_class (put io_key spec keys) classes))
          (put slot (put io_class (put io_key spec keys) classes) t)
unfolding drop_topo
drop_topo-put io_class io_key slot keys classes t spec fresh =
    let keys' = put io_key spec keys in
    let classes' = put io_class keys' classes in
    ground (
      arith,
      nat_beq_iff slot slot,
      text_eq_iff io_class io_class,
      text_eq_iff io_key io_key,
      get-put slot slot classes' t,
      get-put io_class io_class keys' classes,
      has_key-put io_key io_key spec keys,
      del-put_fresh io_key spec keys fresh,
    )

topo_without-put :
    (slot : ℕ) (classes new : Classes) (t : Topology)
    → get slot t ≡ some classes
    → classes ≢ []
    → topo_without slot classes (put slot new t) ≡ t
topo_without-put slot [] new t found full = absurd (full refl)
topo_without-put slot (c ∷ classes) new t found full =
    put-put slot new (c ∷ classes) t ∙ put-get slot (c ∷ classes) t found

classes_without-put :
    (io_class : String) (keys new : Keys) (classes : Classes)
    → get io_class classes ≡ some keys
    → keys ≢ []
    → classes_without io_class keys (put io_class new classes) ≡ classes
classes_without-put io_class [] new classes found full = absurd (full refl)
classes_without-put io_class (k ∷ keys) new classes found full =
    put-put io_class new (k ∷ keys) classes ∙ put-get io_class (k ∷ keys) classes found

has_key-absent :
    {K V : Type 0} ⦃e : KeyEq K⦄ (k : K) (d : List (K × V)) → get k d ≡ none → has_key k d ≡ false
has_key-absent k d h = has_key-get k d ∙ rw h

-- Registering a device that the topology knows nothing of, and dropping it again, gives the very
-- topology back, with the order of its entries.
pub drop_topo-reg_topo :
    (io_class io_key : String) (slot : ℕ) (spec : Spec) (t : Topology)
    → IsCompact t
    → spec_at t slot io_class io_key ≡ none
    → drop_topo io_class io_key slot (reg_topo io_class io_key slot spec t) ≡ t
unfolding reg_topo
drop_topo-reg_topo io_class io_key slot spec t h fresh = elim (Option-cases (get slot t)) [
  | inl absent ↦ rw (absent) (
      drop_topo-put io_class io_key slot [] [] t spec (unfold has_key in refl)
      ∙ rw (del-put_fresh io_class (put io_key spec []) [] (unfold has_key in refl))
          (del-put_fresh slot _ t (has_key-absent slot t absent)))
  | inr (classes, found) ↦ elim (Option-cases (get io_class classes)) [
    | inl absent ↦
        rw (found, absent)
          (drop_topo-put io_class io_key slot [] classes t spec (unfold has_key in refl)
            ∙ rw
                (del-put_fresh io_class (put io_key spec []) classes
                  (has_key-absent io_class classes absent))
                (topo_without-put slot classes _ t found
                  (λ e. h.full_slots slot (found ∙ ap some e))))
    | inr (keys, at) ↦
        rw (found, at)
          (drop_topo-put io_class io_key slot keys classes t spec
              (has_key-absent io_key keys (ground arith))
            ∙ rw
                (classes_without-put io_class keys (put io_key spec keys) classes at
                  (λ e. h.full_classes slot classes io_class found (at ∙ ap some e)))
                (topo_without-put slot classes _ t found
                  (λ e. h.full_slots slot (found ∙ ap some e))))
  ]
]
