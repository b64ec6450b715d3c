-- ===== src/SlotMap/Saved.antt =====
-- What a store that has been saved gives back when it is loaded (pypowervm/tasks/slot_map.py).
use pypowervm.Prelude.{
  ℕ, String, ◌≡◌, ◌⊎◌, refl, sym, ap, ◌∙◌, Option-cases, Bool, true, false, Option, none, some,
  List, [], ◌∷◌, arith, text_eq_iff, Bool-cases, inl, inr,
}
use pypowervm.Prelude.Keyed.{KeyEq, get, nat_key, text_key}
use pypowervm.SlotMap.{Spec, no_spec, text_spec, list_spec, Topology, SlotTopo, Store, new}
use pypowervm.SlotMap.Register.{spec_at}
use pypowervm.SlotMap.Save.{
  texts_eq, spec_eq, has_all, dict_eq, topo_eq, slot_topo_eq, load, save, loaded,
}

texts_eq_sound : (xs ys : List String) → texts_eq xs ys ≡ true → xs ≡ ys
unfolding texts_eq
texts_eq_sound [] [] h = refl
texts_eq_sound [] (y ∷ ys) h = absurd (ground arith)
texts_eq_sound (x ∷ xs) [] h = absurd (ground arith)
texts_eq_sound (x ∷ xs) (y ∷ ys) h = ground (arith, text_eq_iff x y, texts_eq_sound xs ys)

spec_eq_sound : (a b : Spec) → spec_eq a b ≡ true → a ≡ b
unfolding spec_eq
spec_eq_sound no_spec no_spec h = refl
spec_eq_sound no_spec (text_spec t) h = absurd (ground arith)
spec_eq_sound no_spec (list_spec ys) h = absurd (ground arith)
spec_eq_sound (text_spec s) no_spec h = absurd (ground arith)
spec_eq_sound (text_spec s) (text_spec t) h = ground (arith, text_eq_iff s t)
spec_eq_sound (text_spec s) (list_spec ys) h = absurd (ground arith)
spec_eq_sound (list_spec xs) no_spec h = absurd (ground arith)
spec_eq_sound (list_spec xs) (text_spec t) h = absurd (ground arith)
spec_eq_sound (list_spec xs) (list_spec ys) h = ap list_spec (texts_eq_sound xs ys h)

module _ {K V : Type 0} ⦃e : KeyEq K⦄ (same : V → V → Bool) where
  has_all-get :
      (a b : List (K × V)) (k : K) (v : V)
      → has_all same a b ≡ true
      → get k a ≡ some v
      → (w : V) × (get k b ≡ some w) × (same v w ≡ true)
  unfolding has_all get
  has_all-get [] b k v h found = absurd (ground arith)
  has_all-get ((j, u) ∷ a) b k v h found = elim (Option-cases (get j b)) [
    | inl absent ↦ absurd (ground arith)
    | inr (w, at) ↦ elim (Bool-cases (e.beq j k)) [
      | inl here ↦ (w, ground (arith, e.beq_iff j k), ground arith)
      | inr there ↦ has_all-get a b k v (ground arith) (ground arith)
    ]
  ]

  -- What equal dictionaries hold of a key: nothing, or equal values.
  dict_eq-get :
      (a b : List (K × V)) (k : K)
      → dict_eq same a b ≡ true
      → ((get k a ≡ none) × (get k b ≡ none))
        ⊎ ((v : V) × (w : V) × (get k a ≡ some v) × (get k b ≡ some w) × (same v w ≡ true))
  unfolding dict_eq
  dict_eq-get a b k h = elim (Option-cases (get k a)) [
    | inr (v, at) ↦
        let (w, found, eq) = has_all-get a b k v (ground arith) at in inr (v, w, at, found, eq)
    | inl none_a ↦ elim (Option-cases (get k b)) [
      | inl none_b ↦ inl (none_a, none_b)
      | inr (w, at) ↦
          let (v, found, eq) = has_all-get b a k w (ground arith) at in absurd (ground arith)
    ]
  ]

topo_eq-spec_at :
    (a b : Topology) (slot : ℕ) (c k : String)
    → topo_eq a b ≡ true
    → spec_at a slot c k ≡ spec_at b slot c k
unfolding topo_eq
topo_eq-spec_at a b slot c k h = elim (dict_eq-get (dict_eq (dict_eq spec_eq)) a b slot h) [
  | inl (none_a, none_b) ↦ rw (none_a, none_b, spec_at) refl
  | inr (cs, ds, at_a, at_b, eq) ↦ elim (dict_eq-get (dict_eq spec_eq) cs ds c eq) [
    | inl (none_a, none_b) ↦ rw (at_a, at_b, none_a, none_b, spec_at) refl
    | inr (ks, ls, in_a, in_b, eq2) ↦ elim (dict_eq-get spec_eq ks ls k eq2) [
      | inl (none_a, none_b) ↦ rw (at_a, at_b, in_a, in_b, none_a, none_b, spec_at) refl
      | inr (v, w, is_a, is_b, eq3) ↦
          rw (at_a, at_b, in_a, in_b, is_a, is_b, spec_at) (ap some (spec_eq_sound v w eq3))
    ]
  ]
]

module _ {D B : Type 0} (dumps : Topology → B) (save_blob : String → B → D → D) (s : Store)
    (d : D) where
  save_unchanged :
      slot_topo_eq s.slot_topo s.loaded_topo ≡ true → save dumps save_blob (s, d) ≡ (s, d)
  unfolding save
  save_unchanged h = rw h refl

  save_changed :
      slot_topo_eq s.slot_topo s.loaded_topo ≡ false
      → save dumps save_blob (s, d)
        ≡ (record s { loaded_topo = s.slot_topo }, save_blob s.inst_key (dumps s.slot_topo.topo) d)
  unfolding save
  save_changed h = rw h refl

module _ {D B : Type 0} (loads : B → SlotTopo) (load_blob : String → D → Option B) where
  -- What a store that is loaded now says of every device is what this one had when it was last
  -- loaded or saved.
  abbrev pub IsSynced : Store × D → Type 0
  IsSynced (s, d) =
      (slot : ℕ) (c k : String)
      → spec_at (load loads load_blob s.inst_key true d).slot_topo.topo slot c k
        ≡ spec_at s.loaded_topo.topo slot c k

  load_found :
      (key : String) (d : D) (blob : B)
      → load_blob key d ≡ some blob
      → (load loads load_blob key true d).slot_topo ≡ loads blob
  unfolding load new
  load_found key d blob h = rw (h, loaded) refl

  -- What saving a store that is in step with its back end makes of it: it is in step again, and
  -- what a store that is loaded then says of every device is what the saved one said, whether the
  -- blob was written or not. A blob gives back the dictionary it was made of, and the back end the
  -- blob that was last written for a key.
  pub load-save :
      (dumps : Topology → B) (save_blob : String → B → D → D) (s : Store) (d : D)
      → ((t : Topology) → loads (dumps t) ≡ record { topo = t; max_vslots = none })
      → ((key : String) (blob : B) (e : D) → load_blob key (save_blob key blob e) ≡ some blob)
      → IsSynced (s, d)
      → IsSynced (save dumps save_blob (s, d))
        × ((slot : ℕ) (c k : String)
            → spec_at
                (load loads load_blob s.inst_key true
                  (save dumps save_blob (s, d)).1).slot_topo.topo
                slot
                c
                k
              ≡ spec_at s.slot_topo.topo slot c k)
  load-save dumps save_blob s d pickled kept synced =
      elim (Bool-cases (slot_topo_eq s.slot_topo s.loaded_topo)) [
        | inl same ↦ rw (save_unchanged dumps save_blob s d same) (
          synced,
          λ slot c k.
              synced slot c k
              ∙ sym (
                  topo_eq-spec_at s.slot_topo.topo s.loaded_topo.topo slot c k
                    (unfold slot_topo_eq in ground arith)),
        )
        | inr changed ↦
            let blob = dumps s.slot_topo.topo in
            let d' = save_blob s.inst_key blob d in
            let found =
              load_found s.inst_key d' blob (kept s.inst_key blob d) ∙ pickled s.slot_topo.topo in
            rw (save_changed dumps save_blob s d changed) (
              (λ slot c k. ap (λ t. spec_at t.topo slot c k) found),
              (λ slot c k. ap (λ t. spec_at t.topo slot c k) found),
            )
      ]

  -- Where saving writes a blob, a store that is loaded afterwards has the topology that was saved,
  -- and no maximum number of slots, whatever was registered. A blob gives back the dictionary it was
  -- made of, and the back end the blob that was last written for a key.
  max_vslots-save :
      (dumps : Topology → B) (save_blob : String → B → D → D) (s : Store) (d : D)
      → ((t : Topology) → loads (dumps t) ≡ record { topo = t; max_vslots = none })
      → ((key : String) (blob : B) (e : D) → load_blob key (save_blob key blob e) ≡ some blob)
      → slot_topo_eq s.slot_topo s.loaded_topo ≡ false
      → (load loads load_blob s.inst_key true (save dumps save_blob (s, d)).1).slot_topo
        ≡ record { topo = s.slot_topo.topo; max_vslots = none }
  max_vslots-save dumps save_blob s d pickled kept changed =
      let blob = dumps s.slot_topo.topo in
      rw (save_changed dumps save_blob s d changed) (
        load_found s.inst_key (save_blob s.inst_key blob d) blob (kept s.inst_key blob d)
        ∙ pickled s.slot_topo.topo)
