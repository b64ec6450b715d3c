-- ===== src/SlotMap/Choice.antt =====
-- The choice of a VIOS for the storage of a slot (RebuildSlotMap, pypowervm/tasks/slot_map.py).
use mathlib.Core.List.{append-nil, append_assoc}
use pypowervm.Prelude.{
  ℕ, ◌≡◌, refl, sym, ap, ◌∙◌, ◌++◌, String, Bool, true, false, Option, some, List, [], ◌∷◌, arith,
  All, is_in, text_eq, text_eq_iff, Option-cases, Bool-cases, inl, inr, ◌&&◌, ◌||◌, if◌then◌else◌,
}
use pypowervm.Prelude.Keyed.{get, put, get-put, text_key}
use pypowervm.Exec.{ok}
use pypowervm.SlotMap.{Spec, Keys, Classes, or_nil, pv, lu, vdisk}
use pypowervm.SlotMap.Build.{is_nil, BuildMap, udids_val, to_udids, class_map}
use pypowervm.SlotMap.Vscsi.{
  Elem, VolToVio, elems, inter, narrow, remove, assign, put_vios_val, build_slot, slot_info,
}

-- Whether a VIOS sees every element, as the volume map has it.
abbrev pub sees_all : VolToVio → String → List Elem → Bool
sees_all vols v [] = true
sees_all vols v (e ∷ es) = is_in v (or_nil (get e.udid vols)) && sees_all vols v es

is_in-inter : (v : String) (s xs : List String) → is_in v (inter s xs) ≡ (is_in v s && is_in v xs)
unfolding is_in inter
is_in-inter v [] xs = refl
is_in-inter v (w ∷ s) xs = ground (arith, is_in-inter v s xs, text_eq_iff v w)

is_in-nil : (v : String) (xs : List String) → is_nil xs ≡ true → is_in v xs ≡ false
unfolding is_in
is_in-nil v [] h = refl
is_in-nil v (x ∷ xs) h = cc

-- Where it raises nothing, `narrow` leaves exactly those candidates that see every element of the
-- slot.
is_in-narrow :
    (vols : VolToVio) (es : List Elem) (candidates left : List String) (v : String)
    → narrow vols es candidates ≡ ok left
    → is_in v left ≡ (is_in v candidates && sees_all vols v es)
unfolding narrow
is_in-narrow vols [] candidates left v h = ground arith
is_in-narrow vols (e ∷ es) candidates left v h = elim (Option-cases (get e.udid vols)) [
  | inl absent ↦ absurd (ground arith)
  | inr (vioses, found) ↦ ground (
    arith,
    is_in-inter v candidates vioses,
    is_in-narrow vols es (inter candidates vioses) left v,
  )
]

-- Whether an element with the UDID is among these.
abbrev pub has_udid : String → List Elem → Bool
has_udid u [] = false
has_udid u (e ∷ es) = text_eq e.udid u || has_udid u es

-- No UDID comes twice.
abbrev pub AreDistinct : List Elem → Type 0
AreDistinct [] = Unit
AreDistinct (e ∷ es) = (has_udid e.udid es ≡ false) × AreDistinct es

-- What the build map says of a storage element on a VIOS.
abbrev pub slot_at : BuildMap → String → String → String → Option (ℕ × Spec)
slot_at b c v u = get u (to_udids (get v (class_map c b)))

slot_at-put_vios_val :
    (c v u : String) (x : ℕ × Spec) (b : BuildMap) (c' v' u' : String)
    → slot_at (put_vios_val c v u x b) c' v' u'
      ≡ (if text_eq c c' && (text_eq v v' && text_eq u u') then some x else slot_at b c' v' u')
unfolding put_vios_val
slot_at-put_vios_val c v u x b c' v' u' =
    let by_vios = class_map c b in
    let old = to_udids (get v by_vios) in
    ground (
      arith,
      get-put c c' (put v (udids_val (put u x old)) by_vios) b,
      get-put v v' (udids_val (put u x old)) by_vios,
      get-put u u' x old,
      text_eq_iff c c',
      text_eq_iff v v',
      text_eq_iff u u',
    )

remove_ok :
    (v : String) (xs : List String)
    → is_in v xs ≡ true
    → (before after : List String) × (xs ≡ before ++ v ∷ after)
      × (remove v xs ≡ ok (before ++ after))
unfolding remove is_in
remove_ok v [] h = cc
remove_ok v (x ∷ xs) h = elim (Bool-cases (text_eq x v)) [
  | inl here ↦ ([], xs, ap (λ y. y ∷ xs) ((text_eq_iff x v).0 here), rw here refl)
  | inr there ↦
      let (before, after, split, e) =
        remove_ok v xs (ground (arith, text_eq_iff x v, text_eq_iff v x)) in
      (x ∷ before, after, ap (λ ys. x ∷ ys) split, rw (there, e) refl)
]

sees_all-put :
    (u : String) (left : List String) (vols : VolToVio) (v : String) (es : List Elem)
    → has_udid u es ≡ false
    → sees_all (put u left vols) v es ≡ sees_all vols v es
sees_all-put u left vols v [] h = refl
sees_all-put u left vols v (e ∷ es) h = ground (
  arith,
  sees_all-put u left vols v es,
  get-put u e.udid left vols,
  text_eq_iff u e.udid,
  text_eq_iff e.udid u,
)

-- What the build map says of a storage element once it has been placed.
abbrev pub IsPlaced : ℕ → String → BuildMap → Elem → Type 0
IsPlaced slot vios b e = slot_at b e.stg_class vios e.udid ≡ some (slot, e.lua)

-- The VIOS stands among those of the UDID in the first volume map, and once less in the second.
abbrev pub IsTaken : String → VolToVio → VolToVio → String → Type 0
IsTaken vios vols vols' u =
    (before after : List String) × (or_nil (get u vols) ≡ before ++ vios ∷ after)
    × (get u vols' ≡ some (before ++ after))

-- What the maps say of the storage elements of a class once they have been placed.
abbrev pub IsClassPlaced : ℕ → String → VolToVio → VolToVio × BuildMap → String → Classes → Type 0
IsClassPlaced slot vios vols s c classes =
    All
      (λ (k : String × Spec).
        (slot_at s.1 c vios k.0 ≡ some (slot, k.1)) × IsTaken vios vols s.0 k.0)
      (or_nil (get c classes))

IsTaken-put :
    (vios u : String) (left : List String) (vols vols' : VolToVio) (es : List Elem)
    → has_udid u es ≡ false
    → All (λ (e : Elem). IsTaken vios (put u left vols) vols' e.udid) es
    → All (λ (e : Elem). IsTaken vios vols vols' e.udid) es
IsTaken-put vios u left vols vols' [] h k = tt
IsTaken-put vios u left vols vols' (e ∷ es) h ((before, after, split, cut), k) =
    let same : get e.udid (put u left vols) ≡ get e.udid vols =
      ground (arith, get-put u e.udid left vols, text_eq_iff u e.udid, text_eq_iff e.udid u) in
    (
      (before, after, ap or_nil (sym same) ∙ split, cut),
      IsTaken-put vios u left vols vols' es (ground arith) k,
    )

module _ (slot : ℕ) (vios : String) where
  -- A VIOS that sees all elements of a slot can be taken for it: nothing is raised, every element
  -- is placed there and takes the VIOS out of its list, and what the maps say of other storage or
  -- another VIOS stays.
  assign_places :
      (es : List Elem) (vols : VolToVio) (b : BuildMap)
      → AreDistinct es
      → sees_all vols vios es ≡ true
      → (s : VolToVio × BuildMap) × (assign slot vios es (vols, b) ≡ ok s)
        × All (IsPlaced slot vios s.1) es
        × ((c v u : String)
            → text_eq vios v && has_udid u es ≡ false
            → slot_at s.1 c v u ≡ slot_at b c v u)
        × All (λ (e : Elem). IsTaken vios vols s.0 e.udid) es
        × ((u : String) → has_udid u es ≡ false → get u s.0 ≡ get u vols)
  unfolding assign
  assign_places [] vols b d h = ((vols, b), refl, tt, λ c v u k. refl, tt, λ u k. refl)
  assign_places (e ∷ es) vols b d h =
      let (before, after, split, gone) = remove_ok vios (or_nil (get e.udid vols)) (ground arith) in
      let left = before ++ after in
      let x : ℕ × Spec = (slot, e.lua) in
      let vols' = put e.udid left vols in
      let b' = put_vios_val e.stg_class vios e.udid x b in
      let (s, done, placed, frame, taken, others) =
        assign_places es vols' b' d.1 (ground (arith, sees_all-put e.udid left vols vios es)) in
      let here : IsPlaced slot vios s.1 e = ground (
        arith,
        frame e.stg_class vios e.udid,
        d.0,
        slot_at-put_vios_val e.stg_class vios e.udid x b e.stg_class vios e.udid,
        text_eq_iff e.stg_class e.stg_class,
        text_eq_iff vios vios,
        text_eq_iff e.udid e.udid,
      ) in
      (
        s,
        rw (gone, done),
        (here, placed),
        λ c v u k. ground (
          arith,
          frame c v u,
          slot_at-put_vios_val e.stg_class vios e.udid x b c v u,
          text_eq_iff e.udid u,
        ),
        (
          (
            before,
            after,
            split,
            ground (
              arith,
              others e.udid,
              d.0,
              get-put e.udid e.udid left vols,
              text_eq_iff e.udid e.udid,
            ),
          ),
          IsTaken-put vios e.udid left vols s.0 es d.0 taken,
        ),
        λ u k. ground (arith, others u, get-put e.udid u left vols, text_eq_iff e.udid u),
      )

narrow_ok :
    (vols : VolToVio) (es : List Elem) (candidates : List String) (v : String)
    → is_in v candidates && sees_all vols v es ≡ true
    → (left : List String) × (narrow vols es candidates ≡ ok left)
unfolding narrow
narrow_ok vols [] candidates v h = (candidates, refl)
narrow_ok vols (e ∷ es) candidates v h = elim (Option-cases (get e.udid vols)) [
  | inl absent ↦ absurd (ground arith)
  | inr (vioses, found) ↦
      let (left, e') =
        narrow_ok vols es (inter candidates vioses) v
          (ground (arith, is_in-inter v candidates vioses)) in
      (left, ground (arith, is_in-inter v candidates vioses, is_in-nil v (inter candidates vioses)))
]

elems-All :
    (P : Elem → Type 0) (c : String) (keys : Keys) (rest : List Elem)
    → All P (elems c keys ++ rest)
    → All (λ (k : String × Spec). P (record { udid = k.0; lua = k.1; stg_class = c })) keys
      × All P rest
unfolding elems
elems-All P c [] rest h = (tt, h)
elems-All P c ((u, l) ∷ keys) rest (here, h) =
    let (more, others) = elems-All P c keys rest h in ((here, more), others)

All-zip :
    (P Q : Elem → Type 0) (es : List Elem) → All P es → All Q es → All (λ (e : Elem). P e × Q e) es
All-zip P Q [] h k = tt
All-zip P Q (e ∷ es) h k = ((h.0, k.0), All-zip P Q es h.1 k.1)

-- The elements of all three classes of storage are among those of the slot.
slot_info-All :
    (P : Elem → Type 0) (classes : Classes)
    → All P (slot_info classes)
    → let keyed =
        λ (c : String) (k : String × Spec). P (record { udid = k.0; lua = k.1; stg_class = c }) in
      All (keyed pv) (or_nil (get pv classes))
      × All (keyed lu) (or_nil (get lu classes))
      × All (keyed vdisk) (or_nil (get vdisk classes))
unfolding slot_info get
slot_info-All P classes h =
    let disks = elems vdisk (or_nil (get vdisk classes)) in
    let lus = elems lu (or_nil (get lu classes)) in
    let pvs = elems pv (or_nil (get pv classes)) in
    let split : All P (pvs ++ (lus ++ disks)) = rw (sym (append_assoc pvs lus disks)) h in
    let (a, h1) = elems-All P pv (or_nil (get pv classes)) (lus ++ disks) split in
    let (b, h2) = elems-All P lu (or_nil (get lu classes)) disks h1 in
    let (c, h3) = elems-All P vdisk (or_nil (get vdisk classes)) [] (rw (append-nil disks) h2) in
    (a, b, c)

-- Where a VIOS of the list sees all storage of a slot, a slot with storage is placed: nothing is
-- raised, the VIOS that was chosen is in the list and sees all of the slot's storage; for each
-- physical volume, logical unit and virtual disk of the slot, the build map gives this slot and the
-- LUA on that VIOS, and the volume map no longer has that VIOS, once, among those of the UDID. For
-- other storage both maps say what they said before, and so does the build map for another VIOS.
-- The set's `pop` is any function that takes an element of a set that has one, and the slot has no
-- UDID twice.
pub build_slot_places :
    (pop : List String → String) (all_vioses : List String) (slot : ℕ) (classes : Classes)
    (vols : VolToVio) (b : BuildMap) (v : String)
    → ((xs : List String) (w : String) → is_in w xs ≡ true → is_in (pop xs) xs ≡ true)
    → AreDistinct (slot_info classes)
    → is_nil (slot_info classes) ≡ false
    → is_in v all_vioses && sees_all vols v (slot_info classes) ≡ true
    → (s : VolToVio × BuildMap) × (vios : String) × (build_slot pop all_vioses slot classes
          (vols, b)
        ≡ ok s)
      × (is_in vios all_vioses && sees_all vols vios (slot_info classes) ≡ true)
      × (IsClassPlaced slot vios vols s pv classes
          × IsClassPlaced slot vios vols s lu classes
          × IsClassPlaced slot vios vols s vdisk classes)
      × ((c w u : String)
          → text_eq vios w && has_udid u (slot_info classes) ≡ false
          → slot_at s.1 c w u ≡ slot_at b c w u)
      × ((u : String) → has_udid u (slot_info classes) ≡ false → get u s.0 ≡ get u vols)
unfolding build_slot
build_slot_places pop all_vioses slot classes vols b v pops d full h =
    let es = slot_info classes in
    let (left, narrowed) = narrow_ok vols es all_vioses v h in
    let vios = pop left in
    let chosen : is_in vios all_vioses && sees_all vols vios es ≡ true = ground (
      arith,
      is_in-narrow vols es all_vioses left vios narrowed,
      is_in-narrow vols es all_vioses left v narrowed,
      pops left v,
    ) in
    let (s, done, placed, frame, taken, others) =
      assign_places slot vios es vols b d (ground (arith, chosen)) in
    let all =
      All-zip (IsPlaced slot vios s.1) (λ e. IsTaken vios vols s.0 e.udid) es placed taken in
    (
      s,
      vios,
      rw (full, narrowed, done),
      chosen,
      slot_info-All (λ e. IsPlaced slot vios s.1 e × IsTaken vios vols s.0 e.udid) classes all,
      frame,
      others,
    )
