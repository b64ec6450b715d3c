-- ===== src/SlotMap/Order.antt =====
-- The order in which a rebuild serves the slots (_vscsi_build_slot_order, pypowervm/tasks/slot_map.py).
use pypowervm.Prelude.{
  ℕ, ◌+◌, ◌≤◌, ◌≡◌, refl, sym, ◌∙◌, Option, none, some, List, [], ◌∷◌, arith, Bool-cases, inl, inr,
  if◌then◌else◌, length, ◌==◌, ltb,
}
use pypowervm.Prelude.Keyed.{get, has_key-get, text_key, nat_key, nat_beq_iff, IsDistinct}
use pypowervm.Exec.{Result, ok, err, hang}
use pypowervm.SlotMap.{Classes, Topology, or_nil, pv, lu, vdisk, vopt}
use pypowervm.SlotMap.Build.{BuildError, ◌>>=◌, is_nil}
use pypowervm.SlotMap.Vscsi.{count_slots, insert_slot, sort_slots, vscsi_build_slot_order}

>>=_ok :
    {A B : Type 0} (r : Result BuildError A) (f : A → Result BuildError B) (b : B)
    → (r >>= f) ≡ ok b
    → (a : A) × (r ≡ ok a) × (f a ≡ ok b)
>>=_ok (ok a) f b h = (a, refl, h)
>>=_ok (err e) f b h = absurd (ground arith)
>>=_ok hang f b h = absurd (ground arith)

ok-injective : {A : Type 0} (a b : A) → ◌≡◌ {A = Result BuildError A} (ok a) (ok b) → a ≡ b
ok-injective a b h = cc

-- The storage elements of a slot.
abbrev pub storage_count : Classes → ℕ
storage_count classes =
    length (or_nil (get pv classes))
    + length (or_nil (get lu classes))
    + length (or_nil (get vdisk classes))

abbrev pub count_at : Topology → ℕ → Option ℕ
count_at t j = elim (get j t) [ none ↦ none | some classes ↦ some (storage_count classes) ]

get-count_slots :
    (t : Topology) (counts : List (ℕ × ℕ)) (j : ℕ)
    → count_slots t ≡ ok counts
    → get j counts ≡ count_at t j
unfolding count_slots get
get-count_slots [] counts j h = ground arith
get-count_slots ((slot, classes) ∷ t) counts j h =
    elim (Bool-cases (is_nil (or_nil (get vopt classes)))) [
      | inr media ↦ absurd (ground arith)
      | inl none_such ↦
          let (rest, e, f) =
            >>=_ok (count_slots t) (λ cs. ok ((slot, storage_count classes) ∷ cs)) counts
              (ground arith) in
          ground (arith, get-count_slots t rest j e)
    ]

-- No count is below one that comes later.
abbrev pub AtLeast : ℕ → List (ℕ × ℕ) → Type 0
AtLeast n [] = Unit
AtLeast n (p ∷ ps) = (p.1 ≤ n) × AtLeast n ps

abbrev pub IsDescending : List (ℕ × ℕ) → Type 0
IsDescending [] = Unit
IsDescending (p ∷ ps) = AtLeast p.1 ps × IsDescending ps

AtLeast-le : (m n : ℕ) (ps : List (ℕ × ℕ)) → m ≤ n → AtLeast m ps → AtLeast n ps
AtLeast-le m n [] h k = tt
AtLeast-le m n (p ∷ ps) h k = (omega (arith, k.0), AtLeast-le m n ps h k.1)

AtLeast-insert_slot :
    (n : ℕ) (p : ℕ × ℕ) (ps : List (ℕ × ℕ)) → p.1 ≤ n → AtLeast n ps → AtLeast n (insert_slot p ps)
unfolding insert_slot
AtLeast-insert_slot n p [] h k = (h, tt)
AtLeast-insert_slot n p (q ∷ ps) h k = ground (arith, AtLeast-insert_slot n p ps h k.1, k.0)

insert_slot-IsDescending :
    (p : ℕ × ℕ) (ps : List (ℕ × ℕ)) → IsDescending ps → IsDescending (insert_slot p ps)
unfolding insert_slot
insert_slot-IsDescending p [] h = (tt, tt)
insert_slot-IsDescending p (q ∷ ps) h = elim (Bool-cases (ltb p.1 q.1)) [
  | inl less ↦
      rw (less) (AtLeast-insert_slot q.1 p ps (ground arith) h.0, insert_slot-IsDescending p ps h.1)
  | inr more ↦ rw (more) ((ground arith, AtLeast-le q.1 p.1 ps (ground arith) h.0), h)
]

sort_slots-IsDescending : (ps : List (ℕ × ℕ)) → IsDescending (sort_slots ps)
unfolding sort_slots
sort_slots-IsDescending [] = tt
sort_slots-IsDescending (p ∷ ps) =
    insert_slot-IsDescending p (sort_slots ps) (sort_slots-IsDescending ps)

get-insert_slot :
    (p : ℕ × ℕ) (ps : List (ℕ × ℕ)) (j : ℕ)
    → get p.0 ps ≡ none
    → get j (insert_slot p ps) ≡ (if p.0 == j then some p.1 else get j ps)
unfolding insert_slot get
get-insert_slot p [] j h = refl
get-insert_slot p (q ∷ ps) j h =
    ground
      (arith, get-insert_slot p ps j, nat_beq_iff q.0 j, nat_beq_iff p.0 j, nat_beq_iff q.0 p.0)

abbrev AreFresh : List (ℕ × ℕ) → Type 0
AreFresh [] = Unit
AreFresh (p ∷ ps) = (get p.0 ps ≡ none) × AreFresh ps

get-sort_slots : (ps : List (ℕ × ℕ)) (j : ℕ) → AreFresh ps → get j (sort_slots ps) ≡ get j ps
unfolding sort_slots get
get-sort_slots [] j h = refl
get-sort_slots (p ∷ ps) j h = ground (
  arith,
  get-insert_slot p (sort_slots ps) j,
  get-sort_slots ps j h.1,
  get-sort_slots ps p.0 h.1,
  h.0,
)

count_slots-AreFresh :
    (t : Topology) (counts : List (ℕ × ℕ))
    → IsDistinct t
    → count_slots t ≡ ok counts
    → AreFresh counts
unfolding count_slots
count_slots-AreFresh [] counts d h = rw (sym (ok-injective [] counts h)) tt
count_slots-AreFresh ((slot, classes) ∷ t) counts d h =
    elim (Bool-cases (is_nil (or_nil (get vopt classes)))) [
      | inr media ↦ absurd (ground arith)
      | inl none_such ↦
          let (rest, e, f) =
            >>=_ok (count_slots t) (λ cs. ok ((slot, storage_count classes) ∷ cs)) counts
              (ground arith) in
          rw (sym (ok-injective ((slot, storage_count classes) ∷ rest) counts f)) (
            ground (arith, get-count_slots t rest slot e, has_key-get slot t, d.0),
            count_slots-AreFresh t rest d.1 e,
          )
    ]

-- The slots come in the order of their numbers of storage elements, the greatest first, and each
-- slot of the topology comes with its number.
vscsi_build_slot_order_lem :
    (t : Topology) (order : List (ℕ × ℕ))
    → IsDistinct t
    → vscsi_build_slot_order t ≡ ok order
    → IsDescending order × ((j : ℕ) → get j order ≡ count_at t j)
unfolding vscsi_build_slot_order
vscsi_build_slot_order_lem t order d h =
    let (counts, e, f) = >>=_ok (count_slots t) (λ counts. ok (sort_slots counts)) order h in
    let fresh = count_slots-AreFresh t counts d e in
    rw (sym (ok-injective (sort_slots counts) order f)) (
      sort_slots-IsDescending counts,
      λ j. get-sort_slots counts j fresh ∙ get-count_slots t counts j e,
    )
