-- ===== src/Href/Paths.antt =====
-- The UUIDs of CHILD paths (pypowervm/util.py).
use mathlib.Core.List.{reverse, reverse-append}
use pypowervm.Prelude.{
  String, Bool, true, false, List, [], ◌∷◌, ◌++◌, some, text_eq, text_eq_iff, Bool-cases, inl, inr,
  if◌then◌else◌, ◌≡◌, refl, arith,
}
use pypowervm.Sanitize.{lower}
use pypowervm.Href.{Url, is_uuid, drop_empty, dice_href, maybe_ids, pick, get_req_path_uuid}

empty_not_uuid : is_uuid "" ≡ false
unfolding is_uuid
empty_not_uuid = refl

uuid_not_empty : (s : String) → is_uuid s ≡ true → text_eq s "" ≡ false
uuid_not_empty s h = elim (Bool-cases (text_eq s "")) [
  | inl e ↦ ground (arith, (text_eq_iff s "").0 e, empty_not_uuid)
  | inr e ↦ e
]

kept_front : (s : String) (ss : List String) → text_eq s "" ≡ false → drop_empty (s ∷ ss) ≡ s ∷ ss
unfolding drop_empty
kept_front s ss h = rw h refl

pieces :
    (u : Url) (base : List String) (t1 u1 t2 u2 : String)
    → u.path ≡ base ++ t1 ∷ u1 ∷ t2 ∷ u2 ∷ []
    → is_uuid u2 ≡ true
    → (rest : List String) × (dice_href u ≡ u2 ∷ t2 ∷ u1 ∷ t1 ∷ rest)
unfolding dice_href
pieces u base t1 u1 t2 u2 path h = (
  reverse base ++ "" ∷ [],
  (rw path (
      rw (reverse-append base (t1 ∷ u1 ∷ t2 ∷ u2 ∷ []))
        (rw (kept_front u2 (t2 ∷ u1 ∷ t1 ∷ reverse base) (uuid_not_empty u2 h)) refl))),
)

-- The path of a CHILD ends in the type and the UUID of its ROOT and then its own; with `root` the
-- ROOT's UUID is returned and else the CHILD's, in lower case unless the case is preserved.
get_req_path_uuid_child :
    (preserve root : Bool) (u : Url) (base : List String) (t1 u1 t2 u2 : String)
    → u.path ≡ base ++ t1 ∷ u1 ∷ t2 ∷ u2 ∷ []
    → is_uuid u1 ≡ true
    → is_uuid u2 ≡ true
    → get_req_path_uuid preserve root u
      ≡ some (let found = if root then u1 else u2 in if preserve then found else lower found)
unfolding get_req_path_uuid maybe_ids pick
get_req_path_uuid_child preserve true u base t1 u1 t2 u2 path h1 h2 =
    let (rest, e) = pieces u base t1 u1 t2 u2 path h2 in rw e (rw h1 refl)
get_req_path_uuid_child preserve false u base t1 u1 t2 u2 path h1 h2 =
    let (rest, e) = pieces u base t1 u1 t2 u2 path h2 in rw e (rw h1 (rw h2 refl))
