-- ===== src/ScsiMap/Silos.antt =====
-- Lists gathered under keys: what _separate_mappings and index_mappings make of the mappings
-- (pypowervm/tasks/scsi_mapper.py).
use pypowervm.Prelude.{
  String, Bool, true, false, ◌&&◌, Option, some, List, [], ◌∷◌, ◌++◌, only, is_some, Bool-cases,
  inl, inr, if◌then◌else◌, ◌≡◌, refl, sym, ap, ◌∙◌,
}
use pypowervm.Prelude.Keyed.{KeyEq, get, put, get-put, IsDistinct, put-IsDistinct}
use pypowervm.Href.{Url}
use pypowervm.ScsiMap.{Mapping, option_eq, udid_key, path_uuid, or_nil, separate_mappings}

module _ {K : Type 0} ⦃e : KeyEq K⦄ where
  pub get_gathered :
      (k j : K) (m : Mapping) (d : List (K × List Mapping))
      → or_nil (get j (put k (or_nil (get k d) ++ m ∷ []) d))
        ≡ (if e.beq k j then or_nil (get j d) ++ m ∷ [] else or_nil (get j d))
  get_gathered k j m d =
      rw (get-put k j (or_nil (get k d) ++ m ∷ []) d) (elim (Bool-cases (e.beq k j)) [
        | inl h ↦ rw h (rw ((e.beq_iff k j).0 h) refl)
        | inr h ↦ rw h refl
      ])

pub append_one :
    (xs : List Mapping) (m : Mapping) (ys : List Mapping) → (xs ++ m ∷ []) ++ ys ≡ xs ++ m ∷ ys
append_one [] m ys = refl
append_one (x ∷ xs) m ys = ap (λ l. x ∷ l) (append_one xs m ys)

pub append_nil : (xs : List Mapping) → xs ++ [] ≡ xs
append_nil [] = refl
append_nil (x ∷ xs) = ap (λ l. x ∷ l) (append_nil xs)

pub one_more :
    (b : Bool) (xs : List Mapping) (m : Mapping) (ys : List Mapping)
    → (if b then xs ++ m ∷ [] else xs) ++ ys ≡ xs ++ (if b then m ∷ ys else ys)
one_more true xs m ys = append_one xs m ys
one_more false xs m ys = refl

module _ (client_href : Url) where
  -- A mapping of the client on the bus of the server adapter with the given UDID.
  abbrev pub on_bus : Option String → Mapping → Bool
  on_bus k m =
      (option_eq (path_uuid false m.client_lpar_href) (path_uuid false (some client_href))
        && is_some m.client_adapter)
      && option_eq m.server_adapter.udid k

  is_clients : Mapping → Bool
  is_clients m =
      option_eq (path_uuid false m.client_lpar_href) (path_uuid false (some client_href))
      && is_some m.client_adapter

  pub separate_gathers :
      (k : Option String) (ms : List Mapping) (resp : List (Option String × List Mapping))
      → or_nil (get k (separate_mappings (some client_href) resp ms))
        ≡ or_nil (get k resp) ++ only (on_bus k) ms
  unfolding separate_mappings is_clients
  separate_gathers k [] resp = sym (append_nil (or_nil (get k resp)))
  separate_gathers k (m ∷ ms) resp =
      let key = m.server_adapter.udid in
      let added = put key (or_nil (get key resp) ++ m ∷ []) resp in
      elim (Bool-cases (is_clients m)) [
        | inl h ↦ rw h (
            separate_gathers k ms added
            ∙ rw (get_gathered key k m resp)
                (one_more (option_eq key k) (or_nil (get k resp)) m (only (on_bus k) ms)))
        | inr h ↦ rw h (separate_gathers k ms resp)
      ]

  pub separate-IsDistinct :
      (ms : List Mapping) (resp : List (Option String × List Mapping))
      → IsDistinct resp
      → IsDistinct (separate_mappings (some client_href) resp ms)
  unfolding separate_mappings is_clients
  separate-IsDistinct [] resp h = h
  separate-IsDistinct (m ∷ ms) resp h =
      let key = m.server_adapter.udid in
      let added = put key (or_nil (get key resp) ++ m ∷ []) resp in
      elim (Bool-cases (is_clients m)) [
        | inl c ↦ rw c (
            separate-IsDistinct ms added
              (put-IsDistinct key (or_nil (get key resp) ++ m ∷ []) resp h))
        | inr c ↦ rw c (separate-IsDistinct ms resp h)
      ]
