-- ===== src/Href/Examples.antt =====
-- A CHILD path (pypowervm/util.py).
use pypowervm.Prelude.{[], ◌∷◌, ◌≡◌, refl, false}
use pypowervm.Href.{Url, is_uuid}

abbrev adapter_url : Url
adapter_url = record {
  path =
      "rest" ∷ "VirtualIOServer" ∷ "0A1B2C3D-0000-1111-2222-0123456789ab" ∷ "ClientNetworkAdapter"
      ∷ "fe334455-0000-1111-2222-0123456789ab" ∷ [];
}

not_uuid : is_uuid "0A1B2C3D-0000-1111-2222-0123456789a" ≡ false
unfolding is_uuid
not_uuid = refl
