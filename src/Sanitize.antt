-- ===== src/Sanitize.antt =====
-- Small conversions of pypowervm/util.py.
use Prim.Native.Char.{Char, code}
use Prim.Native.Nat.{◌-◌}
use pypowervm.Prelude.{
  String, ◌&&◌, Option, none, some, List, [], ◌∷◌, ◌==◌, leb, if◌then◌else◌, get_elem?, ◌≡◌, refl,
}

abbrev pub chars : String → List Char
chars String.[] = []
chars (String.◌∷◌ c s) = c ∷ chars s

abbrev pub or_same : Char → Option Char → Char
or_same c none = c
or_same c (some d) = d

-- `upper` of an ASCII character; any other is left.
unfoldable pub upper_char : Char → Char
upper_char c =
    if leb b'a' (code c) && leb (code c) b'z'
    then or_same c (get_elem? (chars "ABCDEFGHIJKLMNOPQRSTUVWXYZ") (code c - b'a'))
    else c

-- Drops the colons and makes the rest upper case. The argument is an ASCII text.
unfoldable pub sanitize_mac_for_api : String → String
unfolding upper_char
sanitize_mac_for_api String.[] = String.[]
sanitize_mac_for_api (String.◌∷◌ c s) =
    let rest = sanitize_mac_for_api s in
    if code c == b':' then rest else String.◌∷◌ (upper_char c) rest

-- Makes the characters upper case and drops the colons. The argument is an ASCII text.
unfoldable pub sanitize_wwpn_for_api : String → String
unfolding upper_char
sanitize_wwpn_for_api String.[] = String.[]
sanitize_wwpn_for_api (String.◌∷◌ c s) =
    let rest = sanitize_wwpn_for_api s in
    let d = upper_char c in if code d == b':' then rest else String.◌∷◌ d rest

mac_run : sanitize_mac_for_api "aa:bb:0C" ≡ "AABB0C"
unfolding sanitize_mac_for_api
mac_run = refl

-- `s.lower()`. The argument is an ASCII text.
unfoldable pub lower : String → String
lower String.[] = String.[]
lower (String.◌∷◌ c s) =
    let rest = lower s in
    String.◌∷◌
      (if leb b'A' (code c) && leb (code c) b'Z'
        then or_same c (get_elem? (chars "abcdefghijklmnopqrstuvwxyz") (code c - b'A'))
        else c)
      rest

lower_run : lower "POWER7_Plus" ≡ "power7_plus"
unfolding lower
lower_run = refl
