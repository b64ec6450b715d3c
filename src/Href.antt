-- ===== src/Href.antt =====
-- The UUIDs in the paths of REST URIs (get_req_path_uuid and dice_href of pypowervm/util.py).
use Prim.Native.Char.{Char, code}
use pypowervm.Prelude.{
  ℕ, zero, suc, String, Bool, true, false, ◌&&◌, ◌||◌, Option, none, some, List, [], ◌∷◌, ◌++◌,
  ◌==◌, leb, text_eq, if◌then◌else◌, ◌≡◌, refl,
}
use pypowervm.Sanitize.{chars, lower}
use mathlib.Core.List.{reverse}
mod Paths
mod Examples

-- An href of which only the path is read: what stands after each of the path's slashes, with which
-- it begins.
pub record Url : Type 0 where
  pub path : List String

is_hex : Char → Bool
is_hex c =
    leb b'0' (code c) && leb (code c) b'9'
    || leb b'A' (code c) && leb (code c) b'F'
    || leb b'a' (code c) && leb (code c) b'f'

-- What follows that many hexadecimal digits.
hex_run : ℕ → List Char → Option (List Char)
unfolding is_hex
hex_run zero cs = some cs
hex_run (suc n) [] = none
hex_run (suc n) (c ∷ cs) = let rest = hex_run n cs in if is_hex c then rest else none

-- `$` matches at the end and before a newline at the end.
is_end : List Char → Bool
is_end [] = true
is_end (c ∷ []) = code c == 10
is_end (c ∷ d ∷ cs) = false

runs_match : List ℕ → List Char → Bool
unfolding hex_run is_end
runs_match [] cs = false
runs_match (n ∷ []) cs = elim (hex_run n cs) [ none ↦ false | some rest ↦ is_end rest ]
runs_match (n ∷ m ∷ ns) cs = elim (hex_run n cs) [
  | none ↦ false
  | some [] ↦ false
  | some (c ∷ rest) ↦ (code c == b'-') && runs_match (m ∷ ns) rest
]

-- `re.match(const.UUID_REGEX_WORD, s)`
unfoldable pub is_uuid : String → Bool
unfolding runs_match
is_uuid s = runs_match (8 ∷ 4 ∷ 4 ∷ 4 ∷ 12 ∷ []) (chars s)

-- Drops the empty texts at the front.
drop_empty : List String → List String
drop_empty [] = []
drop_empty (s ∷ ss) = let rest = drop_empty ss in if text_eq s "" then rest else s ∷ ss

-- What stands between the slashes of `dice_href(path, include_query=False,
-- include_fragment=False)`, from the last to the first; slashes at the end are trimmed.
unfoldable pub dice_href : Url → List String
unfolding drop_empty
dice_href u = drop_empty (reverse u.path) ++ "" ∷ []

-- `p.rsplit('/', 3)[1::2]`, where the pieces of p come from the last to the first.
unfoldable pub maybe_ids : List String → List String
maybe_ids [] = []
maybe_ids (a ∷ []) = []
maybe_ids (b ∷ a ∷ []) = b ∷ []
maybe_ids (c ∷ b ∷ a ∷ []) = b ∷ []
maybe_ids (d ∷ c ∷ b ∷ a ∷ rest) = b ∷ d ∷ []

-- The loop over the candidates, with `ret`.
unfoldable pub pick : Bool → Bool → Option String → List String → Option String
unfolding is_uuid lower
pick preserve_case root ret [] = ret
pick preserve_case root ret (m ∷ ms) =
    let found = if preserve_case then m else lower m in
    let here = pick preserve_case root (some found) ms in
    let on = pick preserve_case root ret ms in
    if is_uuid m then (if root then some found else here) else on

unfoldable pub get_req_path_uuid : Bool → Bool → Url → Option String
unfolding pick maybe_ids dice_href
get_req_path_uuid preserve_case root u = pick preserve_case root none (maybe_ids (dice_href u))
