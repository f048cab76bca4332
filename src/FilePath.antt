-- ===== src/FilePath.antt =====
-- Go's path/filepath on Unix: `Join`, `Clean` and `Dir`, which the content stores name files by.
pub mod Laws
use lfs_server_go.Prelude.{
  ℕ, Bool, true, false, ◌&&◌, ◌||◌, not, Option, none, some, List, [], ◌∷◌, ◌++◌, eqb,
  if◌then◌else◌,
}
use mathlib.Core.List.{reverse}
use lfs_server_go.Text.{Bytes, lit, ◌==◌}

abbrev pub slash : ℕ
slash = b'/'

-- strings.Split(s, "/"), with the part that is being read.
unfoldable pub split_from : Bytes → Bytes → List Bytes
split_from part [] = part ∷ []
split_from part (c ∷ s) =
    let ends = part ∷ split_from [] s in
    let grows = split_from (part ++ c ∷ []) s in if eqb c slash then ends else grows

unfoldable pub split_slash : Bytes → List Bytes
unfolding split_from
split_slash s = split_from [] s

-- strings.Join(parts, "/")
unfoldable pub join_slash : List Bytes → Bytes
join_slash [] = []
join_slash (p ∷ []) = p
join_slash (p ∷ q ∷ rest) = p ++ slash ∷ join_slash (q ∷ rest)

abbrev pub dot : Bytes
dot = lit "."

abbrev pub dots : Bytes
dots = lit ".."

-- One element of `Clean`; the elements so far have the last at the head.
unfoldable pub resolve : Bool → List Bytes → Bytes → List Bytes
resolve rooted stack part =
    if part == [] || part == dot
    then stack
    else if not (part == dots)
    then part ∷ stack
    else elim stack [
      | [] ↦ if rooted then [] else dots ∷ []
      | top ∷ rest ↦ if top == dots then dots ∷ top ∷ rest else rest
    ]

unfoldable pub resolve_all : Bool → List Bytes → List Bytes → List Bytes
unfolding resolve
resolve_all rooted stack [] = stack
resolve_all rooted stack (part ∷ parts) = resolve_all rooted (resolve rooted stack part) parts

unfoldable pub is_rooted : Bytes → Bool
is_rooted [] = false
is_rooted (c ∷ s) = eqb c slash

-- The text of a path of these elements.
unfoldable pub render : Bool → List Bytes → Bytes
unfolding join_slash
render true parts = slash ∷ join_slash parts
render false [] = dot
render false (p ∷ parts) = join_slash (p ∷ parts)

unfoldable pub clean : Bytes → Bytes
unfolding resolve_all split_slash is_rooted render
clean s = render (is_rooted s) (reverse (resolve_all (is_rooted s) [] (split_slash s)))

-- filepath.Join: the elements before the first that is not empty are dropped.
unfoldable pub join : List Bytes → Bytes
unfolding clean
join [] = []
join (p ∷ parts) = let rest = join parts in if p == [] then rest else clean (join_slash (p ∷ parts))

-- What stands up to the last slash, with it.
unfoldable pub up_to_slash : Bytes → Bytes
up_to_slash [] = []
up_to_slash (c ∷ s) = elim (up_to_slash s) [
  | [] ↦ (if eqb c slash then c ∷ [] else [])
  | d ∷ more ↦ c ∷ d ∷ more
]

unfoldable pub dir : Bytes → Bytes
unfolding clean up_to_slash
dir path = clean (up_to_slash path)
