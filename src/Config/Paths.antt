-- ===== src/Config/Paths.antt =====
-- Go's `path/filepath` on Unix: `Clean` and `Join`, as the program uses them to name report files.
pub mod Reports
use Prim.Native.Char.{code}
use batch_job_controller.Base.{
  String, Bool, true, false, List, [], ◌∷◌, ◌≡◌, refl, ◌||◌, ◌<>◌, ◌==◌, eqb, split, if◌then◌else◌,
}
use mathlib.Core.List.{reverse}

abbrev is_rooted : String → Bool
is_rooted String.[] = false
is_rooted (String.◌∷◌ c s) = eqb (code c) b'/'

-- "..": it removes the element before it, is dropped at the root, and stays at a relative path's front
abbrev up : Bool → List String → List String
up true [] = []
up false [] = ".." ∷ []
up rooted (top ∷ stack) = if top == ".." then ".." ∷ top ∷ stack else stack

-- one element of the path; the stack has its top at the head
unfoldable pub resolve : Bool → List String → String → List String
resolve rooted stack part =
    if part == "" || part == "."
    then stack
    else if part == ".."
    then up rooted stack
    else part ∷ stack

unfoldable pub resolve_all : Bool → List String → List String → List String
unfolding resolve
resolve_all rooted stack [] = stack
resolve_all rooted stack (part ∷ parts) = resolve_all rooted (resolve rooted stack part) parts

-- `strings.Join(parts, "/")`
abbrev pub join_slash : List String → String
join_slash [] = ""
join_slash (part ∷ []) = part
join_slash (part ∷ next ∷ parts) = part <> "/" <> join_slash (next ∷ parts)

-- the elements of the cleaned path
unfoldable pub elements : String → List String
unfolding resolve_all split
elements path = reverse (resolve_all (is_rooted path) [] (split b'/' path))

abbrev pub render : Bool → List String → String
render true parts = "/" <> join_slash parts
render false [] = "."
render false (part ∷ parts) = join_slash (part ∷ parts)

-- `filepath.Clean`
unfoldable pub clean : String → String
unfolding elements
clean path = render (is_rooted path) (elements path)

-- `filepath.Join`: leading empty elements are dropped, and no element at all gives the empty text
unfoldable pub join : List String → String
unfolding clean
join [] = ""
join (part ∷ parts) =
    let rest = join parts in if part == "" then rest else clean (join_slash (part ∷ parts))

clean_tests :
    (clean "/var//www/./a/../b/" ≡ "/var/www/b") × (clean "../../a/.." ≡ "../..") × (clean "" ≡ ".")
unfolding clean
clean_tests = (refl, refl, refl)
