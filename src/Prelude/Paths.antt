-- ===== src/Prelude/Paths.antt =====
-- Slash-separated paths: Clean, Dir, Join and IsAbs of Go's packages path and path/filepath.
use Prim.Native.String.{String, [], ◌∷◌, ◌++◌}
use Prim.Native.Nat.{ℕ}
use Prim.Native.Char.{code}
use mathlib.Core.Bool.{Bool, true, false, ◌||◌}
use mathlib.Core.Option.{Option, none, some}
use mathlib.Core.List.{List, reverse}
use text.Mathlib.Text.{◌==◌}
use dependency_guardian.Prelude.Tests.{eqb, if◌then◌else◌}
use dependency_guardian.Prelude.Text.{has_prefix, cut_last}

-- strings.Split for a separator of one character.
unfoldable pub split_char : ℕ → String → List String
split_char d [] = List.◌∷◌ [] List.[]
split_char d (c ∷ s) =
    let rest = split_char d s in
    if eqb (code c) d
    then List.◌∷◌ [] rest
    else elim rest [ List.[] ↦ List.◌∷◌ (c ∷ []) List.[] | List.◌∷◌ t ts ↦ List.◌∷◌ (c ∷ t) ts ]

-- The elements behind an element "..", the latest one first; a rooted path has nothing above its root.
abbrev go_up : Bool → List String → List String
go_up true List.[] = List.[]
go_up false List.[] = List.◌∷◌ ".." List.[]
go_up rooted (List.◌∷◌ s done) = if s == ".." then List.◌∷◌ ".." (List.◌∷◌ s done) else done

-- The elements that are left of a path, behind those that are done, the latest one first.
unfoldable pub clean_elements : Bool → List String → List String → List String
clean_elements rooted done List.[] = reverse done
clean_elements rooted done (List.◌∷◌ s ss) =
    clean_elements rooted
      (if s == "" || s == "."
        then done
        else if s == ".."
        then go_up rooted done
        else List.◌∷◌ s done)
      ss

abbrev pub joined : List String → String
joined List.[] = ""
joined (List.◌∷◌ s List.[]) = s
joined (List.◌∷◌ s (List.◌∷◌ t ts)) = s ++ "/" ++ joined (List.◌∷◌ t ts)

-- path.Clean
unfoldable pub clean : String → String
unfolding split_char clean_elements has_prefix
clean p =
    let rooted = has_prefix p "/" in
    let rest = joined (clean_elements rooted List.[] (split_char b'/' p)) in
    if rooted then "/" ++ rest else if rest == "" then "." else rest

-- filepath.IsAbs
unfoldable pub is_abs : String → Bool
unfolding has_prefix
is_abs p = has_prefix p "/"

abbrev dir_of : Option (String × String) → String
dir_of none = ""
dir_of (some (dir, file)) = dir ++ "/"

-- filepath.Dir
unfoldable pub dir : String → String
unfolding cut_last clean
dir p = clean (dir_of (cut_last p "/"))

-- filepath.Join of two elements.
unfoldable pub join : String → String → String
unfolding clean
join a b =
    if a == ""
    then if b == "" then "" else clean b
    else if b == ""
    then clean a
    else clean (a ++ "/" ++ b)
