-- ===== src/Base/Paths.antt =====
-- Go's `path.Join` and `path.Clean`, on the segments of a path.
use Prim.Native.Char.{Char, code}
use Prim.Native.String.{String, [], ◌∷◌, ◌++◌}
use text.Mathlib.Text.{◌==◌, starts_with}
use mathlib.Core.Bool.{Bool, ◌||◌}
use mathlib.Core.List.{List}
use marmot.Base.Tests.{nat_beq, if◌then◌else◌}

add_char : Char → List String → List String
add_char c List.[] = List.◌∷◌ (c ∷ []) List.[]
add_char c (List.◌∷◌ s segments) = List.◌∷◌ (c ∷ s) segments

segments_of : String → List String
unfolding add_char
segments_of [] = List.◌∷◌ "" List.[]
segments_of (c ∷ s) =
    if nat_beq (code c) 47 then List.◌∷◌ "" (segments_of s) else add_char c (segments_of s)

-- A step up drops the last segment, if there is one that is no step up; a root has no parent.
step_up : Bool → List String → List String
step_up rooted List.[] = if rooted then List.[] else List.◌∷◌ ".." List.[]
step_up rooted (List.◌∷◌ last before) =
    if last == ".." then List.◌∷◌ ".." (List.◌∷◌ last before) else before

-- The clean segments, the last first.
resolve : Bool → List String → List String → List String
unfolding step_up
resolve rooted List.[] done = done
resolve rooted (List.◌∷◌ s segments) done = resolve rooted segments (
    if s == "" || s == "."
    then done
    else if s == ".."
    then step_up rooted done
    else List.◌∷◌ s done)

path_of : List String → String → String
path_of List.[] path = path
path_of (List.◌∷◌ s before) path = path_of before (if path == "" then s else s ++ ("/" ++ path))

clean_as : Bool → String → String
unfolding segments_of resolve path_of
clean_as rooted path =
    let cleaned = path_of (resolve rooted (segments_of path) List.[]) "" in
    if rooted then "/" ++ cleaned else if cleaned == "" then "." else cleaned

unfoldable pub clean : String → String
unfolding clean_as
clean path = if path == "" then "." else clean_as (starts_with path "/") path

joined : List String → String
joined List.[] = ""
joined (List.◌∷◌ s parts) =
    let rest = joined parts in
    if s == "" then rest else if rest == "" then s else s ++ ("/" ++ rest)

-- `path.Join`
unfoldable pub join : List String → String
unfolding joined clean
join parts = let path = joined parts in if path == "" then "" else clean path
