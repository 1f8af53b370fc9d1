-- ===== src/FilePath.antt =====
-- What internal/script and the receivers use of Go's path/filepath, on systems with the separator
-- "/". A path is taken apart into its cleaned elements, and put together again.
pub mod Relative
use Prim.Native.Char.{Char, code}
use Prim.Native.String
use mathlib.Core.List.{foldl, reverse}
use tarunner.Base.{
  ℕ, String, ◌<>◌, Bool, true, false, ◌&&◌, ◌||◌, not, Option, none, some, List, [], ◌∷◌, map, ◌++◌,
  ◌==◌, nat_eq, string_eq, if◌then◌else◌,
}
use tarunner.Base.Result.{Result, ok, err, Error, not_relative, ◌>>=◌}

-- The pieces between separators.
unfoldable pub split_from : String → String → List String
split_from cur String.[] = cur ∷ []
split_from cur (String.◌∷◌ c s) =
    let closed = cur ∷ split_from "" s in
    let longer = split_from (cur <> String.◌∷◌ c String.[]) s in
    if code c == b'/' then closed else longer

unfoldable pub is_abs : String → Bool
is_abs String.[] = false
is_abs (String.◌∷◌ c s) = code c == b'/'

-- A cleaned path. A path that is not rooted may begin with elements "..".
pub record CleanPath : Type 0 where
  pub rooted : Bool
  pub elements : List String

-- An element ".." takes back the element before it, if that is not ".." itself; at the root it is
-- dropped. The stack has its top at the head.
unfoldable pub back : Bool → List String → List String
back rooted [] = if rooted then [] else ".." ∷ []
back rooted (top ∷ stack) = if top == ".." then ".." ∷ top ∷ stack else stack

unfoldable pub resolve : Bool → List String → String → List String
unfolding back
resolve rooted stack part =
    if part == "" || part == "."
    then stack
    else if part == ".."
    then back rooted stack
    else part ∷ stack

unfoldable pub parse : String → CleanPath
unfolding is_abs resolve split_from
parse path = record {
  rooted = is_abs path;
  elements = reverse (foldl (resolve (is_abs path)) [] (split_from "" path));
}

-- strings.Join(elements, "/")
unfoldable pub join_elements : List String → String
join_elements [] = ""
join_elements (e ∷ []) = e
join_elements (e ∷ e' ∷ es) = e <> ("/" <> join_elements (e' ∷ es))

unfoldable pub print : CleanPath → String
unfolding join_elements
print (p) =
    if p.rooted
    then "/" <> join_elements p.elements
    else elim p.elements [ [] ↦ "." | e ∷ es ↦ join_elements p.elements ]

-- filepath.Clean
unfoldable pub clean : String → String
unfolding parse print
clean path = print (parse path)

-- filepath.Join
unfoldable pub join : List String → String
unfolding clean
join [] = ""
join (e ∷ es) = let rest = join es in if e == "" then rest else clean (join_elements (e ∷ es))

-- filepath.Abs. `getwd` is what os.Getwd gives.
unfoldable pub abs : Result String → String → Result String
unfolding join
abs getwd path =
    if is_abs path then ok (clean path) else (do wd ← getwd; ok (join (wd ∷ path ∷ [])))

-- The elements that `filepath.Rel` compares: of the target, "." has one; of the base, it has none.
unfoldable pub target_elements : CleanPath → List String
target_elements t =
    if t.rooted then t.elements else elim t.elements [ [] ↦ "." ∷ [] | e ∷ es ↦ t.elements ]

-- Both lists without their common beginning.
unfoldable pub strip : List String → List String → List String × List String
strip [] ts = ([], ts)
strip (b ∷ bs) [] = (b ∷ bs, [])
strip (b ∷ bs) (t ∷ ts) = let rest = strip bs ts in if b == t then rest else (b ∷ bs, t ∷ ts)

-- Up from what is left of the base, then down to the target.
unfoldable pub up_and_down : Error → List String × List String → Result String
up_and_down e ([], ts) = ok (join_elements ts)
up_and_down e (b ∷ bs, ts) =
    if b == ".." then err e else ok (join_elements (".." ∷ (map (λ _. "..") bs ++ ts)))

unfoldable pub same_bool : Bool → Bool → Bool
same_bool true b = b
same_bool false b = not b

-- filepath.Rel
unfoldable pub rel : String → String → Result String
unfolding same_bool
rel base_path targ_path =
    let b = parse base_path in
    let t = parse targ_path in
    if print t == print b
    then ok "."
    else if same_bool b.rooted t.rooted
    then up_and_down (not_relative targ_path base_path) (strip b.elements (target_elements t))
    else err (not_relative targ_path base_path)
