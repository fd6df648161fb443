-- ===== src/Path/Lexical.antt =====
-- The lexical functions of Go's `path/filepath` on Unix: `IsAbs`, `Clean`, `Join`, `Dir`.
use remote_hands.Shared.{
  ℕ, Bool, true, false, List, [], ◌∷◌, ◌++◌, Text, text_eq, is_empty, has_prefix, split, join,
  if◌then◌else◌, nat_eq, ◌||◌, ◌&&◌, Option, none, some, map,
}
use mathlib.Core.List.{reverse}

abbrev pub slash : ℕ
slash = b'/'

abbrev pub dot : Text
dot = b'.' ∷ []

abbrev pub dot_dot : Text
dot_dot = b'.' ∷ b'.' ∷ []

unfoldable pub is_abs : Text → Bool
unfolding has_prefix
is_abs p = has_prefix p (slash ∷ [])

-- A `..` removes the element before it; at the root it goes, in front of a relative path it stays.
unfoldable pub go_up : Bool → List Text → List Text
go_up true [] = []
go_up false [] = dot_dot ∷ []
go_up rooted (c ∷ kept) = if text_eq c dot_dot then dot_dot ∷ c ∷ kept else kept

-- One element of the path, onto the elements kept so far, last first.
unfoldable pub element : Bool → List Text → Text → List Text
unfolding go_up text_eq
element rooted kept c =
    if is_empty c || text_eq c dot
    then kept
    else if text_eq c dot_dot
    then go_up rooted kept
    else c ∷ kept

unfoldable pub elements : Bool → List Text → List Text → List Text
unfolding element
elements rooted kept [] = kept
elements rooted kept (c ∷ cs) = elements rooted (element rooted kept c) cs

-- A rooted path from its elements.
unfoldable pub render : List Text → Text
unfolding join
render cs = slash ∷ join slash cs

abbrev relative : List Text → Text
relative [] = dot
relative (c ∷ cs) = join slash (c ∷ cs)

unfoldable pub clean : Text → Text
unfolding elements render split is_abs join
clean [] = dot
clean (c ∷ p) =
    if is_abs (c ∷ p)
    then render (reverse (elements true [] (split slash (c ∷ p))))
    else relative (reverse (elements false [] (split slash (c ∷ p))))

-- `filepath.Join(a, b)`: empty leading elements are dropped.
unfoldable pub join_path : Text → Text → Text
unfolding clean
join_path [] [] = []
join_path [] (c ∷ b) = clean (c ∷ b)
join_path (d ∷ a) b = clean ((d ∷ a) ++ slash ∷ b)

-- The text up to its last slash, that slash included.
unfoldable pub up_to_slash : Text → Text
up_to_slash [] = []
up_to_slash (c ∷ p) = elim (up_to_slash p) [
  | [] ↦ if nat_eq c slash then c ∷ [] else []
  | d ∷ q ↦ c ∷ d ∷ q
]

-- `filepath.Dir(p)`
unfoldable pub dir : Text → Text
unfolding clean up_to_slash
dir p = clean (up_to_slash p)

-- The elements behind the common front of two lists, with a `..` for each one of the first left.
unfoldable pub steps_between : List Text → List Text → List Text
unfolding text_eq
steps_between [] target = target
steps_between (b ∷ base) [] = dot_dot ∷ steps_between base []
steps_between (b ∷ base) (t ∷ target) =
    let on = steps_between base target in
    if text_eq b t then on else dot_dot ∷ (map (λ _. dot_dot) base ++ t ∷ target)

-- The elements of a clean rooted path.
unfoldable pub elements_of : Text → List Text
unfolding elements split
elements_of p = reverse (elements true [] (split slash p))

-- `filepath.Rel(base, target)`, for two rooted paths; `none` is its error, for one of another kind.
unfoldable pub rel : Text → Text → Option Text
unfolding steps_between elements_of is_abs join
rel base target =
    if is_abs base && is_abs target
    then some (relative (steps_between (elements_of base) (elements_of target)))
    else none
