-- ===== src/FilePath.antt =====
-- Slash-separated paths: hackpadfs.ValidPath of fs.go, and what the file systems use of Go's
-- io/fs.ValidPath and path.Clean, Join, Split, Dir and Base.
mod Tests
pub mod Elems
pub mod Utf8
pub mod Names
pub mod Join
pub mod Below
pub mod Parent
pub mod Rooted
use mathlib.Core.List.{reverse}
use hackpadfs.Base.{
  ℕ, Text, codes, text_eq, Bool, true, false, ◌&&◌, ◌||◌, not, Option, none, some, List, [], ◌∷◌,
  ◌++◌, leb, ◌==◌, if◌then◌else◌, all,
}

abbrev pub slash : ℕ
slash = b'/'

abbrev pub dot : Text
dot = b'.' ∷ []

abbrev pub dotdot : Text
dotdot = b'.' ∷ b'.' ∷ []

abbrev pub within : ℕ → ℕ → ℕ → Bool
within lo hi c = leb lo c && leb c hi

-- utf8.ValidString as an automaton: what may follow inside an encoded character.
pub data Utf8State : Type 0 where
  start tail1 tail2 tail3 after_e0 after_ed after_f0 after_f4 : Utf8State

utf8_start : ℕ → Option Utf8State
utf8_start c =
    if leb c 0x7f
    then some start
    else if within 0xc2 0xdf c
    then some tail1
    else if c == 0xe0
    then some after_e0
    else if c == 0xed
    then some after_ed
    else if within 0xe1 0xef c
    then some tail2
    else if c == 0xf0
    then some after_f0
    else if within 0xf1 0xf3 c
    then some tail3
    else if c == 0xf4
    then some after_f4
    else none

pub utf8_step : Utf8State → ℕ → Option Utf8State
unfolding utf8_start
utf8_step start c = utf8_start c
utf8_step tail1 c = if within 0x80 0xbf c then some start else none
utf8_step tail2 c = if within 0x80 0xbf c then some tail1 else none
utf8_step tail3 c = if within 0x80 0xbf c then some tail2 else none
utf8_step after_e0 c = if within 0xa0 0xbf c then some tail1 else none
utf8_step after_ed c = if within 0x80 0x9f c then some tail1 else none
utf8_step after_f0 c = if within 0x90 0xbf c then some tail2 else none
utf8_step after_f4 c = if within 0x80 0x8f c then some tail2 else none

pub utf8_from : Utf8State → Text → Bool
utf8_from start [] = true
utf8_from _ [] = false
utf8_from q (c ∷ s) = elim (utf8_step q c) [ none ↦ false | some r ↦ utf8_from r s ]

unfoldable pub utf8_valid : Text → Bool
unfolding utf8_from utf8_step
utf8_valid s = utf8_from start s

unfoldable pub push : ℕ → List Text → List Text
push c [] = (c ∷ []) ∷ []
push c (e ∷ es) = (c ∷ e) ∷ es

-- strings.Split(s, "/")
unfoldable pub elems : Text → List Text
unfolding push
elems [] = [] ∷ []
elems (c ∷ s) = if c == slash then [] ∷ elems s else push c (elems s)

-- strings.Join(es, "/")
unfoldable pub join_elems : List Text → Text
join_elems [] = []
join_elems (e ∷ []) = e
join_elems (e ∷ f ∷ es) = e ++ (slash ∷ join_elems (f ∷ es))

unfoldable pub valid_elem : Text → Bool
valid_elem e = not (text_eq e [] || text_eq e dot || text_eq e dotdot)

-- ValidPath
unfoldable pub valid_path : Text → Bool
unfolding utf8_valid elems valid_elem text_eq
valid_path p = utf8_valid p && (text_eq p dot || all valid_elem (elems p))

-- The elements that path.Clean has kept, the last one first; `rooted` is its flag.
clean_back : Bool → List Text → List Text
clean_back rooted [] = if rooted then [] else dotdot ∷ []
clean_back rooted (e ∷ kept) = if text_eq e dotdot then dotdot ∷ e ∷ kept else kept

pub clean_elem : Bool → Text → List Text → List Text
unfolding clean_back
clean_elem rooted e kept =
    if text_eq e [] || text_eq e dot
    then kept
    else if text_eq e dotdot
    then clean_back rooted kept
    else e ∷ kept

pub clean_loop : Bool → List Text → List Text → List Text
clean_loop rooted [] kept = kept
clean_loop rooted (e ∷ es) kept = clean_loop rooted es (clean_elem rooted e kept)

abbrev pub is_rooted : Text → Bool
is_rooted [] = false
is_rooted (c ∷ s) = c == slash

abbrev pub or_dot : Text → Text
or_dot [] = dot
or_dot (c ∷ s) = c ∷ s

pub clean_finish : Bool → List Text → Text
unfolding join_elems
clean_finish rooted kept =
    let out = join_elems (reverse kept) in or_dot (if rooted then slash ∷ out else out)

-- path.Clean
unfoldable pub clean : Text → Text
unfolding clean_loop clean_elem clean_finish elems text_eq
clean p = clean_finish (is_rooted p) (clean_loop (is_rooted p) (elems p) [])

-- The buffer of path.Join.
join_buf : Text → List Text → Text
join_buf buf [] = buf
join_buf [] (e ∷ es) = join_buf e es
join_buf (c ∷ buf) (e ∷ es) = join_buf (c ∷ buf ++ (slash ∷ e)) es

abbrev clean_buf : Text → Text
clean_buf [] = []
clean_buf (c ∷ s) = clean (c ∷ s)

-- path.Join
unfoldable pub path_join : List Text → Text
unfolding join_buf clean
path_join es = clean_buf (join_buf [] es)

pub split_step : ℕ → Text × Text → Text × Text
split_step c ([], f) = if c == slash then (c ∷ [], f) else ([], c ∷ f)
split_step c (x ∷ d, f) = (c ∷ x ∷ d, f)

-- path.Split: up to and with the last slash, and behind it.
unfoldable pub split_path : Text → Text × Text
unfolding split_step
split_path [] = ([], [])
split_path (c ∷ s) = split_step c (split_path s)

-- path.Dir
unfoldable pub path_dir : Text → Text
unfolding split_path clean
path_dir p = clean (split_path p).0

strip_slashes : Text → Text
strip_slashes [] = []
strip_slashes (c ∷ s) =
    let r = strip_slashes s in elim r [ [] ↦ if c == slash then [] else c ∷ [] | x ∷ t ↦ c ∷ x ∷ t ]

base_of : Text → Text
base_of [] = slash ∷ []
base_of (c ∷ s) = (split_path (c ∷ s)).1

-- path.Base
unfoldable pub path_base : Text → Text
unfolding strip_slashes base_of split_path
path_base [] = dot
path_base (c ∷ s) = base_of (strip_slashes (c ∷ s))
