-- ===== src/FilePath.antt =====
-- `std::path`: what the program uses of `Path` and `PathBuf`, on Unix.
-- Two paths are equal for std when their components are, so a path is the list of its components;
-- `parse` reads one from its bytes, and `to_bytes` is its spelling without repeated separators.
pub mod Names
pub mod Prefixes
pub mod Lengths
pub mod Below
use Prim.Native.Nat.{compare, Ordering}
use mathlib.Core.List.{reverse}
use mathlib.Core.Option
use elusive.Base.{
  ℕ, ◌≡◌, refl, ◌≢◌, Bool, true, false, Option, none, some, List, [], ◌∷◌, ◌++◌, arith, Bytes,
  codes, ◌==◌, if◌then◌else◌, All,
}
use elusive.Text.{split}
use elusive.Base.Order.{
  Ord, nat_ord, list_ord, lex, lex_refl, lex_eq, lex-flip, lex_trans, then_with, flip, same,
}

-- `std::path::Component`, in the order of its derived `Ord`.
pub data Component : Type 0 where
  root_dir : Component
  cur_dir : Component
  parent_dir : Component
  normal : Bytes → Component

abbrev pub rank : Component → ℕ
rank root_dir = 0
rank cur_dir = 1
rank parent_dir = 2
rank (normal _) = 3

-- `Component::as_os_str`
abbrev pub os_str : Component → Bytes
os_str root_dir = b'/' ∷ []
os_str cur_dir = b'.' ∷ []
os_str parent_dir = b'.' ∷ b'.' ∷ []
os_str (normal name) = name

-- The derived order compares the variants first, and then the names.
abbrev pub order_key : Component → Bytes
order_key c = rank c ∷ os_str c

abbrev pub cmp_component : Component → Component → Ordering
cmp_component a b = lex (order_key a) (order_key b)

pub component_refl : (a : Component) → cmp_component a a ≡ Ordering.eq
component_refl a = lex_refl (order_key a)

pub component_eq : (a b : Component) → cmp_component a b ≡ Ordering.eq → a ≡ b
component_eq a b h = ground (arith, lex_eq (os_str a) (os_str b))

pub component_flip : (a b : Component) → cmp_component b a ≡ flip (cmp_component a b)
component_flip a b = lex-flip (order_key a) (order_key b)

pub component_trans :
    (a b c : Component)
    → cmp_component a b ≡ Ordering.lt
    → cmp_component b c ≡ Ordering.lt
    → cmp_component a c ≡ Ordering.lt
component_trans a b c = lex_trans (order_key a) (order_key b) (order_key c)

instance unfoldable pub component_ord : Ord Component
component_ord = record {
  cmp = cmp_component;
  cmp_refl = component_refl;
  cmp_eq = component_eq;
  cmp_flip = component_flip;
  cmp_trans = component_trans;
}

abbrev pub FilePath : Type 0
FilePath = List Component

-- `Ord for Path` compares the components.
instance unfoldable pub path_ord : Ord FilePath
unfolding list_ord component_ord
path_ord = list_ord

-- The path `/`.
abbrev pub root : FilePath
root = root_dir ∷ []

abbrev pub is_absolute : FilePath → Bool
is_absolute (root_dir ∷ p) = true
is_absolute _ = false

-- Whether the last component can be taken off.
abbrev pub parent_of_last : Component → Option FilePath
parent_of_last root_dir = none
parent_of_last _ = some []

unfoldable pub parent : FilePath → Option FilePath
parent [] = none
parent (c ∷ []) = parent_of_last c
parent (c ∷ d ∷ p) = Option.map (λ q. c ∷ q) (parent (d ∷ p))

-- The path `front` and its extensions by more and more of `rest`.
unfoldable pub prefixes : FilePath → FilePath → List FilePath
prefixes front [] = front ∷ []
prefixes front (c ∷ rest) = front ∷ prefixes (front ++ (c ∷ [])) rest

-- The path itself, its parent and so on: to `/`, or to the empty path if it is relative.
unfoldable pub ancestors : FilePath → List FilePath
unfolding prefixes
ancestors (root_dir ∷ p) = reverse (prefixes root p)
ancestors p = reverse (prefixes [] p)

-- Between other components a `.` is dropped.
abbrev pub without_cur : FilePath → FilePath
without_cur (cur_dir ∷ p) = p
without_cur p = p

-- `base.join(p)`: an absolute path replaces the base.
unfoldable pub join : FilePath → FilePath → FilePath
join base (root_dir ∷ p) = root_dir ∷ p
join [] p = p
join base p = base ++ without_cur p

unfoldable pub strip_prefix : FilePath → FilePath → Option FilePath
strip_prefix [] p = some p
strip_prefix (b ∷ bs) [] = none
strip_prefix (b ∷ bs) (c ∷ p) = if same b c then strip_prefix bs p else none

abbrev pub name_of_last : Component → Option Bytes
name_of_last (normal name) = some name
name_of_last _ = none

unfoldable pub file_name : FilePath → Option Bytes
file_name [] = none
file_name (c ∷ []) = name_of_last c
file_name (c ∷ d ∷ p) = file_name (d ∷ p)

abbrev pub component : Bytes → Component
component name = if same name (b'.' ∷ b'.' ∷ []) then parent_dir else normal name

-- Empty segments and `.` are skipped.
unfoldable pub body : List Bytes → FilePath
body [] = []
body (s ∷ ss) =
    if same s [] then body ss else if same s (b'.' ∷ []) then body ss else component s ∷ body ss

-- A leading `.` counts.
unfoldable pub leading : List Bytes → FilePath
unfolding body
leading [] = []
leading (s ∷ ss) = if same s (b'.' ∷ []) then cur_dir ∷ body ss else body (s ∷ ss)

-- `Path::new(s).components()`
unfoldable pub parse : Bytes → FilePath
unfolding split leading
parse [] = []
parse (c ∷ s) = if c == b'/' then root_dir ∷ body (split b'/' s) else leading (split b'/' (c ∷ s))

-- The components with a separator between any two.
unfoldable pub spell : FilePath → Bytes
spell [] = []
spell (c ∷ []) = os_str c
spell (c ∷ d ∷ p) = os_str c ++ (b'/' ∷ spell (d ∷ p))

-- `as_os_str().as_bytes()`
unfoldable pub to_bytes : FilePath → Bytes
unfolding spell
to_bytes (root_dir ∷ p) = b'/' ∷ spell p
to_bytes p = spell p

-- A name without its extension, and the extension: what stands behind the last dot, if that is not
-- in front of the name.
unfoldable pub split_dot : Bytes → Option (Bytes × Bytes)
split_dot [] = none
split_dot (c ∷ s) = elim (split_dot s) [
  | some (stem, ext) ↦ some (c ∷ stem, ext)
  | none ↦ if c == b'.' then some ([], s) else none
]

abbrev pub with_stem : Bytes × Bytes → Option (Bytes × Bytes)
with_stem ([], ext) = none
with_stem (c ∷ stem, ext) = some (c ∷ stem, ext)

-- `rsplit_file_at_dot`
unfoldable pub split_extension : Bytes → Option (Bytes × Bytes)
unfolding split_dot
split_extension name = elim (split_dot name) [ none ↦ none | some parts ↦ with_stem parts ]

-- `extension()`
unfoldable pub extension : FilePath → Option Bytes
unfolding file_name split_extension
extension p = elim (file_name p) [
  | none ↦ none
  | some name ↦ Option.map (λ parts. parts.1) (split_extension name)
]

abbrev pub file_stem : Bytes → Bytes
file_stem name = elim (split_extension name) [ none ↦ name | some parts ↦ parts.0 ]

-- The path with its last component replaced by a name.
unfoldable pub replace_last : FilePath → Bytes → FilePath
replace_last [] name = normal name ∷ []
replace_last (c ∷ []) name = normal name ∷ []
replace_last (c ∷ d ∷ p) name = c ∷ replace_last (d ∷ p) name

-- `set_file_name(name)`: a path that ends in no name gets one.
unfoldable pub set_file_name : FilePath → Bytes → FilePath
unfolding file_name replace_last join
set_file_name p name = elim (file_name p) [
  | some _ ↦ replace_last p name
  | none ↦ join p (normal name ∷ [])
]

-- `set_extension(ext)`, for an `ext` that is not empty.
unfoldable pub set_extension : FilePath → Bytes → FilePath
unfolding file_name replace_last split_extension
set_extension p ext = elim (file_name p) [
  | none ↦ p
  | some name ↦ replace_last p (file_stem name ++ (b'.' ∷ ext))
]
