-- ===== src/FilePath/Names.antt =====
-- Joining a path to a directory, and taking it off again.
use elusive.Base.{◌≡◌, ◌≢◌, refl, some, [], ◌∷◌, ◌++◌, Bytes, true}
use elusive.Base.Order.{same_refl}
use elusive.FilePath.{
  Component, root_dir, cur_dir, parent_dir, normal, FilePath, component_ord, parent, join,
  file_name, strip_prefix, is_absolute,
}

pub parent-append : (p : FilePath) (c : Component) → c ≢ root_dir → parent (p ++ (c ∷ [])) ≡ some p
unfolding parent
parent-append [] root_dir h = absurd (h refl)
parent-append [] cur_dir h = refl
parent-append [] parent_dir h = refl
parent-append [] (normal n) h = refl
parent-append (b ∷ []) c h = rw (parent-append [] c h)
parent-append (b ∷ d ∷ p) c h = rw (parent-append (d ∷ p) c h)

pub file_name-append :
    (p : FilePath) (name : Bytes) → file_name (p ++ (normal name ∷ [])) ≡ some name
unfolding file_name
file_name-append [] name = refl
file_name-append (c ∷ []) name = refl
file_name-append (c ∷ d ∷ p) name = file_name-append (d ∷ p) name

pub join_name : (p : FilePath) (name : Bytes) → join p (normal name ∷ []) ≡ p ++ (normal name ∷ [])
unfolding join
join_name [] name = refl
join_name (c ∷ p) name = refl

pub strip_prefix-append : (base p : FilePath) → strip_prefix base (base ++ p) ≡ some p
unfolding strip_prefix
strip_prefix-append [] p = refl
strip_prefix-append (c ∷ base) p = rw (same_refl c) (strip_prefix-append base p)

-- Joined to an absolute directory a path stays absolute.
pub is_absolute-join : (p q : FilePath) → is_absolute p ≡ true → is_absolute (join p q) ≡ true
unfolding join
is_absolute-join (root_dir ∷ p) (root_dir ∷ q) h = refl
is_absolute-join (root_dir ∷ p) _ h = refl
is_absolute-join [] q h = cc
is_absolute-join (cur_dir ∷ p) q h = cc
is_absolute-join (parent_dir ∷ p) q h = cc
is_absolute-join (normal n ∷ p) q h = cc
