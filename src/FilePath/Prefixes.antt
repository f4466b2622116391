-- ===== src/FilePath/Prefixes.antt =====
-- The ancestors of a path: they begin with the path itself, and each is the parent of the one before.
use mathlib.Core.List.{reverse, reverse-reverse, reverse-append}
use elusive.Base.{
  ◌≡◌, refl, ap, ◌∙◌, ◌≢◌, All, append-nil, List, [], ◌∷◌, ◌++◌, Bytes, append_assoc,
}
use elusive.FilePath.{
  Component, root_dir, cur_dir, parent_dir, normal, FilePath, root, prefixes, ancestors,
}

-- The directories that `ancestors().rev()` visits, from the top down.
abbrev pub from_top : FilePath → List FilePath
from_top (root_dir ∷ p) = prefixes root p
from_top p = prefixes [] p

pub reverse-ancestors : (p : FilePath) → reverse (ancestors p) ≡ from_top p
unfolding ancestors
reverse-ancestors [] = reverse-reverse _
reverse-ancestors (root_dir ∷ p) = reverse-reverse _
reverse-ancestors (cur_dir ∷ p) = reverse-reverse _
reverse-ancestors (parent_dir ∷ p) = reverse-reverse _
reverse-ancestors (normal n ∷ p) = reverse-reverse _

prefixes_snoc :
    (front rest : FilePath) (c : Component)
    → prefixes front (rest ++ (c ∷ []))
      ≡ prefixes front rest ++ ((front ++ (rest ++ (c ∷ []))) ∷ [])
unfolding prefixes
prefixes_snoc front [] c = refl
prefixes_snoc front (d ∷ rest) c =
    ap (λ ps. front ∷ ps) (prefixes_snoc (front ++ (d ∷ [])) rest c ∙ rw append_assoc)

pub from_top_snoc :
    (p : FilePath) (name : Bytes)
    → from_top (p ++ (normal name ∷ [])) ≡ from_top p ++ ((p ++ (normal name ∷ [])) ∷ [])
from_top_snoc [] name = prefixes_snoc [] [] (normal name)
from_top_snoc (root_dir ∷ p) name = prefixes_snoc root p (normal name)
from_top_snoc (cur_dir ∷ p) name = prefixes_snoc [] (cur_dir ∷ p) (normal name)
from_top_snoc (parent_dir ∷ p) name = prefixes_snoc [] (parent_dir ∷ p) (normal name)
from_top_snoc (normal n ∷ p) name = prefixes_snoc [] (normal n ∷ p) (normal name)

ancestors-from_top : (p : FilePath) → ancestors p ≡ reverse (from_top p)
unfolding ancestors
ancestors-from_top [] = refl
ancestors-from_top (root_dir ∷ p) = refl
ancestors-from_top (cur_dir ∷ p) = refl
ancestors-from_top (parent_dir ∷ p) = refl
ancestors-from_top (normal n ∷ p) = refl

-- std's description of `ancestors`: the path, and then the ancestors of its parent.
pub ancestors-append :
    (p : FilePath) (name : Bytes)
    → ancestors (p ++ (normal name ∷ [])) ≡ (p ++ (normal name ∷ [])) ∷ ancestors p
ancestors-append p name = rw (
  ancestors-from_top (p ++ (normal name ∷ [])),
  from_top_snoc,
  reverse-append,
  ← ancestors-from_top p,
)

prefixes_last {κ} :
    (P : FilePath → Type κ) (front rest : FilePath)
    → All P (prefixes front rest)
    → P (front ++ rest)
unfolding prefixes
prefixes_last P front [] h = rw append-nil h.0
prefixes_last P front (c ∷ rest) h =
    rw append_assoc at (prefixes_last P (front ++ (c ∷ [])) rest h.1)

-- The path itself is among the directories from the top.
pub from_top_last {κ} : (P : FilePath → Type κ) (p : FilePath) → All P (from_top p) → P p
from_top_last P [] h = prefixes_last P [] [] h
from_top_last P (root_dir ∷ p) h = prefixes_last P root p h
from_top_last P (cur_dir ∷ p) h = prefixes_last P [] (cur_dir ∷ p) h
from_top_last P (parent_dir ∷ p) h = prefixes_last P [] (parent_dir ∷ p) h
from_top_last P (normal n ∷ p) h = prefixes_last P [] (normal n ∷ p) h

-- The root stands at most in front, as in every path that std builds.
abbrev pub IsProper : FilePath → Type 0
IsProper (root_dir ∷ p) = All (λ c. c ≢ root_dir) p
IsProper p = All (λ c. c ≢ root_dir) p
