-- ===== src/FilePath/Lengths.antt =====
-- The lengths of the ancestors of a path.
use elusive.Base.{
  [], ◌∷◌, ◌++◌, ◌≡◌, some, ℕ, ◌≤◌, ◌+◌, length, ap, inl, inr, Among, length-append, arith,
  Option-cases,
}
use elusive.FilePath.{root_dir, cur_dir, parent_dir, normal, FilePath, root, parent, prefixes}
use elusive.FilePath.Prefixes.{from_top}

prefixes-length :
    (front p : FilePath) (n : ℕ)
    → length front + length p ≤ n
    → (q : FilePath) → Among q (prefixes front p)
    → length q ≤ n
unfolding prefixes
prefixes-length front [] n h q (inl e) = omega (arith, h, ap length e)
prefixes-length front [] n h q (inr m) = absurd m
prefixes-length front (c ∷ p) n h q (inl e) = omega (arith, h, ap length e)
prefixes-length front (c ∷ p) n h q (inr m) =
    prefixes-length (front ++ (c ∷ [])) p n (omega (arith, h, length-append front (c ∷ []))) q m

-- The ancestors of a path are no longer than it.
pub from_top-length : (p q : FilePath) (n : ℕ) → length p ≤ n → Among q (from_top p) → length q ≤ n
from_top-length [] q n h m = prefixes-length [] [] n (omega (arith, h)) q m
from_top-length (root_dir ∷ p) q n h m = prefixes-length root p n (omega (arith, h)) q m
from_top-length (cur_dir ∷ p) q n h m = prefixes-length [] (cur_dir ∷ p) n (omega (arith, h)) q m
from_top-length (parent_dir ∷ p) q n h m =
    prefixes-length [] (parent_dir ∷ p) n (omega (arith, h)) q m
from_top-length (normal c ∷ p) q n h m = prefixes-length [] (normal c ∷ p) n (omega (arith, h)) q m

-- The parent of a path is shorter.
pub parent-length : (p d : FilePath) → parent p ≡ some d → length d + 1 ≤ length p
unfolding parent
parent-length [] d e = cc e
parent-length (root_dir ∷ []) d e = cc e
parent-length (cur_dir ∷ []) d e = ground (arith, e)
parent-length (parent_dir ∷ []) d e = ground (arith, e)
parent-length (normal c ∷ []) d e = ground (arith, e)
parent-length (c ∷ b ∷ p) d e = elim (Option-cases (parent (b ∷ p))) [
  | inl n ↦ cc (n, e)
  | inr (q, f) ↦
      let g : c ∷ q ≡ d = cc (rw f at e) in omega (arith, parent-length (b ∷ p) q f, ap length g)
]
