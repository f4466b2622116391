-- ===== src/Search/First.antt =====
-- crates/elusive/src/search.rs: which candidate the search answers with.
use elusive.Base.{
  true, false, none, some, List, [], ◌∷◌, ◌++◌, ◌≡◌, ◌↔◌, refl, arith, All, map, Bool-cases, inl,
  inr,
}
use elusive.FilePath.{FilePath, join}
use elusive.Host.{Host}
use elusive.Search.{find_existing, search_paths}

-- A candidate that exists behind others that do not.
pub record IsFirst (h : Host) (p : FilePath) (ps : List FilePath) : Type 0 where
  pub before : List FilePath
  pub after : List FilePath
  pub split : ps ≡ before ++ (p ∷ after)
  pub missing : All (λ q. h.exists q ≡ false) before
  pub there : h.exists p ≡ true

IsFirst-cons :
    {h : Host} (q : FilePath) {p : FilePath} {ps : List FilePath}
    → h.exists q ≡ false
    → IsFirst h p ps
    → IsFirst h p (q ∷ ps)
IsFirst-cons q e f = record {
  before = q ∷ f.before;
  after = f.after;
  split = rw (← f.split);
  missing = (e, f.missing);
  there = f.there;
}

pub find_existing-some :
    (h : Host) (ps : List FilePath) (p : FilePath) → find_existing h ps ≡ some p → IsFirst h p ps
unfolding find_existing
find_existing-some h [] p e = cc
find_existing-some h (q ∷ ps) p e = elim (Bool-cases (h.exists q)) [
  | inl there ↦ record {
    before = [];
    after = ps;
    split = ground arith;
    missing = tt;
    there = ground arith;
  }
  | inr missing ↦ IsFirst-cons q missing (find_existing-some h ps p (ground arith))
]

-- the search for an existing path fails exactly if none of the candidates exists.
pub find_existing-none :
    (h : Host) (ps : List FilePath) → (find_existing h ps ≡ none) ↔ All (λ q. h.exists q ≡ false) ps
unfolding find_existing
find_existing-none h [] = (λ _. tt, λ _. refl)
find_existing-none h (q ∷ ps) = ground (arith, find_existing-none h ps)

-- the path that search_paths answers with exists, is that of the name in one of the directories,
-- and the paths in the directories before it do not exist.
pub search_paths-some :
    (h : Host) (name : FilePath) (dirs : List FilePath) (p : FilePath)
    → search_paths h name dirs ≡ some p
    → IsFirst h p (map (λ dir. join dir name) dirs)
unfolding search_paths
search_paths-some h name dirs p e = find_existing-some h (map (λ dir. join dir name) dirs) p e
