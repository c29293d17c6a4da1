-- ===== src/Advancer/Topo/Count.antt =====
-- How often a node waits for another, and how much it still waits for: the quantities that the
-- in-degrees of `topological_sort` (engine/core/dag_advancer.py) stand for.
use v10_engine.Prelude.{
  ℕ, suc, ◌+◌, ◌≡◌, refl, true, false, pred, List, [], ◌∷◌, ◌++◌, arith, ◌==◌, elem, if◌then◌else◌,
}
use v10_engine.Prelude.Distinct.{count, missing, missing-place}
use v10_engine.Advancer.{NodeSnapshot}

-- How often x stands among the dependencies of the nodes with identifier s.
unfoldable pub needs : ℕ → ℕ → List NodeSnapshot → ℕ
needs s x [] = 0
needs s x (n ∷ nodes) = (if n.id == s then count x n.deps else 0) + needs s x nodes

unfoldable pub remaining : ℕ → List ℕ → List NodeSnapshot → ℕ
remaining s placed [] = 0
remaining s placed (n ∷ nodes) =
    (if n.id == s then missing placed n.deps else 0) + remaining s placed nodes

pub remaining-place :
    (s : ℕ) (placed : List ℕ) (x : ℕ) (nodes : List NodeSnapshot)
    → elem x placed ≡ false
    → remaining s placed nodes ≡ remaining s (placed ++ x ∷ []) nodes + needs s x nodes
unfolding remaining needs
remaining-place s placed x [] h = refl
remaining-place s placed x (n ∷ nodes) h =
    ground (arith, remaining-place s placed x nodes h, missing-place placed x n.deps h)

unfoldable pub ids : List NodeSnapshot → List ℕ
ids [] = []
ids (n ∷ nodes) = n.id ∷ ids nodes

-- A node that waits for anything is one of the nodes.
pub elem_of_needs :
    (s x : ℕ) (nodes : List NodeSnapshot) {k : ℕ}
    → needs s x nodes ≡ suc k
    → elem s (ids nodes) ≡ true
unfolding needs ids
elem_of_needs s x [] h = ground arith
elem_of_needs s x (n ∷ nodes) h =
    ground (arith, elem_of_needs s x nodes {k = pred (needs s x nodes)})
