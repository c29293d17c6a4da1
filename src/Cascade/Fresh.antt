-- ===== src/Cascade/Fresh.antt =====
-- What one round of the search of engine/core/cascade.py adds: `_get_downstream_nodes`.
use v10_engine.Prelude.{
  ℕ, ◌≡◌, refl, ◌∙◌, inl, inr, not, ◌&&◌, List, [], ◌∷◌, ◌++◌, arith, ==_refl, elem, elem-append,
  if◌then◌else◌, Bool-cases, append-nil, append_assoc,
}
use v10_engine.Prelude.Distinct.{Distinct}
use v10_engine.Cascade.Downstream.{Search, visit_child, visit_children}

-- The children that a round adds.
unfoldable pub fresh : List ℕ → List ℕ → List ℕ
fresh visited [] = []
fresh visited (c ∷ cs) =
    if elem c visited then fresh visited cs else c ∷ fresh (visited ++ c ∷ []) cs

pub elem-fresh :
    (a : ℕ) (visited cs : List ℕ) → elem a (fresh visited cs) ≡ (elem a cs && not (elem a visited))
unfolding fresh
elem-fresh a visited [] = refl
elem-fresh a visited (c ∷ cs) = ground (
  arith,
  elem-fresh a visited cs,
  elem-fresh a (visited ++ c ∷ []) cs,
  elem-append a visited (c ∷ []),
)

pub fresh-Distinct : (visited cs : List ℕ) → Distinct (fresh visited cs)
unfolding fresh
fresh-Distinct visited [] = tt
fresh-Distinct visited (c ∷ cs) = elim (Bool-cases (elem c visited)) [
  | inl e ↦ rw e (fresh-Distinct visited cs)
  | inr e ↦ rw e (
    elem-fresh c (visited ++ c ∷ []) cs ∙ ground (arith, elem-append c visited (c ∷ []), ==_refl c),
    fresh-Distinct (visited ++ c ∷ []) cs,
  )
]

pub visit_children-eq-fresh :
    (cs : List ℕ) (s : Search)
    → visit_children cs s ≡ record {
      visited = s.visited ++ fresh s.visited cs;
      queue = s.queue ++ fresh s.visited cs;
      result = s.result ++ fresh s.visited cs;
    }
unfolding visit_children visit_child fresh
visit_children-eq-fresh [] s =
    rw (append-nil s.visited, append-nil s.queue, append-nil s.result) refl
visit_children-eq-fresh (c ∷ cs) s = elim (Bool-cases (elem c s.visited)) [
  | inl e ↦ rw e (visit_children-eq-fresh cs s)
  | inr e ↦ rw e (
      visit_children-eq-fresh cs (record {
        visited = s.visited ++ c ∷ [];
        queue = s.queue ++ c ∷ [];
        result = s.result ++ c ∷ [];
      })
      ∙ rw (append_assoc s.visited, append_assoc s.queue, append_assoc s.result) refl)
]
