-- ===== src/DynamicDag/Edges.antt =====
-- How a list of inserts into `edges` by engine/core/dynamic_dag.py ends.
use v10_engine.Prelude.{
  ℕ, suc, Bool, false, ◌≡◌, refl, sym, ◌∙◌, ap, inl, inr, true, List, [], ◌∷◌, ◌++◌, Bool-cases,
  append_assoc, append-nil,
}
use v10_engine.Store.{Edge}
use v10_engine.Store.World.{World, quiet, yield_to}
use v10_engine.DynamicDag.{clashes, insert_edge, insert_edges}

-- How the inserts of edges end.
pub data Joined (es : List Edge) (w : World) (p : Bool × World) : Type 0 where
  all_joined :
      p.0 ≡ true
      → p.1.edges ≡ w.edges ++ es
      → p.1.nodes ≡ w.nodes
      → p.1.queue ≡ w.queue
      → Joined es w p
  stopped :
      (front : List Edge) (next : Edge) (rest : List Edge)
      → p.0 ≡ false
      → es ≡ front ++ next ∷ rest
      → clashes next (w.edges ++ front) ≡ true
      → p.1.edges ≡ w.edges ++ front
      → p.1.nodes ≡ w.nodes
      → p.1.queue ≡ w.queue
      → Joined es w p

module _ (clock : ℕ → ℕ) where
  pub insert_edges-Joined :
      (es : List Edge) (w : World) → Joined es w (insert_edges (quiet clock) es w)
  unfolding insert_edges insert_edge yield_to
  insert_edges-Joined [] w = all_joined refl (sym (append-nil w.edges)) refl refl
  insert_edges-Joined (e ∷ es) w = elim (Bool-cases (clashes e w.edges)) [
    | inl met ↦ rw met (
        stopped [] e es refl refl (ap (clashes e) (append-nil w.edges) ∙ met)
          (sym (append-nil w.edges)) refl refl)
    | inr free ↦
        let w' = (insert_edge (quiet clock) e w).1 in
        let w1 : World = record w {
          db = record w.db { edges = w.edges ++ e ∷ [] };
          awaits = suc w.awaits;
        } in
        rw free (more (insert_edges-Joined es w1))
  ]
    where
      more :
          {p : Bool × World}
          → Joined es
              (record w { db = record w.db { edges = w.edges ++ e ∷ [] }; awaits = suc w.awaits })
              p
          → Joined (e ∷ es) w p
      more (all_joined b e1 n q) = all_joined b (e1 ∙ append_assoc w.edges (e ∷ []) es) n q
      more (stopped front next rest b parts met e1 n q) =
          stopped (e ∷ front) next rest b (ap (λ l. e ∷ l) parts)
            (ap (clashes next) (sym (append_assoc w.edges (e ∷ []) front)) ∙ met)
            (e1 ∙ append_assoc w.edges (e ∷ []) front) n q
