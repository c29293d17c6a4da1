-- ===== src/ExecutorCascade/Stop.antt =====
-- Where the cascade that follows a completion ends, engine/skills/executor_cascade.py.
use v10_engine.Prelude.{ℕ, ◌≡◌, refl, Option, none, List, [], ◌∷◌, arith}
use v10_engine.Prelude.Text.{text_eq_refl}
use v10_engine.Store.{Text}
use v10_engine.Store.World.{World, Env, yield_to}
use v10_engine.ChangeClassifier.{generate_diff}
use v10_engine.ExecutorCascade.Trigger.{
  Service, meaningful_diff, content_of, trigger_downstream_cascade, trigger_upstream_cascade,
}

generate_diff-same :
    (unified_diff : List Text → List Text → List Text) (t : Text)
    → generate_diff unified_diff t t ≡ []
unfolding generate_diff
generate_diff-same unified_diff t = rw (text_eq_refl t) refl

meaningful_diff-same : (s : Service) (t : Text) → meaningful_diff s t t ≡ none
unfolding meaningful_diff
meaningful_diff-same s t = rw (generate_diff-same s.unified_diff t) (ground arith)

-- An artifact that comes out as it was before stops the cascade in both directions: the tables are
-- read and nothing is written.
pub trigger_cascades_same :
    (s : Service) (env : Env) (i : ℕ) (content : Option Text) (versions : List (Option Text))
    (w : World)
    → (trigger_downstream_cascade s env i (content ∷ content ∷ versions) w ≡ yield_to env w)
      × (trigger_upstream_cascade s env i (content ∷ content ∷ versions) w ≡ yield_to env w)
unfolding trigger_downstream_cascade trigger_upstream_cascade meaningful_diff generate_diff
trigger_cascades_same s env i content versions w =
    rw (meaningful_diff-same s (content_of content)) (refl, refl)
