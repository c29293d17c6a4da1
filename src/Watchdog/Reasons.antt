-- ===== src/Watchdog/Reasons.antt =====
-- How engine/lifecycle/watchdog.py reads the reasons of suspensions and failures. The three patterns
-- are searched by Python's `re`: they are parameters, each a test on a text.
use v10_engine.Prelude.Text.{text_eq}
use v10_engine.Prelude.{
  ℕ, Bool, true, false, not, ◌&&◌, ◌||◌, Option, none, some, List, [], ◌∷◌, ◌++◌, any, keep, length,
  ◌==◌, if◌then◌else◌,
}
use v10_engine.Prelude.Text.{codes}
use v10_engine.Store.{Text, Failure}

pub record Patterns : Type 0 where
  pub transient_error : Text → Bool
  pub permanent_error : Text → Bool
  pub structural_error : Text → Bool

abbrev pub reserved_reasons : List Text
reserved_reasons =
    codes "SHUTDOWN_DRAIN"
    ∷ codes "MANUAL_HOLD"
    ∷ codes "SHOULD_SKIP"
    ∷ codes "PROJECT_CONTEXT_NOT_APPLICABLE"
    ∷ codes "DEPENDENCY_NOT_MET"
    ∷ codes "DEPENDENCY_GRAPH_BROKEN"
    ∷ []

-- reason in _RESERVED_SUSPENSION_REASONS
unfoldable pub is_reserved : Option Text → Bool
unfolding text_eq
is_reserved none = false
is_reserved (some reason) = any (text_eq reason) reserved_reasons

-- c.isspace(), of the ASCII blanks
abbrev pub is_blank_code : ℕ → Bool
is_blank_code c =
    c == 32
    || c == 9
    || c == 10
    || c == 11
    || c == 12
    || c == 13
    || c == 28
    || c == 29
    || c == 30
    || c == 31

-- not text.strip()
unfoldable pub is_blank : Text → Bool
is_blank [] = true
is_blank (c ∷ t) = is_blank_code c && is_blank t

-- `_extract_latest_failure_text`
unfoldable pub latest_failure_text : List Failure → Text
latest_failure_text [] = []
latest_failure_text (f ∷ []) = f.reason
latest_failure_text (f ∷ g ∷ fs) = latest_failure_text (g ∷ fs)

abbrev pub reason_text : Option Text → Text
reason_text none = []
reason_text (some reason) = reason

-- " ".join(x for x in (a, b) if x)
unfoldable pub joined : Text → Text → Text
joined [] b = b
joined (c ∷ a) [] = c ∷ a
joined (c ∷ a) (d ∷ b) = c ∷ a ++ 32 ∷ d ∷ b

-- `_is_transient_suspension`
unfoldable pub is_transient_suspension : Patterns → Option Text → List Failure → Bool
unfolding is_reserved is_blank latest_failure_text joined
is_transient_suspension patterns reason failures =
    let combined = joined (reason_text reason) (latest_failure_text failures) in
    if is_reserved reason
    then false
    else if is_blank combined
    then false
    else if patterns.permanent_error combined
    then false
    else patterns.transient_error combined

abbrev pub is_none : List Failure → Bool
is_none [] = true
is_none (f ∷ fs) = false

-- `_is_bare_suspension`
unfoldable pub is_bare_suspension : Option Text → List Failure → Bool
unfolding is_reserved is_blank
is_bare_suspension reason failures =
    if not (is_blank (reason_text reason))
    then false
    else if is_reserved reason
    then false
    else is_none failures

-- `_count_structural_failures`
unfoldable pub count_structural_failures : Patterns → List Failure → ℕ
count_structural_failures patterns failures =
    length (keep (λ f. patterns.structural_error f.reason) failures)
