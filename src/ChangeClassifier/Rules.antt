-- ===== src/ChangeClassifier/Rules.antt =====
-- What a verdict of `classify_change` of engine/ai/change_classifier.py rests on.
use v10_engine.Prelude.{
  ℕ, ◌≡◌, ◌≢◌, ◌≤◌, ◌<◌, ◌*◌, ◌⊎◌, refl, sym, subst, ap, ◌∙◌, Bool, true, false, not, ◌&&◌, ◌||◌,
  Option, none, some, List, [], ◌∷◌, length, keep, arith, Bool-cases, Option-cases, inl, inr, ltb,
  leb, ◌==◌, if◌then◌else◌,
}
use v10_engine.Prelude.Text.{text_eq, codes, is_prefix, is_infix}
use v10_engine.Store.{Text, ChangeType, contextual, partial_change}
use v10_engine.Migrations.Sql.{strip}
use v10_engine.ChangeClassifier.{
  Classification, Answer, all_again, is_major, is_minor, is_mostly_added, partial_rule, patch_of,
  patch_or_all, heuristic_classify, changed_lines, is_heading_change, has_risky_keyword,
  extract_sections, splitlines, judge, ask_model, removes, truncated, unfenced, classify_change,
  or_ask, is_empty,
}

abbrev pub IsPartial : Classification → Type 0
IsPartial c = c.change_type ≡ partial_change

abbrev sections_found : Option Classification → List Text
sections_found none = []
sections_found (some c) = c.affected_sections

abbrev kind_found : Option Classification → ChangeType
kind_found none = contextual
kind_found (some c) = c.change_type

contextual-ne-partial : contextual ≢ partial_change
contextual-ne-partial h = cc h

again_absurd : (c : Classification) → some all_again ≡ some c → ¬ IsPartial c
again_absurd c h p = contextual-ne-partial (ap kind_found h ∙ p)

not_empty : (t : Text) → is_empty t ≡ false → t ≢ []
not_empty t h e = absurd (cc (sym h ∙ ap is_empty e))

-- A PARTIAL verdict names a section.
abbrev Patchable : Classification → Type 0
Patchable c = IsPartial c → c.affected_sections ≢ []

all_again-Patchable : Patchable all_again
all_again-Patchable p = absurd (contextual-ne-partial p)

if-Patchable :
    (b : Bool) (x y : Classification) → Patchable x → Patchable y → Patchable (if b then x else y)
if-Patchable true x y hx hy = hx
if-Patchable false x y hx hy = hy

-- A test that would give CONTEXTUAL has failed.
passed :
    (b : Bool) (rest : Classification)
    → IsPartial (if b then all_again else rest)
    → (b ≡ false) × ((if b then all_again else rest) ≡ rest)
passed true rest p = absurd (contextual-ne-partial p)
passed false rest p = (refl, refl)

not_again :
    (b : Bool) (rest : Option Classification) (c : Classification)
    → (if b then some all_again else rest) ≡ some c
    → IsPartial c
    → (b ≡ false) × (rest ≡ some c)
not_again true rest c h p = absurd (again_absurd c h p)
not_again false rest c h p = (refl, h)

module _ (is_space : ℕ → Bool) (lower : Text → Text) where
  -- What the rules ask of a diff before they let a node be patched.
  pub record Small (diff old_content : Text) (c : Classification) : Type 0 where
    pub calm : has_risky_keyword is_space lower (changed_lines diff) ≡ false
    pub few : length (changed_lines diff) ≤ 15
    pub no_heading : length (keep (is_heading_change is_space lower) (changed_lines diff)) ≡ 0
    pub minor :
        5 * length (changed_lines diff) < length (splitlines old_content)
        ⊎ (length (splitlines old_content) ≡ 0) × (length (changed_lines diff) ≤ 5)
    pub named : c.affected_sections ≡ extract_sections is_space diff
    pub some_named : c.affected_sections ≢ []

module _ (is_space : ℕ → Bool) (lower : Text → Text) where
  minor_cases :
      (changed total : ℕ)
      → is_minor is_space lower changed total ≡ true
      → (5 * changed < total) ⊎ (total ≡ 0) × (changed ≤ 5)
  unfolding is_minor
  minor_cases changed total h = ground arith

  patch_of-partial :
      (ss : List Text) (c : Classification)
      → patch_of is_space lower ss ≡ some c
      → (c.affected_sections ≡ ss) × (c.affected_sections ≢ [])
  unfolding patch_of
  patch_of-partial [] c h = absurd (cc h)
  patch_of-partial (s ∷ ss) c h =
      let e : c.affected_sections ≡ s ∷ ss = ap (λ o. sections_found o) (sym h) in
      (e, λ empty. absurd (cc (sym e ∙ empty)))

  -- The rule for PARTIAL, read backwards.
  partial_rule-partial :
      (diff : Text) (changed headings total : ℕ) (c : Classification)
      → partial_rule is_space lower diff changed headings total ≡ some c
      → (changed ≤ 15)
        × (headings ≡ 0)
        × (is_minor is_space lower changed total ≡ true)
        × (c.affected_sections ≡ extract_sections is_space diff)
        × (c.affected_sections ≢ [])
  unfolding partial_rule
  partial_rule-partial diff changed headings total c h =
      let guard = leb changed 15 && headings == 0 && is_minor is_space lower changed total in
      elim (Bool-cases guard) [
        | inl met ↦
            let e : partial_rule is_space lower diff changed headings total
                ≡ patch_of is_space lower (extract_sections is_space diff) =
              rw met refl in
            let (named, full) = patch_of-partial (extract_sections is_space diff) c (sym e ∙ h) in
            (ground arith, ground arith, ground arith, named, full)
        | inr missed ↦
            let e : partial_rule is_space lower diff changed headings total ≡ none =
              rw missed refl in
            absurd (cc (sym e ∙ h))
      ]

  -- A PARTIAL verdict of the rules: the diff is small, as `Small` says.
  pub heuristic_classify-Small :
      (diff old_content : Text) (c : Classification)
      → heuristic_classify is_space lower diff old_content ≡ some c
      → IsPartial c
      → Small is_space lower diff old_content c
  unfolding heuristic_classify
  heuristic_classify-Small diff old_content c h p =
      let lines = changed_lines diff in
      let changed = length lines in
      let total = length (splitlines old_content) in
      let headings = length (keep (is_heading_change is_space lower) lines) in
      let rule = partial_rule is_space lower diff changed headings total in
      let major =
        is_major is_space lower changed total
        && not (is_mostly_added is_space lower (length (keep removes lines)) changed) in
      let unfinished = if major then some all_again else rule in
      let (calm, h1) =
        not_again (has_risky_keyword is_space lower lines)
          (if ltb 2 headings then some all_again else unfinished) c h p in
      let (_, h2) = not_again (ltb 2 headings) unfinished c h1 p in
      let (_, h3) = not_again major rule c h2 p in
      let (few, none_changed, minor, named, full) =
        partial_rule-partial diff changed headings total c h3 in
      record {
        calm = calm;
        few = few;
        no_heading = none_changed;
        minor = minor_cases changed total minor;
        named = named;
        some_named = full;
      }

  patch_or_all-Patchable : (ss : List Text) → Patchable (patch_or_all is_space lower ss)
  unfolding patch_or_all
  patch_or_all-Patchable [] p e = contextual-ne-partial p
  patch_or_all-Patchable (s ∷ ss) p e = cc e

  judge-Patchable : (answer : Answer) → Patchable (judge is_space lower answer)
  unfolding judge
  judge-Patchable answer = if-Patchable (not answer.is_confident) _ _ all_again-Patchable (
      if-Patchable (text_eq answer.type_name (codes "PARTIAL")) _ _
        (patch_or_all-Patchable answer.sections) (λ p. absurd (contextual-ne-partial p)))

  ask_model-Patchable :
      (call : Text → Option Text) (loads : Text → Option Answer) (diff : Text)
      → Patchable (ask_model is_space lower call loads diff)
  unfolding ask_model
  ask_model-Patchable call loads diff = elim (Option-cases (call (truncated is_space lower diff))) [
    | inl raised ↦ rw raised all_again-Patchable
    | inr (content, got) ↦ elim (Option-cases (loads (unfenced is_space lower content))) [
      | inl unread ↦ rw (got, unread) all_again-Patchable
      | inr (answer, read) ↦ rw (got, read) (judge-Patchable answer)
    ]
  ]

module _ (is_space : ℕ → Bool) (lower upper : Text → Text) (call : Text → Option Text)
    (loads : Text → Option Answer) (diff name node_type old_content : Text) where
  -- What a PARTIAL verdict tells of the change and of the node below.
  pub record Patches (c : Classification) : Type 0 where
    pub not_blank : strip is_space diff ≢ []
    pub not_qa : (is_infix (codes "QA") (upper node_type) || is_prefix (codes "[QA]") name) ≡ false
    pub full : c.affected_sections ≢ []
    pub ground_of_it :
        Small is_space lower diff old_content c
        ⊎ (heuristic_classify is_space lower diff old_content ≡ none)

  or_ask-Patches :
      is_empty (strip is_space diff) ≡ false
      → (is_infix (codes "QA") (upper node_type) || is_prefix (codes "[QA]") name) ≡ false
      → IsPartial (
          or_ask
            (heuristic_classify is_space lower diff old_content)
            (ask_model is_space lower call loads diff))
      → Patches (
          or_ask
            (heuristic_classify is_space lower diff old_content)
            (ask_model is_space lower call loads diff))
  or_ask-Patches filled not_qa p =
      elim (Option-cases (heuristic_classify is_space lower diff old_content)) [
        | inl unsettled ↦
            let e = ap (λ o. or_ask o (ask_model is_space lower call loads diff)) unsettled in
            subst Patches (sym e) (record {
              not_blank = not_empty (strip is_space diff) filled;
              not_qa = not_qa;
              full = ask_model-Patchable is_space lower call loads diff (subst IsPartial e p);
              ground_of_it = inr unsettled;
            })
        | inr (c, closed) ↦
            let e = ap (λ o. or_ask o (ask_model is_space lower call loads diff)) closed in
            let small =
              heuristic_classify-Small is_space lower diff old_content c closed
                (subst IsPartial e p) in
            subst Patches (sym e) (record {
              not_blank = not_empty (strip is_space diff) filled;
              not_qa = not_qa;
              full = small.some_named;
              ground_of_it = inl small;
            })
      ]

  -- A node is patched in part only below a change that is not blank, only when it is no QA node,
  -- and only with a section to patch; either the rules found the diff small, or they left it to
  -- the model.
  pub classify_change-Patches :
      IsPartial (classify_change is_space lower upper call loads diff name node_type old_content)
      → Patches (classify_change is_space lower upper call loads diff name node_type old_content)
  unfolding classify_change
  classify_change-Patches p =
      let found = heuristic_classify is_space lower diff old_content in
      let asked = ask_model is_space lower call loads diff in
      let answered = or_ask found asked in
      let is_qa = is_infix (codes "QA") (upper node_type) || is_prefix (codes "[QA]") name in
      let (filled, e1) =
        passed (is_empty (strip is_space diff)) (if is_qa then all_again else answered) p in
      let (not_qa, e2) = passed is_qa answered (subst IsPartial e1 p) in
      let e = e1 ∙ e2 in subst Patches (sym e) (or_ask-Patches filled not_qa (subst IsPartial e p))
