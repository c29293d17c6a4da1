-- ===== src/AccountRouter/Candidate.antt =====
-- Which accounts AccountRouter (engine/ai/account_router.py) considers for a call.
use v10_engine.Prelude.{
  ℕ, elem, ◌≤◌, ◌<◌, ◌⊎◌, ◌≡◌, ◌↔◌, ap, sym, not, leb, ltb, ◌&&◌, ◌||◌, none, refl, inl, inr, Bool,
  true, false, Option, some, List, [], ◌∷◌, arith, Bool-cases,
}
use v10_engine.AccountRouter.{
  AccountStats, Tier, max_tier, pro, is_max, is_enabled, is_pro_available, is_candidate,
}

-- The account is among those that the database has as active, where it says so.
abbrev pub Active : Option (List ℕ) → ℕ → Type 0
Active none name = Unit
Active (some names) name = elem name names ≡ true

-- What the account must be for a call, apart from the sparing of the max accounts.
pub record Fit (is_opus : Bool) (active : Option (List ℕ)) (now_ts : ℕ) (a : AccountStats)
    : Type 0 where
  pub enabled : Active active a.name
  pub steady : a.consecutive_failures < 3
  pub cool : a.cooldown_until ≤ now_ts
  pub tier_fits : is_opus ≡ false ⊎ a.tier ≡ max_tier

abbrev pub SomeOf : (AccountStats → Type 0) → List AccountStats → Type 0
SomeOf P [] = ⊥
SomeOf P (a ∷ xs) = P a ⊎ SomeOf P xs

-- A pro account that could serve the call.
abbrev pub FreePro : Option (List ℕ) → ℕ → AccountStats → Type 0
FreePro active now_ts p =
    (p.tier ≡ pro)
    × Active active p.name
    × (p.cooldown_until ≤ now_ts)
    × (p.consecutive_failures < 3)

-- A max account that has used 400,000 tokens today is spared a call that is none of Opus, where there
-- is a pro account that could serve it.
abbrev pub Spared : Bool → Option (List ℕ) → ℕ → List AccountStats → AccountStats → Type 0
Spared is_opus active now_ts xs a =
    (is_opus ≡ false)
    × (a.tier ≡ max_tier)
    × (400000 ≤ a.daily_tokens)
    × SomeOf (FreePro active now_ts) xs

abbrev pub Candidate : Bool → Option (List ℕ) → ℕ → List AccountStats → AccountStats → Type 0
Candidate is_opus active now_ts xs a =
    Fit is_opus active now_ts a × (¬ Spared is_opus active now_ts xs a)

enabled-Active :
    (active : Option (List ℕ)) (a : AccountStats)
    → (is_enabled active a ≡ true) ↔ Active active a.name
enabled-Active none a = ((λ h. tt), (λ h. refl))
enabled-Active (some names) a = ((λ h. h), (λ h. h))

tier_of :
    (is_opus : Bool) (t : Tier)
    → ((not is_opus || is_max t) ≡ true) ↔ (is_opus ≡ false ⊎ t ≡ max_tier)
tier_of false t = ((λ h. inl refl), (λ h. refl))
tier_of true max_tier = ((λ h. inr refl), (λ h. refl))
tier_of true pro =
    ((λ h. absurd (ground (arith, h))), λ h. elim h [ inl e ↦ sym e | inr e ↦ ap is_max e ])

tier_is_max : (t : Tier) → is_max t ≡ true → t ≡ max_tier
tier_is_max max_tier h = refl
tier_is_max pro h = absurd (ground (arith, h))

is_pro : (t : Tier) → (not (is_max t) ≡ true) ↔ (t ≡ pro)
is_pro max_tier = ((λ h. absurd (ground (arith, h))), (λ h. ap (λ t. not (is_max t)) h))
is_pro pro = ((λ h. refl), (λ h. refl))

module _ (active : Option (List ℕ)) (now_ts : ℕ) where
  is_free_pro : AccountStats → Bool
  is_free_pro p =
      not (is_max p.tier)
      && is_enabled active p
      && leb p.cooldown_until now_ts
      && ltb p.consecutive_failures 3

  is_free_pro-FreePro : (p : AccountStats) → is_free_pro p ≡ true → FreePro active now_ts p
  unfolding is_free_pro
  is_free_pro-FreePro p h = (
    (is_pro p.tier).0 (ground arith),
    (enabled-Active active p).0 (ground arith),
    ground arith,
    ground arith,
  )

  is_free_pro_of : (p : AccountStats) → FreePro active now_ts p → is_free_pro p ≡ true
  unfolding is_free_pro
  is_free_pro_of p (t, e, c, f) =
      let t' = (is_pro p.tier).1 t in
      let e' = (enabled-Active active p).1 e in ground (arith, t', e')

  is_pro_available-SomeOf :
      (xs : List AccountStats)
      → is_pro_available active now_ts xs ≡ true
      → SomeOf (FreePro active now_ts) xs
  unfolding is_pro_available is_free_pro
  is_pro_available-SomeOf [] h = absurd (ground (arith, h))
  is_pro_available-SomeOf (x ∷ xs) h = elim (Bool-cases (is_free_pro x)) [
    | inl e ↦ inl (is_free_pro-FreePro x e)
    | inr e ↦ inr (is_pro_available-SomeOf xs (ground (arith, h, e)))
  ]

  is_pro_available_of :
      (xs : List AccountStats)
      → SomeOf (FreePro active now_ts) xs
      → is_pro_available active now_ts xs ≡ true
  unfolding is_pro_available is_free_pro
  is_pro_available_of [] m = absurd m
  is_pro_available_of (x ∷ xs) (inl m) = ground (arith, is_free_pro_of x m)
  is_pro_available_of (x ∷ xs) (inr m) = ground (arith, is_pro_available_of xs m)

module _ (is_opus : Bool) (active : Option (List ℕ)) (now_ts : ℕ) (xs : List AccountStats)
    (a : AccountStats) where
  is_spared : Bool
  is_spared =
      is_max a.tier && leb 400000 a.daily_tokens && is_pro_available active now_ts xs && not is_opus

  is_spared-Spared : is_spared ≡ true → Spared is_opus active now_ts xs a
  unfolding is_spared
  is_spared-Spared h = (
    ground arith,
    tier_is_max a.tier (ground arith),
    ground arith,
    is_pro_available-SomeOf active now_ts xs (ground arith),
  )

  is_spared_of : Spared is_opus active now_ts xs a → is_spared ≡ true
  unfolding is_spared
  is_spared_of (o, t, k, p) =
      let p' = is_pro_available_of active now_ts xs p in rw (t, o, p') (ground arith)

  pub candidate_of :
      is_candidate is_opus active now_ts xs a ≡ true → Candidate is_opus active now_ts xs a
  unfolding is_candidate is_spared
  candidate_of h = (
    record {
      enabled = (enabled-Active active a).0 (ground arith);
      steady = ground arith;
      cool = ground arith;
      tier_fits = (tier_of is_opus a.tier).0 (ground arith);
    },
    λ s. absurd (ground (arith, is_spared_of s)),
  )

  pub is_candidate_of :
      Candidate is_opus active now_ts xs a → is_candidate is_opus active now_ts xs a ≡ true
  unfolding is_candidate is_spared
  is_candidate_of (fit, free) =
      let e1 = (enabled-Active active a).1 fit.enabled in
      let e2 = (tier_of is_opus a.tier).1 fit.tier_fits in
      let k1 = fit.steady in
      let k2 = fit.cool in
      elim (Bool-cases is_spared) [
        | inl s ↦ absurd (free (is_spared-Spared s))
        | inr s ↦ ground (arith, e1, e2, s)
      ]
