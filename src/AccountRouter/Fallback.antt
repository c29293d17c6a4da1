-- ===== src/AccountRouter/Fallback.antt =====
-- When AccountRouter (engine/ai/account_router.py) finds an account at all, and of which tier.
use v10_engine.Prelude.{
  ℕ, ◌+◌, ◌≡◌, refl, sym, ◌∙◌, inl, inr, Bool, true, false, Option, none, some, List, [], ◌∷◌, map,
  keep, any, All, ltb, arith, if◌then◌else◌, Bool-cases,
}
use v10_engine.AccountRouter.{
  AccountStats, is_enabled, may_serve, is_candidate, least, forgive, forgive_active,
  maybe_reset_daily, choose_among_active, select_account,
}
use v10_engine.AccountRouter.Choice.{least-All, All-keep-true, All-keep, any-keep, List-cases}

-- The account is active, and serves the model unless no active account does.
pub record Serves (is_opus : Bool) (active : Option (List ℕ)) (accounts : List AccountStats)
    (a : AccountStats) : Type 0 where
  pub active_one : is_enabled active a ≡ true
  pub unfit :
      may_serve is_opus a ≡ false
      → All (λ b. is_enabled active b ≡ true → may_serve is_opus b ≡ false) accounts

forgive-active :
    (active : Option (List ℕ)) (a : AccountStats)
    → is_enabled active (forgive a) ≡ is_enabled active a
forgive-active none a = refl
forgive-active (some ns) a = refl

abbrev renewed : ℕ → AccountStats → AccountStats
renewed now a =
    if ltb (a.last_reset + 86400) now
    then record a { daily_tokens = 0; daily_calls = 0; last_reset = now }
    else a

renewed-active :
    (active : Option (List ℕ)) (now : ℕ) (a : AccountStats)
    → is_enabled active (renewed now a) ≡ is_enabled active a
renewed-active none now a = refl
renewed-active (some ns) now a = elim (Bool-cases (ltb (a.last_reset + 86400) now)) [
  | inl e ↦ rw e refl
  | inr e ↦ rw e refl
]

renewed-serve :
    (is_opus : Bool) (now : ℕ) (a : AccountStats)
    → may_serve is_opus (renewed now a) ≡ may_serve is_opus a
renewed-serve is_opus now a = elim (Bool-cases (ltb (a.last_reset + 86400) now)) [
  | inl e ↦ rw e refl
  | inr e ↦ rw e refl
]

-- A candidate is active and serves the model.
candidate_parts :
    (is_opus : Bool) (active : Option (List ℕ)) (now : ℕ) (xs : List AccountStats)
    (a : AccountStats)
    → is_candidate is_opus active now xs a ≡ true
    → (is_enabled active a ≡ true) × (may_serve is_opus a ≡ true)
unfolding is_candidate
candidate_parts is_opus active now xs a h = (ground (arith, h), ground (arith, h))

module _ (is_opus : Bool) (active : Option (List ℕ)) where
  -- A change that leaves name and tier alone.
  module _ (f : AccountStats → AccountStats)
      (same_active : (a : AccountStats) → is_enabled active (f a) ≡ is_enabled active a)
      (same_serve : (a : AccountStats) → may_serve is_opus (f a) ≡ may_serve is_opus a) where
    any-map :
        (xs : List AccountStats) → any (is_enabled active) (map f xs) ≡ any (is_enabled active) xs
    any-map [] = refl
    any-map (a ∷ xs) = rw (same_active a, any-map xs) refl

    unfit-map :
        (xs : List AccountStats)
        → All (λ b. is_enabled active b ≡ true → may_serve is_opus b ≡ false) (map f xs)
        → All (λ b. is_enabled active b ≡ true → may_serve is_opus b ≡ false) xs
    unfit-map [] h = tt
    unfit-map (a ∷ xs) h = ((λ y. sym (same_serve a) ∙ h.0 (same_active a ∙ y)), unfit-map xs h.1)

    Serves-map :
        (xs : List AccountStats) (a : AccountStats)
        → Serves is_opus active (map f xs) a
        → Serves is_opus active xs a
    Serves-map xs a s = record { active_one = s.active_one; unfit = λ u. unfit-map xs (s.unfit u) }

  abbrev forgiven : AccountStats → AccountStats
  forgiven a = if is_enabled active a then forgive a else a

  forgiven-active : (a : AccountStats) → is_enabled active (forgiven a) ≡ is_enabled active a
  forgiven-active a = elim (Bool-cases (is_enabled active a)) [
    | inl e ↦ rw e (forgive-active active a ∙ e)
    | inr e ↦ rw e e
  ]

  forgiven-serve : (a : AccountStats) → may_serve is_opus (forgiven a) ≡ may_serve is_opus a
  forgiven-serve a = elim (Bool-cases (is_enabled active a)) [
    | inl e ↦ rw e refl
    | inr e ↦ rw e refl
  ]

  All-unfit :
      (xs : List AccountStats)
      → any (may_serve is_opus) (keep (is_enabled active) xs) ≡ false
      → All (λ b. is_enabled active b ≡ true → may_serve is_opus b ≡ false) xs
  All-unfit [] h = tt
  All-unfit (a ∷ xs) h = elim (Bool-cases (is_enabled active a)) [
    | inl e ↦ let h' = rw e at h in ((λ _. ground (arith, h')), All-unfit xs (ground (arith, h')))
    | inr e ↦ ((λ y. absurd (ground (arith, e, y))), All-unfit xs (rw e at h))
  ]

  choose_among_active-Serves :
      (xs : List AccountStats)
      → any (is_enabled active) xs ≡ true
      → (a : AccountStats) × ((choose_among_active is_opus active xs).0 ≡ some a)
        × Serves is_opus active xs a
  unfolding choose_among_active forgive_active
  choose_among_active-Serves xs some_one =
      let ys = forgive_active active xs in
      elim (List-cases (keep (is_enabled active) ys)) [
        | inl e ↦ absurd (
            ground (
              arith,
              any-keep (is_enabled active) ys e,
              some_one,
              any-map forgiven forgiven-active forgiven-serve xs,
            ))
        | inr (z, zs, e) ↦
            let active_all = rw e at (All-keep-true (is_enabled active) ys) in
            elim (List-cases (keep (may_serve is_opus) (z ∷ zs))) [
              | inl q ↦ (
                least z zs,
                rw (e, choose_among_active) (rw q refl),
                Serves-map forgiven forgiven-active forgiven-serve xs (least z zs) (record {
                  active_one =
                      least-All (λ a. is_enabled active a ≡ true) z zs active_all.0 active_all.1;
                  unfit = λ _. All-unfit ys (rw e (any-keep (may_serve is_opus) (z ∷ zs) q));
                }),
              )
              | inr (c, cs, q) ↦
                  let fit = rw q at (All-keep-true (may_serve is_opus) (z ∷ zs)) in
                  let act = rw q at (
                    All-keep (may_serve is_opus) (λ a. is_enabled active a ≡ true) (z ∷ zs)
                      active_all) in
                  let serves = least-All (λ a. may_serve is_opus a ≡ true) c cs fit.0 fit.1 in
                  (
                    least c cs,
                    rw (e, choose_among_active) (rw q refl),
                    record {
                      active_one = least-All (λ a. is_enabled active a ≡ true) c cs act.0 act.1;
                      unfit = λ u. absurd (ground (arith, serves, u));
                    },
                  )
            ]
      ]

-- While any account is active one is chosen, whatever has failed or cools down: it is active, and of a
-- tier that does not serve the model only where no active account's tier does.
pub select_account-Serves :
    (is_opus : Bool) (active : Option (List ℕ)) (now now_ts : ℕ) (accounts : List AccountStats)
    → any (is_enabled active) accounts ≡ true
    → (a : AccountStats) × ((select_account is_opus active now now_ts accounts).0 ≡ some a)
      × Serves is_opus active accounts a
unfolding select_account maybe_reset_daily
select_account-Serves is_opus active now now_ts accounts some_one =
    let xs = maybe_reset_daily now accounts in
    let q = is_candidate is_opus active now_ts xs in
    let back =
      Serves-map is_opus active (renewed now) (renewed-active active now)
        (renewed-serve is_opus now) accounts in
    elim (List-cases (keep q xs)) [
      | inl e ↦
          let active_one =
            any-map is_opus active (renewed now) (renewed-active active now)
              (renewed-serve is_opus now) accounts
            ∙ some_one in
          let (a, found, serves) = choose_among_active-Serves is_opus active xs active_one in
          (a, rw (e, select_account) found, back a serves)
      | inr (c, cs, e) ↦
          let good = rw e at (All-keep-true q xs) in
          let parts =
            candidate_parts is_opus active now_ts xs (least c cs)
              (least-All (λ a. q a ≡ true) c cs good.0 good.1) in
          (
            least c cs,
            rw (e, select_account) refl,
            back (least c cs)
                (record { active_one = parts.0; unfit = λ u. absurd (ground (arith, parts.1, u)) }),
          )
    ]
