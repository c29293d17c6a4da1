-- ===== src/AccountRouter/Calls.antt =====
-- The tokens of the day over a whole AccountRouter.call (engine/ai/account_router.py).
use v10_engine.Prelude.{
  ℕ, ◌+◌, ◌≡◌, refl, ap, sym, subst, ◌∙◌, ◌⊎◌, inl, inr, Bool, true, Option, none, some, List, ◌∷◌,
  keep, All, elem, ltb, arith, if◌then◌else◌, Bool-cases, Option-cases,
}
use v10_engine.Prelude.Distinct.{Distinct}
use v10_engine.Store.{Text}
use v10_engine.AccountRouter.{
  AccountStats, Router, is_enabled, may_serve, is_candidate, forgive, forgive_active,
  maybe_reset_daily, choose_among_active, select_account, select_fallback, get_active_names,
  Outcome, answered, raised, or_zero, add_usage, on_success, on_failure, update_account, Around,
  call_fallback, call_selected, call,
}
use v10_engine.AccountRouter.Choice.{All-keep, List-cases}
use v10_engine.AccountRouter.Counts.{
  total, slots, used, slots-map, total-map, slots-update, total-update, total-update_same,
  on_failure_tokens, on_failure_slot, In, All-In, get_active_names-accounts, select_fallback-In,
  Selected, least-Selected,
}

forgive_active-total :
    (active : Option (List ℕ)) (xs : List AccountStats)
    → total (forgive_active active xs) ≡ total xs
unfolding forgive_active
forgive_active-total active xs = total-map _ (slot_same) (λ a. tokens_same a) xs
  where
    slot_same : (a : AccountStats) → (if is_enabled active a then forgive a else a).slot ≡ a.slot
    slot_same a = elim (Bool-cases (is_enabled active a)) [ inl e ↦ rw e refl | inr e ↦ rw e refl ]

    tokens_same :
        (a : AccountStats)
        → (if is_enabled active a then forgive a else a).daily_tokens ≡ a.daily_tokens
    tokens_same a = elim (Bool-cases (is_enabled active a)) [
      | inl e ↦ rw e refl
      | inr e ↦ rw e refl
    ]

forgive_active-slots :
    (active : Option (List ℕ)) (xs : List AccountStats)
    → slots (forgive_active active xs) ≡ slots xs
unfolding forgive_active
forgive_active-slots active xs = slots-map _ (λ a. slot_same a) xs
  where
    slot_same : (a : AccountStats) → (if is_enabled active a then forgive a else a).slot ≡ a.slot
    slot_same a = elim (Bool-cases (is_enabled active a)) [ inl e ↦ rw e refl | inr e ↦ rw e refl ]

maybe_reset_daily-slots :
    (now : ℕ) (xs : List AccountStats) → slots (maybe_reset_daily now xs) ≡ slots xs
unfolding maybe_reset_daily
maybe_reset_daily-slots now xs = slots-map _ (λ a. slot_same a) xs
  where
    slot_same :
        (a : AccountStats)
        → (if ltb (a.last_reset + 86400) now
            then record a { daily_tokens = 0; daily_calls = 0; last_reset = now }
            else a).slot
          ≡ a.slot
    slot_same a = elim (Bool-cases (ltb (a.last_reset + 86400) now)) [
      | inl e ↦ rw e refl
      | inr e ↦ rw e refl
    ]

module _ (is_opus : Bool) (active : Option (List ℕ)) where
  choose_among_active-Selected :
      (xs : List AccountStats)
      → let p = choose_among_active is_opus active xs in Selected xs p.0 p.1
  unfolding choose_among_active
  choose_among_active-Selected xs =
      let ys = forgive_active active xs in
      let t = forgive_active-total active xs in
      let s = forgive_active-slots active xs in
      let in_ys : All (In xs) ys = subst (λ l. All (λ a. elem a.slot l ≡ true) ys) s (All-In ys) in
      let kept = All-keep (is_enabled active) (In xs) ys in_ys in
      elim (List-cases (keep (is_enabled active) ys)) [
        | inl e ↦
            rw (e, choose_among_active)
              (record {
                same_total = refl;
                same_slots = refl;
                of_them = λ a q. absurd (ground (arith, q));
              })
        | inr (z, zs, e) ↦
            let kept' = rw e at kept in
            elim (List-cases (keep (may_serve is_opus) (z ∷ zs))) [
              | inl q ↦
                  rw (e, choose_among_active)
                    (rw q (least-Selected is_opus active xs ys z zs t s kept'))
              | inr (c, cs, q) ↦
                  let good = rw q at (All-keep (may_serve is_opus) (In xs) (z ∷ zs) kept') in
                  rw (e, choose_among_active)
                    (rw q (least-Selected is_opus active xs ys c cs t s good))
            ]
      ]

  select_account-Selected :
      (now now_ts : ℕ) (accounts : List AccountStats)
      → let p = select_account is_opus active now now_ts accounts in
        Selected (maybe_reset_daily now accounts) p.0 p.1
  unfolding select_account
  select_account-Selected now now_ts accounts =
      let xs = maybe_reset_daily now accounts in
      let q = is_candidate is_opus active now_ts xs in
      elim (List-cases (keep q xs)) [
        | inl e ↦ rw (e, select_account) (choose_among_active-Selected xs)
        | inr (c, cs, e) ↦
            let good = rw e at (All-keep q (In xs) xs (All-In xs)) in
            rw (e, select_account) (least-Selected is_opus active xs xs c cs refl refl good)
      ]

-- An adapter answers or raises.
Outcome-cases :
    (o : Outcome)
    → ((i : Option ℕ) × (j : Option ℕ) × (o ≡ answered i j)) ⊎ ((error : Text) × (o ≡ raised error))
Outcome-cases (answered i j) = inl (i, j, refl)
Outcome-cases (raised error) = inr (error, refl)

module _ (e : Around) (alone : (xs : List AccountStats) → e.others xs ≡ xs)
    (alone_again : (xs : List AccountStats) → e.others_again xs ≡ xs) where
  call_fallback-total :
      (error : Text) (o : Option AccountStats) (r : Router)
      → Distinct (slots r.accounts)
      → ((b : AccountStats) → o ≡ some b → In r.accounts b)
      → let p = call_fallback e error o r in total p.1.accounts ≡ total r.accounts + used p.0
  unfolding call_fallback
  call_fallback-total error none r d known = omega arith
  call_fallback-total error (some b) r d known = elim (Outcome-cases (e.adapter b.slot)) [
    | inl (i, j, q) ↦
        rw (q, call_fallback)
          (rw (alone_again r.accounts) (
            total-update b.slot (add_usage i j) (λ a. refl) (or_zero i + or_zero j) (λ a. refl)
              r.accounts d (known b refl)))
    | inr (error', q) ↦ rw (q, call_fallback) (rw (alone_again r.accounts) (omega arith))
  ]

  call_selected-total :
      (a : AccountStats) (r : Router)
      → Distinct (slots r.accounts)
      → In r.accounts a
      → let p = call_selected e a r in total p.1.accounts ≡ total r.accounts + used p.0
  unfolding call_selected
  call_selected-total a r d known = elim (Outcome-cases (e.adapter a.slot)) [
    | inl (i, j, q) ↦
        rw (q, call_selected)
          (rw (alone r.accounts) (
            total-update a.slot (on_success i j) (λ a. refl) (or_zero i + or_zero j) (λ a. refl)
              r.accounts d known))
    | inr (error, q) ↦
        let xs = update_account a.slot (on_failure error e.failed_at) r.accounts in
        let r' = record r { accounts = xs } in
        let (active, r'') = get_active_names e.row_again e.failed_at r' in
        let same : r''.accounts ≡ xs = get_active_names-accounts e.row_again e.failed_at r' in
        let s : slots r''.accounts ≡ slots r.accounts =
          ap slots same
          ∙ slots-update a.slot (on_failure error e.failed_at) (on_failure_slot error e.failed_at)
              r.accounts in
        let t : total r''.accounts ≡ total r.accounts =
          ap total same
          ∙ total-update_same a.slot (on_failure error e.failed_at)
              (on_failure_tokens error e.failed_at) r.accounts in
        rw (q, call_selected)
          (rw (alone r.accounts) (
            omega (
              arith,
              t,
              call_fallback-total error (select_fallback e.is_opus active a.slot r''.accounts) r''
                  (subst Distinct (sym s) d)
                  (λ b f. select_fallback-In e.is_opus active a.slot r''.accounts b f),
            )))
  ]

-- Where no other call runs meanwhile, a call adds to the tokens of the day, as the daily reset leaves
-- them, those of the answer that the caller gets, once and in all, and nothing if it gets an error.
pub call_counts :
    (e : Around) (r : Router)
    → ((xs : List AccountStats) → e.others xs ≡ xs)
    → ((xs : List AccountStats) → e.others_again xs ≡ xs)
    → Distinct (slots r.accounts)
    → let p = call e r in total p.1.accounts ≡ total (maybe_reset_daily e.now r.accounts) + used p.0
unfolding call
call_counts e r alone alone_again d =
    let (active, r') = get_active_names e.row e.now r in
    let same : r'.accounts ≡ r.accounts = get_active_names-accounts e.row e.now r in
    let p = select_account e.is_opus active e.now e.now_ts r'.accounts in
    let sel = select_account-Selected e.is_opus active e.now e.now_ts r'.accounts in
    let xs = maybe_reset_daily e.now r'.accounts in
    let t : total p.1 ≡ total (maybe_reset_daily e.now r.accounts) =
      sel.same_total ∙ ap (λ l. total (maybe_reset_daily e.now l)) same in
    let s : slots p.1 ≡ slots r.accounts =
      sel.same_slots ∙ maybe_reset_daily-slots e.now r'.accounts ∙ ap slots same in
    elim (Option-cases p.0) [
      | inl q ↦ rw (q, call) (omega (arith, t))
      | inr (a, q) ↦
          let known : In p.1 a =
            subst (λ l. elem a.slot l ≡ true) (sym sel.same_slots) (sel.of_them a q) in
          rw (q, call)
            (omega (
              arith,
              t,
              call_selected-total e alone alone_again a (record r' { accounts = p.1 })
                  (subst Distinct (sym s) d) known,
            ))
    ]
