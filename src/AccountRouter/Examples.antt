-- ===== src/AccountRouter/Examples.antt =====
-- Examples for engine/ai/account_router.py.
use v10_engine.Prelude.{
  ℕ, inl, inr, arith, ◌+◌, ◌≡◌, refl, true, false, none, some, List, [], ◌∷◌, ◌==◌, if◌then◌else◌,
}
use v10_engine.Prelude.Text.{codes}
use v10_engine.AccountRouter.{
  AccountStats, Router, Tier, max_tier, pro, names, maybe_reset_daily, select_account, answered,
  raised, Around, call,
}
use v10_engine.AccountRouter.Candidate.{Spared}
use v10_engine.AccountRouter.Choice.{Chosen, select_account-Best}
use v10_engine.AccountRouter.Fallback.{Serves, select_account-Serves}
use v10_engine.AccountRouter.Counts.{total, used}
use v10_engine.AccountRouter.Calls.{call_counts}

abbrev account : ℕ → Tier → ℕ → AccountStats
account i tier tokens = record {
  slot = i;
  name = i;
  tier = tier;
  daily_tokens = tokens;
  daily_calls = 0;
  last_reset = 50;
  consecutive_failures = 0;
  overload_count = 0;
  cooldown_until = 0;
}

abbrev accounts : List AccountStats
accounts = account 1 max_tier 500 ∷ account 2 pro 20 ∷ []

abbrev router : Router
router = record { accounts = accounts; active_names_cache = none; active_names_ts = 0 }

-- The pro account is overloaded, and the other one serves the call.
abbrev around : Around
around = record {
  is_opus = false;
  row = names (1 ∷ 2 ∷ []);
  row_again = names (1 ∷ 2 ∷ []);
  now = 100;
  now_ts = 100;
  failed_at = 110;
  adapter = λ i. if i == 2 then raised (codes "error 529") else answered (some 7) (some 8);
  others = λ xs. xs;
  others_again = λ xs. xs;
}

pro_is_free :
    ¬ Spared false (some (1 ∷ 2 ∷ [])) 100 (maybe_reset_daily 100 accounts) (account 2 pro 20)
pro_is_free (o, t, k, p) = absurd (cc t)

select_account-Best_example :
    (a : AccountStats) × ((select_account false (some (1 ∷ 2 ∷ [])) 100 100 accounts).0 ≡ some a)
    × Chosen false (some (1 ∷ 2 ∷ [])) 100 (maybe_reset_daily 100 accounts) a
unfolding maybe_reset_daily
select_account-Best_example = select_account-Best false (some (1 ∷ 2 ∷ [])) 100 100 accounts (
    inr (
      inl (
        record { enabled = refl; steady = omega arith; cool = omega arith; tier_fits = inl refl },
        pro_is_free,
      )))

-- An Opus call when only the pro account is active.
select_account-Serves_example :
    (a : AccountStats) × ((select_account true (some (2 ∷ [])) 100 100 accounts).0 ≡ some a)
    × Serves true (some (2 ∷ [])) accounts a
select_account-Serves_example = select_account-Serves true (some (2 ∷ [])) 100 100 accounts refl

call_counts_example :
    let p = call around router in
    total p.1.accounts ≡ total (maybe_reset_daily 100 accounts) + used p.0
call_counts_example = call_counts around router (λ xs. refl) (λ xs. refl) (refl, (refl, tt))

call_serves : total (call around router).1.accounts ≡ 535
unfolding call total
call_serves = refl
