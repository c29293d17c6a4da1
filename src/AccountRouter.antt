-- ===== src/AccountRouter.antt =====
-- engine/ai/account_router.py: AccountRouter, which chooses the account for a call of a model and
-- counts what the accounts use. Times are seconds; the adapter's answer, the database's rows and the
-- clock are arguments. An account object is known by its slot in the router's list.
pub mod Candidate
pub mod Choice
pub mod Fallback
pub mod Counts
pub mod Calls
mod Examples
use v10_engine.Prelude.{
  ℕ, suc, ◌+◌, ◌-◌, Bool, true, false, not, ◌&&◌, ◌||◌, Option, none, some, List, [], ◌∷◌, map,
  keep, any, elem, ltb, leb, ◌==◌, if◌then◌else◌,
}
use v10_engine.Prelude.Text.{codes, is_infix}
use v10_engine.Store.{Text}

pub data Tier : Type 0 where
  max_tier pro : Tier

pub record AccountStats : Type 0 where
  pub slot : ℕ
  pub name : ℕ
  pub tier : Tier
  pub daily_tokens : ℕ
  pub daily_calls : ℕ
  pub last_reset : ℕ
  pub consecutive_failures : ℕ
  pub overload_count : ℕ
  pub cooldown_until : ℕ

-- The defaults of the three environment variables.
abbrev pub max_daily_tokens_warn : ℕ
max_daily_tokens_warn = 400000

abbrev pub overload_threshold : ℕ
overload_threshold = 3

abbrev pub overload_cooldown_s : ℕ
overload_cooldown_s = 300

pub record Router : Type 0 where
  pub accounts : List AccountStats
  pub active_names_cache : Option (List ℕ)
  pub active_names_ts : ℕ

-- What the SELECT gives: no database, an error, or the names of the active accounts.
pub data NamesRow : Type 0 where
  no_db : NamesRow
  db_error : NamesRow
  names : List ℕ → NamesRow

abbrev refresh : NamesRow → ℕ → Router → Option (List ℕ) × Router
refresh no_db now r = (none, r)
refresh db_error now r = (none, r)
refresh (names ns) now r =
    (some ns, record r { active_names_cache = some ns; active_names_ts = now })

abbrev is_db : NamesRow → Bool
is_db no_db = false
is_db _ = true

unfoldable pub get_active_names : NamesRow → ℕ → Router → Option (List ℕ) × Router
get_active_names row now r = elim r.active_names_cache [
  | none ↦ refresh row now r
  | some ns ↦
      if is_db row && ltb now (r.active_names_ts + 30) then (some ns, r) else refresh row now r
]

abbrev pub is_max : Tier → Bool
is_max max_tier = true
is_max pro = false

-- active_names is None or a.name in active_names
abbrev pub is_enabled : Option (List ℕ) → AccountStats → Bool
is_enabled none a = true
is_enabled (some ns) a = elem a.name ns

abbrev pub may_serve : Bool → AccountStats → Bool
may_serve is_opus a = not is_opus || is_max a.tier

unfoldable pub is_pro_available : Option (List ℕ) → ℕ → List AccountStats → Bool
is_pro_available active now accounts =
    any
      (λ p.
        not (is_max p.tier)
        && is_enabled active p
        && leb p.cooldown_until now
        && ltb p.consecutive_failures 3)
      accounts

-- The account passes the `continue`s of the loop.
unfoldable pub is_candidate : Bool → Option (List ℕ) → ℕ → List AccountStats → AccountStats → Bool
unfolding is_pro_available
is_candidate is_opus active now accounts a =
    is_enabled active a
    && may_serve is_opus a
    && ltb a.consecutive_failures 3
    && leb a.cooldown_until now
    && not (
        is_max a.tier
        && leb max_daily_tokens_warn a.daily_tokens
        && is_pro_available active now accounts
        && not is_opus)

-- min(…, key=lambda a: a.daily_tokens): the first of the least.
unfoldable pub least : AccountStats → List AccountStats → AccountStats
least a [] = a
least a (b ∷ bs) = least (if ltb b.daily_tokens a.daily_tokens then b else a) bs

unfoldable pub maybe_reset_daily : ℕ → List AccountStats → List AccountStats
maybe_reset_daily now accounts =
    map
      (λ a.
        if ltb (a.last_reset + 86400) now
        then record a { daily_tokens = 0; daily_calls = 0; last_reset = now }
        else a)
      accounts

abbrev pub forgive : AccountStats → AccountStats
forgive a = record a { consecutive_failures = 0 }

unfoldable pub forgive_active : Option (List ℕ) → List AccountStats → List AccountStats
forgive_active active accounts = map (λ a. if is_enabled active a then forgive a else a) accounts

-- No candidate: the failures of the active accounts are forgotten; `none` is the RuntimeError.
unfoldable pub choose_among_active :
    Bool → Option (List ℕ) → List AccountStats → Option AccountStats × List AccountStats
unfolding forgive_active least
choose_among_active is_opus active accounts =
    let accounts' = forgive_active active accounts in
    elim (keep (is_enabled active) accounts') [
      | [] ↦ (none, accounts)
      | x ∷ xs ↦ elim (keep (may_serve is_opus) (x ∷ xs)) [
        | [] ↦ (some (least x xs), accounts')
        | c ∷ cs ↦ (some (least c cs), accounts')
      ]
    ]

-- The part of `_select_account` under the lock; `now` is read once for the reset and once for the rest.
unfoldable pub select_account :
    Bool → Option (List ℕ) → ℕ → ℕ → List AccountStats → Option AccountStats × List AccountStats
unfolding is_candidate choose_among_active maybe_reset_daily least
select_account is_opus active now now_ts accounts =
    let accounts' = maybe_reset_daily now accounts in
    elim (keep (is_candidate is_opus active now_ts accounts') accounts') [
      | [] ↦ choose_among_active is_opus active accounts'
      | c ∷ cs ↦ (some (least c cs), accounts')
    ]

unfoldable pub select_fallback :
    Bool → Option (List ℕ) → ℕ → List AccountStats → Option AccountStats
select_fallback is_opus active exclude [] = none
select_fallback is_opus active exclude (a ∷ accounts) =
    if not (a.slot == exclude) && is_enabled active a && may_serve is_opus a
    then some a
    else select_fallback is_opus active exclude accounts

-- What an adapter's call ends with: the tokens of its answer, or the text of its error in lower case.
pub data Outcome : Type 0 where
  answered : Option ℕ → Option ℕ → Outcome
  raised : Text → Outcome

abbrev or_zero : Option ℕ → ℕ
or_zero none = 0
or_zero (some n) = n

abbrev pub add_usage : Option ℕ → Option ℕ → AccountStats → AccountStats
add_usage i o a = record a {
  daily_tokens = a.daily_tokens + (or_zero i + or_zero o);
  daily_calls = suc a.daily_calls;
}

-- `-` stops at 0, as max(0, …) does.
abbrev pub on_success : Option ℕ → Option ℕ → AccountStats → AccountStats
on_success i o a = record (add_usage i o a) {
  consecutive_failures = 0;
  overload_count = a.overload_count - 1;
}

unfoldable pub is_overload : Text → Bool
unfolding is_infix
is_overload error =
    is_infix (codes "529") error
    || is_infix (codes "overload") error
    || is_infix (codes "capacity") error
    || is_infix (codes "hit your limit") error

unfoldable pub on_failure : Text → ℕ → AccountStats → AccountStats
unfolding is_overload
on_failure error now a =
    let b = record a { consecutive_failures = suc a.consecutive_failures } in
    if is_overload error
    then record b {
      overload_count = suc a.overload_count;
      cooldown_until =
          if leb overload_threshold (suc a.overload_count)
          then now + overload_cooldown_s
          else a.cooldown_until;
    }
    else b

unfoldable pub update_account :
    ℕ → (AccountStats → AccountStats) → List AccountStats → List AccountStats
update_account i f accounts = map (λ a. if a.slot == i then f a else a) accounts

pub data Reply : Type 0 where
  served : Option ℕ → Option ℕ → Reply
  failed : Text → Reply
  no_account : Reply

-- What surrounds a call: the two reads of the names, the times, the answer of each account's adapter,
-- and what other calls do to the accounts while an adapter is awaited.
pub record Around : Type 0 where
  pub is_opus : Bool
  pub row : NamesRow
  pub row_again : NamesRow
  pub now : ℕ
  pub now_ts : ℕ
  pub failed_at : ℕ
  pub adapter : ℕ → Outcome
  pub others : List AccountStats → List AccountStats
  pub others_again : List AccountStats → List AccountStats

-- A second adapter error goes to the caller and is not counted.
unfoldable pub call_fallback : Around → Text → Option AccountStats → Router → Reply × Router
unfolding update_account
call_fallback e error none r = (failed error, r)
call_fallback e error (some b) r =
    let accounts = e.others_again r.accounts in
    elim (e.adapter b.slot) [
      | answered i o ↦
          (served i o, record r { accounts = update_account b.slot (add_usage i o) accounts })
      | raised error' ↦ (failed error', record r { accounts = accounts })
    ]

unfoldable pub call_selected : Around → AccountStats → Router → Reply × Router
unfolding update_account on_failure get_active_names select_fallback call_fallback
call_selected e a r =
    let accounts = e.others r.accounts in
    elim (e.adapter a.slot) [
      | answered i o ↦
          (served i o, record r { accounts = update_account a.slot (on_success i o) accounts })
      | raised error ↦
          let r' = record r {
            accounts = update_account a.slot (on_failure error e.failed_at) accounts;
          } in
          let (active, r'') = get_active_names e.row_again e.failed_at r' in
          call_fallback e error (select_fallback e.is_opus active a.slot r''.accounts) r''
    ]

unfoldable pub call : Around → Router → Reply × Router
unfolding get_active_names select_account call_selected
call e r =
    let (active, r') = get_active_names e.row e.now r in
    let (chosen, accounts) = select_account e.is_opus active e.now e.now_ts r'.accounts in
    elim chosen [
      | none ↦ (no_account, record r' { accounts = accounts })
      | some a ↦ call_selected e a (record r' { accounts = accounts })
    ]
