-- ===== src/AccountRouter/Counts.antt =====
-- What AccountRouter.call (engine/ai/account_router.py) counts.
use v10_engine.Prelude.{
  ℕ, ◌+◌, ◌≡◌, refl, ap, sym, ◌∙◌, inl, inr, Bool, true, false, not, ◌&&◌, Option, some, List, [],
  ◌∷◌, map, All, elem, arith, ◌==◌, Bool-cases,
}
use v10_engine.Prelude.Distinct.{Distinct}
use v10_engine.Store.{Text}
use v10_engine.AccountRouter.{
  AccountStats, Router, NamesRow, is_enabled, may_serve, least, select_fallback, get_active_names,
  or_zero, on_failure, is_overload, update_account, Reply, served, failed, no_account,
}
use v10_engine.AccountRouter.Choice.{least-All}

unfoldable pub total : List AccountStats → ℕ
total [] = 0
total (a ∷ xs) = a.daily_tokens + total xs

abbrev pub slots : List AccountStats → List ℕ
slots xs = map (λ a. a.slot) xs

-- The tokens of the answer that the caller gets.
abbrev pub used : Reply → ℕ
used (served i o) = or_zero i + or_zero o
used (failed error) = 0
used no_account = 0

module _ (f : AccountStats → AccountStats)
    (same_slot : (a : AccountStats) → (f a).slot ≡ a.slot) where
  pub slots-map : (xs : List AccountStats) → slots (map f xs) ≡ slots xs
  slots-map [] = refl
  slots-map (a ∷ xs) = rw (same_slot a, slots-map xs) refl

  pub total-map :
      ((a : AccountStats) → (f a).daily_tokens ≡ a.daily_tokens)
      → (xs : List AccountStats) → total (map f xs) ≡ total xs
  unfolding total
  total-map same [] = refl
  total-map same (a ∷ xs) = rw (same a, total-map same xs) refl

module _ (i : ℕ) (f : AccountStats → AccountStats)
    (same_slot : (a : AccountStats) → (f a).slot ≡ a.slot) where
  pub slots-update : (xs : List AccountStats) → slots (update_account i f xs) ≡ slots xs
  unfolding update_account
  slots-update [] = refl
  slots-update (a ∷ xs) = elim (Bool-cases (a.slot == i)) [
    | inl e ↦ rw (e, same_slot a, slots-update xs) refl
    | inr e ↦ rw (e, slots-update xs) refl
  ]

  module _ (n : ℕ) (adds : (a : AccountStats) → (f a).daily_tokens ≡ a.daily_tokens + n) where
    total-update_miss :
        (xs : List AccountStats)
        → elem i (slots xs) ≡ false
        → total (update_account i f xs) ≡ total xs
    unfolding total update_account
    total-update_miss [] h = refl
    total-update_miss (a ∷ xs) h = elim (Bool-cases (a.slot == i)) [
      | inl e ↦ absurd (ground (arith, h, e))
      | inr e ↦ rw (e, total-update_miss xs (rw e at h)) refl
    ]

    pub total-update :
        (xs : List AccountStats)
        → Distinct (slots xs)
        → elem i (slots xs) ≡ true
        → total (update_account i f xs) ≡ total xs + n
    unfolding total update_account
    total-update [] d h = cc
    total-update (a ∷ xs) d h = elim (Bool-cases (a.slot == i)) [
      | inl e ↦
          let s : a.slot ≡ i = ground arith in
          let gone : elem i (slots xs) ≡ false = ap (λ j. elem j (slots xs)) (sym s) ∙ d.0 in
          rw e (omega (arith, adds a, total-update_miss xs gone))
      | inr e ↦ rw e (omega (arith, total-update xs d.1 (rw e at h)))
    ]

pub total-update_same :
    (i : ℕ) (f : AccountStats → AccountStats)
    → ((a : AccountStats) → (f a).daily_tokens ≡ a.daily_tokens)
    → (xs : List AccountStats) → total (update_account i f xs) ≡ total xs
unfolding total update_account
total-update_same i f same [] = refl
total-update_same i f same (a ∷ xs) = elim (Bool-cases (a.slot == i)) [
  | inl e ↦ rw (e, same a, total-update_same i f same xs) refl
  | inr e ↦ rw (e, total-update_same i f same xs) refl
]

pub on_failure_tokens :
    (t : Text) (now : ℕ) (a : AccountStats) → (on_failure t now a).daily_tokens ≡ a.daily_tokens
unfolding on_failure
on_failure_tokens t now a = elim (Bool-cases (is_overload t)) [
  | inl e ↦ rw e refl
  | inr e ↦ rw e refl
]

pub on_failure_slot : (t : Text) (now : ℕ) (a : AccountStats) → (on_failure t now a).slot ≡ a.slot
unfolding on_failure
on_failure_slot t now a = elim (Bool-cases (is_overload t)) [
  | inl e ↦ rw e refl
  | inr e ↦ rw e refl
]

abbrev pub In : List AccountStats → AccountStats → Type 0
In xs a = elem a.slot (slots xs) ≡ true

All-In-cons : (a : AccountStats) (xs ys : List AccountStats) → All (In xs) ys → All (In (a ∷ xs)) ys
All-In-cons a xs [] h = tt
All-In-cons a xs (y ∷ ys) h = (ground (arith, h.0), All-In-cons a xs ys h.1)

pub All-In : (xs : List AccountStats) → All (In xs) xs
All-In [] = tt
All-In (a ∷ xs) = (ground arith, All-In-cons a xs xs (All-In xs))

pub get_active_names-accounts :
    (row : NamesRow) (now : ℕ) (r : Router) → (get_active_names row now r).1.accounts ≡ r.accounts
unfolding get_active_names
get_active_names-accounts row now r = ground arith

pub select_fallback-In :
    (is_opus : Bool) (active : Option (List ℕ)) (i : ℕ) (xs : List AccountStats) (b : AccountStats)
    → select_fallback is_opus active i xs ≡ some b
    → In xs b
unfolding select_fallback
select_fallback-In is_opus active i [] b h = absurd (ground (arith, h))
select_fallback-In is_opus active i (a ∷ xs) b h =
    elim (Bool-cases (not (a.slot == i) && is_enabled active a && may_serve is_opus a)) [
      | inl e ↦ let h' = rw e at h in ground arith
      | inr e ↦ let t = select_fallback-In is_opus active i xs b (rw e at h) in ground arith
    ]

-- What the selection does to the accounts.
pub record Selected (before : List AccountStats) (o : Option AccountStats)
    (after : List AccountStats) : Type 0 where
  pub same_total : total after ≡ total before
  pub same_slots : slots after ≡ slots before
  pub of_them : (a : AccountStats) → o ≡ some a → In before a

module _ (is_opus : Bool) (active : Option (List ℕ)) where
  pub least-Selected :
      (before after : List AccountStats) (c : AccountStats) (cs : List AccountStats)
      → total after ≡ total before
      → slots after ≡ slots before
      → All (In before) (c ∷ cs)
      → Selected before (some (least c cs)) after
  least-Selected before after c cs t s h = record {
    same_total = t;
    same_slots = s;
    of_them = λ a e. subst_some before (least c cs) a e (least-All (In before) c cs h.0 h.1);
  }
    where
      subst_some :
          (xs : List AccountStats) (x y : AccountStats) → some x ≡ some y → In xs x → In xs y
      subst_some xs x y e h = cc
