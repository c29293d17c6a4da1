-- ===== src/AccountRouter/Choice.antt =====
-- Which account AccountRouter (engine/ai/account_router.py) chooses.
use v10_engine.Prelude.{
  ℕ, ◌≤◌, ◌⊎◌, ◌≡◌, refl, inl, inr, Bool, true, false, Option, some, List, [], ◌∷◌, keep, any, All,
  ltb, arith, if◌then◌else◌, Bool-cases,
}
use v10_engine.AccountRouter.{AccountStats, is_candidate, least, maybe_reset_daily, select_account}
use v10_engine.AccountRouter.Candidate.{Candidate, SomeOf, candidate_of, is_candidate_of}

-- What holds of all from which the least is taken holds of the least.
pub least-All :
    (P : AccountStats → Type 0) (a : AccountStats) (xs : List AccountStats)
    → P a
    → All P xs
    → P (least a xs)
unfolding least
least-All P a [] p h = p
least-All P a (b ∷ bs) p h = elim (Bool-cases (ltb b.daily_tokens a.daily_tokens)) [
  | inl e ↦ rw e (least-All P b bs h.0 h.1)
  | inr e ↦ rw e (least-All P a bs p h.1)
]

abbrev fewer : AccountStats → AccountStats → AccountStats
fewer a b = if ltb b.daily_tokens a.daily_tokens then b else a

fewer-le :
    (a b : AccountStats)
    → ((fewer a b).daily_tokens ≤ a.daily_tokens) × ((fewer a b).daily_tokens ≤ b.daily_tokens)
fewer-le a b = elim (Bool-cases (ltb b.daily_tokens a.daily_tokens)) [
  | inl e ↦ rw e (ground arith, ground arith)
  | inr e ↦ rw e (ground arith, ground arith)
]

least-le-head :
    (a : AccountStats) (xs : List AccountStats) → (least a xs).daily_tokens ≤ a.daily_tokens
unfolding least
least-le-head a [] = omega arith
least-le-head a (b ∷ bs) =
    let h = least-le-head (fewer a b) bs in let k = fewer-le a b in omega (arith, h, k.0)

least-le :
    (a : AccountStats) (xs : List AccountStats)
    → All (λ b. (least a xs).daily_tokens ≤ b.daily_tokens) xs
unfolding least
least-le a [] = tt
least-le a (b ∷ bs) =
    let h = least-le-head (fewer a b) bs in
    let k = fewer-le a b in (omega (arith, h, k.1), least-le (fewer a b) bs)

module _ (q : AccountStats → Bool) where
  pub All-keep-true : (xs : List AccountStats) → All (λ a. q a ≡ true) (keep q xs)
  All-keep-true [] = tt
  All-keep-true (a ∷ xs) = elim (Bool-cases (q a)) [
    | inl e ↦ rw e (e, All-keep-true xs)
    | inr e ↦ rw e (All-keep-true xs)
  ]

  pub All-keep : (P : AccountStats → Type 0) (xs : List AccountStats) → All P xs → All P (keep q xs)
  All-keep P [] h = tt
  All-keep P (a ∷ xs) h = elim (Bool-cases (q a)) [
    | inl e ↦ rw e (h.0, All-keep P xs h.1)
    | inr e ↦ rw e (All-keep P xs h.1)
  ]

  pub All-of-keep :
      (P : AccountStats → Type 0) (xs : List AccountStats)
      → All P (keep q xs)
      → All (λ a. q a ≡ true → P a) xs
  All-of-keep P [] h = tt
  All-of-keep P (a ∷ xs) h = elim (Bool-cases (q a)) [
    | inl e ↦ let h' = rw e at h in (λ _. h'.0, All-of-keep P xs h'.1)
    | inr e ↦ let h' = rw e at h in ((λ y. absurd (ground (arith, e, y))), All-of-keep P xs h')
  ]

  pub any-keep : (xs : List AccountStats) → keep q xs ≡ [] → any q xs ≡ false
  any-keep [] h = refl
  any-keep (a ∷ xs) h = elim (Bool-cases (q a)) [
    | inl e ↦ let h' = rw e at h in absurd (ground arith)
    | inr e ↦ rw e (any-keep xs (rw e at h))
  ]

-- Of the candidates the chosen account is one, and none of them has used fewer tokens.
pub record Best (q : AccountStats → Bool) (xs : List AccountStats) (a : AccountStats) : Type 0 where
  pub chosen : q a ≡ true
  pub fewest : All (λ b. q b ≡ true → a.daily_tokens ≤ b.daily_tokens) xs

least-Best :
    (q : AccountStats → Bool) (xs : List AccountStats) (c : AccountStats) (cs : List AccountStats)
    → keep q xs ≡ c ∷ cs
    → Best q xs (least c cs)
least-Best q xs c cs e = record {
  chosen = let t = rw e at (All-keep-true q xs) in least-All (λ a. q a ≡ true) c cs t.0 t.1;
  fewest =
      All-of-keep q (λ b. (least c cs).daily_tokens ≤ b.daily_tokens) xs
        (rw e (least-le-head c cs, least-le c cs));
}

module _ {A : Type 0} where
  pub List-cases : (xs : List A) → (xs ≡ []) ⊎ ((x : A) × (ys : List A) × (xs ≡ x ∷ ys))
  List-cases [] = inl refl
  List-cases (x ∷ ys) = inr (x, ys, refl)

-- The choice: a candidate that has used no more tokens of the day than any other.
pub record Chosen (is_opus : Bool) (active : Option (List ℕ)) (now_ts : ℕ) (xs : List AccountStats)
    (a : AccountStats) : Type 0 where
  pub candidate : Candidate is_opus active now_ts xs a
  pub fewest :
      All (λ b. (¬ Candidate is_opus active now_ts xs b) ⊎ a.daily_tokens ≤ b.daily_tokens) xs

some_any :
    (p : AccountStats → Bool) (P : AccountStats → Type 0) (xs : List AccountStats)
    → ((b : AccountStats) → P b → p b ≡ true)
    → SomeOf P xs
    → any p xs ≡ true
some_any p P [] h m = absurd m
some_any p P (x ∷ xs) h (inl m) = ground (arith, h x m)
some_any p P (x ∷ xs) h (inr m) = ground (arith, some_any p P xs h m)

fewest_of :
    (p : AccountStats → Bool) (P : AccountStats → Type 0) (n : ℕ) (xs : List AccountStats)
    → ((b : AccountStats) → P b → p b ≡ true)
    → All (λ b. p b ≡ true → n ≤ b.daily_tokens) xs
    → All (λ b. (¬ P b) ⊎ n ≤ b.daily_tokens) xs
fewest_of p P n [] h m = tt
fewest_of p P n (x ∷ xs) h m = (
  elim (Bool-cases (p x)) [
    | inl e ↦ inr (m.0 e)
    | inr e ↦ inl (λ c. absurd (ground (arith, h x c)))
  ],
  fewest_of p P n xs h m.1,
)

-- While there is a candidate, one is chosen, and of the candidates one with the fewest tokens of the
-- day. A candidate is active, serves the model (Opus on a max account only), has failed less than
-- three times in a row and does not cool down; and it is no max account at 400,000 tokens or more, where
-- the call is none of Opus and a pro account passes the same three tests.
pub select_account-Best :
    (is_opus : Bool) (active : Option (List ℕ)) (now now_ts : ℕ) (accounts : List AccountStats)
    → let xs = maybe_reset_daily now accounts in
      SomeOf (Candidate is_opus active now_ts xs) xs
      → (a : AccountStats) × ((select_account is_opus active now now_ts accounts).0 ≡ some a)
        × Chosen is_opus active now_ts xs a
unfolding select_account
select_account-Best is_opus active now now_ts accounts some_one =
    let xs = maybe_reset_daily now accounts in
    let q = is_candidate is_opus active now_ts xs in
    let P = Candidate is_opus active now_ts xs in
    let complete = is_candidate_of is_opus active now_ts xs in
    elim (List-cases (keep q xs)) [
      | inl e ↦ absurd (ground (arith, any-keep q xs e, some_any q P xs complete some_one))
      | inr (c, cs, e) ↦
          let best = least-Best q xs c cs e in
          (
            least c cs,
            rw (e, select_account) refl,
            record {
              candidate = candidate_of is_opus active now_ts xs (least c cs) best.chosen;
              fewest = fewest_of q P (least c cs).daily_tokens xs complete best.fewest;
            },
          )
    ]
