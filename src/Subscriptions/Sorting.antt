-- ===== src/Subscriptions/Sorting.antt =====
-- companion/src/subscription_rules.rs: the order of the rules, and what the budget cuts off.
use not_another_ad_blocker.Prelude.{
  ℕ, zero, suc, ◌+◌, ◌≤◌, ◌≡◌, refl, Bool, true, false, List, [], ◌∷◌, take, length, arith, All,
  Any, inl, inr, ◌⊎◌, Bool-cases, ap, Any-map,
}
use not_another_ad_blocker.Text.{Str}
use not_another_ad_blocker.Subscriptions.Network.{BrowserRule}
use not_another_ad_blocker.Subscriptions.Compile.{
  is_block, retain_exceptions, sorts_before, sort_in, sort_rules, number_rules, EmittedRule,
  drop_blocks,
}

-- No exception stands behind a block.
abbrev pub ExceptionsFirst : List BrowserRule → Type 0
ExceptionsFirst [] = Unit
ExceptionsFirst (r ∷ rules) =
    (is_block r ≡ true → All (λ s. is_block s ≡ true) rules) × ExceptionsFirst rules

module _ (show : BrowserRule → Str) where
  sort_in-Any :
      (Q : BrowserRule → Type 0) (r : BrowserRule) (rules : List BrowserRule)
      → (Q r ⊎ Any Q rules)
      → Any Q (sort_in show r rules)
  unfolding sort_in
  sort_in-Any Q r [] (inl q) = inl q
  sort_in-Any Q r [] (inr a) = elim a [ ]
  sort_in-Any Q r (s ∷ rules) (inl q) = elim (Bool-cases (sorts_before show s r)) [
    | inl e ↦ rw e (inr (sort_in-Any Q r rules (inl q)))
    | inr e ↦ rw e (inl q)
  ]
  sort_in-Any Q r (s ∷ rules) (inr (inl q)) = elim (Bool-cases (sorts_before show s r)) [
    | inl e ↦ rw e (inl q)
    | inr e ↦ rw e (inr (inl q))
  ]
  sort_in-Any Q r (s ∷ rules) (inr (inr a)) = elim (Bool-cases (sorts_before show s r)) [
    | inl e ↦ rw e (inr (sort_in-Any Q r rules (inr a)))
    | inr e ↦ rw e (inr (inr a))
  ]

  Any-sort_in :
      (Q : BrowserRule → Type 0) (r : BrowserRule) (rules : List BrowserRule)
      → Any Q (sort_in show r rules)
      → Q r ⊎ Any Q rules
  unfolding sort_in
  Any-sort_in Q r [] h = h
  Any-sort_in Q r (s ∷ rules) h = elim (Bool-cases (sorts_before show s r)) [
    | inl e ↦ elim (rw e at h) [
      | inl q ↦ inr (inl q)
      | inr a ↦ elim (Any-sort_in Q r rules a) [ inl q ↦ inl q | inr b ↦ inr (inr b) ]
    ]
    | inr e ↦ rw e at h
  ]

  length-sort_in :
      (r : BrowserRule) (rules : List BrowserRule)
      → length (sort_in show r rules) ≡ suc (length rules)
  unfolding sort_in
  length-sort_in r [] = refl
  length-sort_in r (s ∷ rules) = ground (arith, length-sort_in r rules)

  sort_in-All :
      (Q : BrowserRule → Type 0) (r : BrowserRule) (rules : List BrowserRule)
      → Q r
      → All Q rules
      → All Q (sort_in show r rules)
  unfolding sort_in
  sort_in-All Q r [] q a = (q, tt)
  sort_in-All Q r (s ∷ rules) q (qs, a) = elim (Bool-cases (sorts_before show s r)) [
    | inl e ↦ rw e (qs, sort_in-All Q r rules q a)
    | inr e ↦ rw e (q, (qs, a))
  ]

  sort_in-ExceptionsFirst :
      (r : BrowserRule) (rules : List BrowserRule)
      → ExceptionsFirst rules
      → ExceptionsFirst (sort_in show r rules)
  unfolding sort_in
  sort_in-ExceptionsFirst r [] f = ((λ e. tt), tt)
  sort_in-ExceptionsFirst r (s ∷ rules) (h, f) = elim (Bool-cases (sorts_before show s r)) [
    | inl e ↦ rw e (
      (λ blocks. sort_in-All (λ t. is_block t ≡ true) r rules (ground arith) (h blocks)),
      sort_in-ExceptionsFirst r rules f,
    )
    | inr e ↦
        rw e ((λ blocks. let here : is_block s ≡ true = ground arith in (here, h here)), (h, f))
  ]

  pub sort_rules-ExceptionsFirst :
      (rules : List BrowserRule) → ExceptionsFirst (sort_rules show rules)
  unfolding sort_rules
  sort_rules-ExceptionsFirst [] = tt
  sort_rules-ExceptionsFirst (r ∷ rules) =
      sort_in-ExceptionsFirst r (sort_rules show rules) (sort_rules-ExceptionsFirst rules)

  pub sort_rules-Any :
      (Q : BrowserRule → Type 0) (rules : List BrowserRule)
      → Any Q rules
      → Any Q (sort_rules show rules)
  unfolding sort_rules
  sort_rules-Any Q [] a = elim a [ ]
  sort_rules-Any Q (r ∷ rules) (inl q) = sort_in-Any Q r (sort_rules show rules) (inl q)
  sort_rules-Any Q (r ∷ rules) (inr a) =
      sort_in-Any Q r (sort_rules show rules) (inr (sort_rules-Any Q rules a))

  pub Any-sort_rules :
      (Q : BrowserRule → Type 0) (rules : List BrowserRule)
      → Any Q (sort_rules show rules)
      → Any Q rules
  unfolding sort_rules
  Any-sort_rules Q [] h = elim h [ ]
  Any-sort_rules Q (r ∷ rules) h = elim (Any-sort_in Q r (sort_rules show rules) h) [
    | inl q ↦ inl q
    | inr a ↦ inr (Any-sort_rules Q rules a)
  ]

retain-blocks :
    (rules : List BrowserRule)
    → All (λ s. is_block s ≡ true) rules
    → Any (λ s. is_block s ≡ false) rules
    → ⊥
retain-blocks [] bs a = elim a [ ]
retain-blocks (r ∷ rules) (b, bs) (inl e) = absurd (ground arith)
retain-blocks (r ∷ rules) (b, bs) (inr a) = retain-blocks rules bs a

-- Where the exceptions stand first, a cut that has room for all of them loses none.
pub take-exceptions :
    (Q : BrowserRule → Type 0) (n : ℕ) (rules : List BrowserRule)
    → ExceptionsFirst rules
    → length (retain_exceptions rules) ≤ n
    → Any (λ r. Q r × (is_block r ≡ false)) rules
    → Any Q (take n rules)
unfolding retain_exceptions
take-exceptions Q zero [] f room a = elim a [ ]
take-exceptions Q (suc n) [] f room a = elim a [ ]
take-exceptions Q zero (r ∷ rules) (h, f) room (inl (q, e)) = absurd (ground arith)
take-exceptions Q zero (r ∷ rules) (h, f) room (inr a) =
    elim (take-exceptions Q zero rules f (ground arith) a) [ ]
take-exceptions Q (suc n) (r ∷ rules) (h, f) room (inl (q, e)) = inl q
take-exceptions Q (suc n) (r ∷ rules) (h, f) room (inr a) = elim (Bool-cases (is_block r)) [
  | inl e ↦ absurd (retain-blocks rules (h e) (Any-map (λ s (q, b). b) rules a))
  | inr e ↦ inr (take-exceptions Q n rules f (ground arith) a)
]

pub Any-take :
    (Q : BrowserRule → Type 0) (n : ℕ) (rules : List BrowserRule)
    → Any Q (take n rules)
    → Any Q rules
Any-take Q zero rules a = elim a [ ]
Any-take Q (suc n) [] a = elim a [ ]
Any-take Q (suc n) (r ∷ rules) (inl q) = inl q
Any-take Q (suc n) (r ∷ rules) (inr a) = inr (Any-take Q n rules a)

-- The numbers from `id` on, as many as there are rules.
abbrev pub AreNumbered : ℕ → List EmittedRule → Type 0
AreNumbered id [] = Unit
AreNumbered id (e ∷ rules) = (e.id ≡ id) × AreNumbered (id + 1) rules

pub number_rules-AreNumbered :
    (id : ℕ) (rules : List BrowserRule) → AreNumbered id (number_rules id rules)
number_rules-AreNumbered id [] = tt
number_rules-AreNumbered id (r ∷ rules) = (refl, number_rules-AreNumbered (id + 1) rules)

pub length-number_rules :
    (id : ℕ) (rules : List BrowserRule) → length (number_rules id rules) ≡ length rules
length-number_rules id [] = refl
length-number_rules id (r ∷ rules) = ap suc (length-number_rules (id + 1) rules)

pub number_rules-Any :
    (Q : BrowserRule → Type 0) (id : ℕ) (rules : List BrowserRule)
    → Any Q rules
    → Any (λ e. Q e.rule) (number_rules id rules)
number_rules-Any Q id [] a = elim a [ ]
number_rules-Any Q id (r ∷ rules) (inl q) = inl q
number_rules-Any Q id (r ∷ rules) (inr a) = inr (number_rules-Any Q (id + 1) rules a)

pub Any-number_rules :
    (Q : BrowserRule → Type 0) (id : ℕ) (rules : List BrowserRule)
    → Any (λ e. Q e.rule) (number_rules id rules)
    → Any Q rules
Any-number_rules Q id [] a = elim a [ ]
Any-number_rules Q id (r ∷ rules) (inl q) = inl q
Any-number_rules Q id (r ∷ rules) (inr a) = inr (Any-number_rules Q (id + 1) rules a)

pub retain_exceptions-All :
    (rules : List BrowserRule) → All (λ r. is_block r ≡ false) (retain_exceptions rules)
unfolding retain_exceptions
retain_exceptions-All [] = tt
retain_exceptions-All (r ∷ rules) = elim (Bool-cases (is_block r)) [
  | inl e ↦ rw e (retain_exceptions-All rules)
  | inr e ↦ rw e (e, retain_exceptions-All rules)
]

pub Any-All :
    (P Q : BrowserRule → Type 0) (rules : List BrowserRule)
    → All P rules
    → Any Q rules
    → Any (λ r. P r × Q r) rules
Any-All P Q [] a b = elim b [ ]
Any-All P Q (r ∷ rules) (p, a) (inl q) = inl (p, q)
Any-All P Q (r ∷ rules) (p, a) (inr b) = inr (Any-All P Q rules a b)

pub retain_exceptions-Any :
    (Q : BrowserRule → Type 0) (rules : List BrowserRule)
    → Any (λ r. Q r × (is_block r ≡ false)) rules
    → Any (λ r. Q r × (is_block r ≡ false)) (retain_exceptions rules)
unfolding retain_exceptions
retain_exceptions-Any Q [] a = elim a [ ]
retain_exceptions-Any Q (r ∷ rules) (inl (q, e)) = rw e (inl (q, e))
retain_exceptions-Any Q (r ∷ rules) (inr a) = elim (Bool-cases (is_block r)) [
  | inl e ↦ rw e (retain_exceptions-Any Q rules a)
  | inr e ↦ rw e (inr (retain_exceptions-Any Q rules a))
]

pub Any-retain_exceptions :
    (Q : BrowserRule → Type 0) (rules : List BrowserRule)
    → Any Q (retain_exceptions rules)
    → Any Q rules
unfolding retain_exceptions
Any-retain_exceptions Q [] a = elim a [ ]
Any-retain_exceptions Q (r ∷ rules) a = elim (Bool-cases (is_block r)) [
  | inl e ↦ inr (Any-retain_exceptions Q rules (rw e at a))
  | inr e ↦ elim (rw e at a) [ inl q ↦ inl q | inr b ↦ inr (Any-retain_exceptions Q rules b) ]
]

pub drop_blocks-Any :
    (Q : BrowserRule → Type 0) (suppressed : Bool) (rules : List BrowserRule)
    → Any (λ r. Q r × (is_block r ≡ false)) rules
    → Any (λ r. Q r × (is_block r ≡ false)) (drop_blocks suppressed rules)
drop_blocks-Any Q true rules a = retain_exceptions-Any Q rules a
drop_blocks-Any Q false rules a = a

pub Any-drop_blocks :
    (Q : BrowserRule → Type 0) (suppressed : Bool) (rules : List BrowserRule)
    → Any Q (drop_blocks suppressed rules)
    → Any Q rules
Any-drop_blocks Q true rules a = Any-retain_exceptions Q rules a
Any-drop_blocks Q false rules a = a
