-- ===== src/Lists/Accepted.antt =====
-- companion/src/lists.rs and companion/src/subscription_rules.rs: lists that passed the checks are
-- compiled.
use not_another_ad_blocker.Prelude.{
  ℕ, ◌+◌, ◌≤◌, ◌≡◌, refl, sym, ap, subst, ◌∙◌, Bool, true, false, ◌||◌, ◌&&◌, List, [], ◌∷◌, some,
  some_inj, String, arith, ltb, length, ok, err, ok_inj, inl, inr, ◌⊎◌, Bool-cases, Option-cases,
  Result-cases,
}
use not_another_ad_blocker.Text.{Str, str_eq, one_of, len, lines, trim}
use not_another_ad_blocker.Text.Laws.{eq_of_str_eq, str_eq_refl}
use not_another_ad_blocker.Text.Ordered.{set_insert, set_contains}
use not_another_ad_blocker.Subscriptions.Network.{BrowserRule}
use not_another_ad_blocker.Subscriptions.Compile.{
  Subscriptions, check_sources, within_budget, compile_subscriptions,
}
use not_another_ad_blocker.Subscriptions.Compile as Compile
use not_another_ad_blocker.Lists.Downloads.{
  Source, RefreshRequest, easylist, easyprivacy, find_source, select, insert_by_id, sort_sources,
  has_no_ids, validate_refresh, Download, utf8, other_bytes, has_header, is_rule, check_list_lines,
  validate_text, validate_list,
}

check_list_lines-length :
    (source : Source) (index : ℕ) (m m' : Bool) (ls : List Str)
    → index ≤ 300000
    → check_list_lines source index m ls ≡ ok m'
    → index + length ls ≤ 300000
unfolding check_list_lines
check_list_lines-length source index m m' [] le h = omega arith
check_list_lines-length source index m m' (line ∷ rest) le h = ground (
  arith,
  check_list_lines-length source (index + 1) (m || (ltb 0 index && is_rule (trim line))) m' rest,
)

-- What an accepted list is: within the limits of the compiler.
validate_list-bounded :
    (d : Download) (source : Source) (text : Str)
    → validate_list d source ≡ ok text
    → (len text ≤ 8388608) × (length (lines text) ≤ 300000)
unfolding validate_list validate_text
validate_list-bounded (other_bytes n) source text h = absurd (ground arith)
validate_list-bounded (utf8 t) source text h = elim (Bool-cases (has_header t)) [
  | inr e ↦ absurd (ground arith)
  | inl e ↦ elim (Result-cases (check_list_lines source 0 false (lines t))) [
    | inr (m, e') ↦ absurd (ground arith)
    | inl (false, e') ↦ absurd (ground arith)
    | inl (true, e') ↦
        let few = check_list_lines-length source 0 false true (lines t) (omega arith) e' in
        elim (Bool-cases (ltb 8388608 (len t))) [
          | inl big ↦ absurd (ground arith)
          | inr small ↦
              let same : t ≡ text = ok_inj (rw (validate_list, small, validate_text, e, e') at h) in
              subst (λ u. (len u ≤ 8388608) × (length (lines u) ≤ 300000)) same
                (ground arith, omega (arith, few))
        ]
  ]
]

-- One of the lists, or both in their order.
abbrev IsSelection : List Source → Type 0
IsSelection selected =
    (selected ≡ easylist ∷ [])
    ⊎ ((selected ≡ easyprivacy ∷ []) ⊎ (selected ≡ easylist ∷ easyprivacy ∷ []))

find_source-cases :
    (id : Str) (s : Source)
    → find_source id ≡ some s
    → ((id ≡ easylist.id) × (s ≡ easylist)) ⊎ ((id ≡ easyprivacy.id) × (s ≡ easyprivacy))
unfolding find_source
find_source-cases id s h = elim (Bool-cases (str_eq easylist.id id)) [
  | inl e ↦ inl (sym (eq_of_str_eq easylist.id id e), sym (some_inj (rw e at h)))
  | inr e ↦ elim (Bool-cases (str_eq easyprivacy.id id)) [
    | inl e' ↦ inr (sym (eq_of_str_eq easyprivacy.id id e'), sym (some_inj (rw (e, e') at h)))
    | inr e' ↦ absurd (ground arith)
  ]
]

select_step :
    (id : Str) (seen ids : List Str) (selected : List Source)
    → select seen (id ∷ ids) ≡ ok selected
    → (s : Source) × (rest : List Source) × (find_source id ≡ some s)
      × (set_contains id seen ≡ false)
      × (select (set_insert id seen) ids ≡ ok rest)
      × (s ∷ rest ≡ selected)
unfolding select
select_step id seen ids selected h = elim (Option-cases (find_source id)) [
  | inl e ↦ absurd (ground arith)
  | inr (s, e) ↦ elim (Bool-cases (set_contains id seen)) [
    | inl e' ↦ absurd (ground arith)
    | inr e' ↦ elim (Result-cases (select (set_insert id seen) ids)) [
      | inr (m, e'') ↦ absurd (ground arith)
      | inl (rest, e'') ↦ (s, rest, e, e', e'', ok_inj (rw (select, e, e', e'') at h))
    ]
  ]
]

one_selected :
    (s : Source) → (s ≡ easylist) ⊎ (s ≡ easyprivacy) → IsSelection (sort_sources (s ∷ []))
unfolding sort_sources insert_by_id
one_selected s (inl e) = inl (ap (λ x. x ∷ []) e)
one_selected s (inr e) = inr (inl (ap (λ x. x ∷ []) e))

both_sorted : sort_sources (easylist ∷ easyprivacy ∷ []) ≡ easylist ∷ easyprivacy ∷ []
unfolding sort_sources insert_by_id
both_sorted = refl

both_swapped : sort_sources (easyprivacy ∷ easylist ∷ []) ≡ easylist ∷ easyprivacy ∷ []
unfolding sort_sources insert_by_id
both_swapped = refl

not_twice : (a b : Str) → a ≡ b → set_contains b (set_insert a []) ≡ false → ⊥
unfolding set_contains set_insert
not_twice a b same absent = absurd (ground (arith, str_eq_refl b, same, absent))

select-IsSelection :
    (ids : List Str) (selected : List Source)
    → has_no_ids ids ≡ false
    → length ids ≤ 2
    → select [] ids ≡ ok selected
    → IsSelection (sort_sources selected)
unfolding select
select-IsSelection [] selected some_id two h = absurd (ground arith)
select-IsSelection (a ∷ b ∷ c ∷ ids) selected some_id two h = absurd (omega arith)
select-IsSelection (a ∷ []) selected some_id two h =
    let (s, rest, f, new, e, same) = select_step a [] [] selected h in
    let alone : s ∷ [] ≡ selected = ap (λ r. s ∷ r) (ok_inj e) ∙ same in
    subst (λ l. IsSelection (sort_sources l)) alone
      (one_selected s (elim (find_source-cases a s f) [ inl (x, y) ↦ inl y | inr (x, y) ↦ inr y ]))
select-IsSelection (a ∷ b ∷ []) selected some_id two h =
    let (s, rest, f, new, e, same) = select_step a [] (b ∷ []) selected h in
    let (t, rest', f', new', e', same') = select_step b (set_insert a []) [] rest e in
    let pair : s ∷ t ∷ [] ≡ selected =
      ap (λ r. s ∷ t ∷ r) (ok_inj e') ∙ ap (λ r. s ∷ r) same' ∙ same in
    subst (λ l. IsSelection (sort_sources l)) pair
      (elim (find_source-cases a s f) [
        | inl (x, y) ↦ elim (find_source-cases b t f') [
          | inl (x', y') ↦ absurd (not_twice a b (x ∙ sym x') new')
          | inr (x', y') ↦ inr (inr (rw (y, y') both_sorted))
        ]
        | inr (x, y) ↦ elim (find_source-cases b t f') [
          | inl (x', y') ↦ inr (inr (rw (y, y') both_swapped))
          | inr (x', y') ↦ absurd (not_twice a b (x ∙ sym x') new')
        ]
      ])

validate_refresh-IsSelection :
    (request : RefreshRequest) (selected : List Source)
    → validate_refresh request ≡ ok selected
    → IsSelection selected × (request.network_budget ≤ 29800)
unfolding validate_refresh
validate_refresh-IsSelection request selected h = elim (Result-cases (select [] request.ids)) [
  | inr (m, e) ↦ absurd (ground arith)
  | inl (picked, e) ↦
      let same : sort_sources picked ≡ selected = ground (arith, h, e) in
      (
        subst IsSelection same
            (select-IsSelection request.ids picked (ground arith) (ground arith) e),
        ground arith,
      )
]

-- The downloads that passed the checks, in the order of their sources.
abbrev pub AreAccepted : List Source → List Compile.Source → Type 0
AreAccepted [] [] = Unit
AreAccepted [] (c ∷ texts) = ⊥
AreAccepted (s ∷ selected) [] = ⊥
AreAccepted (s ∷ selected) (c ∷ texts) =
    (c.id ≡ s.id) × ((d : Download) × (validate_list d s ≡ ok c.text)) × AreAccepted selected texts

-- A text that fits passes the check on its size.
abbrev Fits : Compile.Source → Type 0
Fits c = (len c.text ≤ 8388608) × (length (lines c.text) ≤ 300000)

check_one :
    (s : Source) (texts : List Compile.Source)
    → one_of Compile.known_sources s.id ≡ true
    → AreAccepted (s ∷ []) texts
    → (check_sources [] texts ≡ ok tt) × (Compile.is_empty_list texts ≡ false)
unfolding check_sources set_contains
check_one s [] known a = absurd a
check_one s (c ∷ []) known (same, (d, checked), rest) =
    let (small, few) = validate_list-bounded d s c.text checked in
    (ground (arith, same, known, small, few), refl)
check_one s (c ∷ c' ∷ texts) known (same, checked, rest) = absurd rest

check_two :
    (texts : List Compile.Source)
    → AreAccepted (easylist ∷ easyprivacy ∷ []) texts
    → (check_sources [] texts ≡ ok tt) × (Compile.is_empty_list texts ≡ false)
unfolding check_sources set_insert set_contains
check_two [] a = absurd a
check_two (c ∷ []) (same, checked, rest) = absurd rest
check_two (c ∷ c' ∷ []) (same, (d, checked), (same', (d', checked'), rest)) =
    let (small, few) = validate_list-bounded d easylist c.text checked in
    let (small', few') = validate_list-bounded d' easyprivacy c'.text checked' in
    (rw (same, same') (ground (arith, small, few, small', few')), refl)
check_two (c ∷ c' ∷ c'' ∷ texts) (same, checked, (same', checked', rest)) = absurd rest

accepted-check_sources :
    (selected : List Source) (texts : List Compile.Source)
    → IsSelection selected
    → AreAccepted selected texts
    → (check_sources [] texts ≡ ok tt) × (Compile.is_empty_list texts ≡ false)
accepted-check_sources selected texts (inl e) a =
    check_one easylist texts refl (subst (λ l. AreAccepted l texts) e a)
accepted-check_sources selected texts (inr (inl e)) a =
    check_one easyprivacy texts refl (subst (λ l. AreAccepted l texts) e a)
accepted-check_sources selected texts (inr (inr e)) a =
    check_two texts (subst (λ l. AreAccepted l texts) e a)

-- The compiler refuses accepted downloads of a valid request for one reason only: that their exceptions
-- exceed the budget.
pub compile-accepted :
    (show : BrowserRule → Str) (show_hide : List Str → List Str → Str → Str)
    (request : RefreshRequest) (selected : List Source) (texts : List Compile.Source)
    (message : String)
    → validate_refresh request ≡ ok selected
    → AreAccepted selected texts
    → compile_subscriptions show show_hide texts request.network_budget ≡ err message
    → message
      ≡ "Supported exceptions exceed the browser rule budget; previous rules must be retained"
unfolding compile_subscriptions within_budget
compile-accepted show show_hide request selected texts message h a refused =
    let (selection, small) = validate_refresh-IsSelection request selected h in
    let (checked, there) = accepted-check_sources selected texts selection a in
    ground (arith, small, checked, there, refused)
