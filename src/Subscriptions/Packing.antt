-- ===== src/Subscriptions/Packing.antt =====
-- companion/src/subscription_rules.rs, `pack_network`: compacting changes no rule's meaning, where
-- different rules have different texts.
use mathlib.Core.Option
use not_another_ad_blocker.Prelude.{
  ℕ, zero, suc, ◌≤◌, ◌≡◌, refl, sym, ◌∙◌, ap, subst, true, false, List, [], ◌∷◌, Option, none, some,
  some_inj, take, drop, length, length-drop, length-take, take-append-drop, arith, All, Any,
  All-map, inl, inr, ◌⊎◌, Bool-cases, Option-cases, ◌++◌,
}
use not_another_ad_blocker.Text.{Str, codes, str_eq, to_ascii_lowercase}
use not_another_ad_blocker.Text.Laws.{eq_of_str_eq, str_eq_refl}
use not_another_ad_blocker.Text.Ordered.{
  get, insert, get-insert, set_insert, set_contains, contains-insert,
}
use not_another_ad_blocker.Subscriptions.Network.{BrowserRule}
use not_another_ad_blocker.Subscriptions.Pack.{
  packed_host, with_hosts, chunks_from, Group, add_host,
}
use not_another_ad_blocker.Subscriptions.Steps.{IsInjective}
use not_another_ad_blocker.Subscriptions.Syntax.{host_valid}
use not_another_ad_blocker.Subscriptions.WholeHosts.{packed_host-IsWholeHost}

contains-append :
    (h : Str) (xs ys : List Str)
    → set_contains h (xs ++ ys) ≡ true
    → (set_contains h xs ≡ true) ⊎ (set_contains h ys ≡ true)
unfolding set_contains
contains-append h [] ys e = inr e
contains-append h (x ∷ xs) ys e = elim (Bool-cases (str_eq x h)) [
  | inl same ↦ inl (ground arith)
  | inr other ↦ elim (contains-append h xs ys (ground arith)) [
    | inl l ↦ inl (ground arith)
    | inr r ↦ inr r
  ]
]

contains-take :
    (h : Str) (n : ℕ) (xs : List Str) → set_contains h (take n xs) ≡ true → set_contains h xs ≡ true
unfolding set_contains
contains-take h zero xs e = absurd (ground arith)
contains-take h (suc n) [] e = e
contains-take h (suc n) (x ∷ xs) e = ground (arith, contains-take h n xs)

contains-drop :
    (h : Str) (n : ℕ) (xs : List Str) → set_contains h (drop n xs) ≡ true → set_contains h xs ≡ true
unfolding set_contains
contains-drop h zero xs e = e
contains-drop h (suc n) [] e = e
contains-drop h (suc n) (x ∷ xs) e = ground (arith, contains-drop h n xs)

-- A chunk of at most 1000 that holds the hostname.
abbrev pub IsChunkOf : Str → List Str → Type 0
IsChunkOf h hosts = (set_contains h hosts ≡ true) × (length hosts ≤ 1000)

pub chunks_from-Any :
    (h : Str) (fuel : ℕ) (xs : List Str)
    → length xs ≤ fuel
    → set_contains h xs ≡ true
    → Any (IsChunkOf h) (chunks_from fuel 1000 xs)
unfolding chunks_from set_contains
chunks_from-Any h fuel [] enough e = absurd (ground arith)
chunks_from-Any h zero (x ∷ xs) enough e = absurd (omega arith)
chunks_from-Any h (suc fuel) (x ∷ xs) enough e =
    elim (contains-append h (take 1000 (x ∷ xs)) (drop 1000 (x ∷ xs))
      (subst (λ l. set_contains h l ≡ true) (sym (take-append-drop 1000 (x ∷ xs))) e)) [
        | inl l ↦ inl (l, omega (arith, length-take {0} 1000 (x ∷ xs)))
        | inr r ↦ inr (
            chunks_from-Any h fuel (drop 1000 (x ∷ xs))
              (omega (arith, length-drop {0} 1000 (x ∷ xs))) r)
      ]

-- The chunks have no other hostnames.
pub chunks_from-All :
    (fuel : ℕ) (xs : List Str)
    → All
        (λ hosts.
          (length hosts ≤ 1000)
          × ((h : Str) → set_contains h hosts ≡ true → set_contains h xs ≡ true))
        (chunks_from fuel 1000 xs)
unfolding chunks_from
chunks_from-All zero xs = tt
chunks_from-All (suc fuel) [] = tt
chunks_from-All (suc fuel) (x ∷ xs) = (
  (omega (arith, length-take {0} 1000 (x ∷ xs)), λ h e. contains-take h 1000 (x ∷ xs) e),
  All-map (λ hosts (short, inside). (short, λ h e. contains-drop h 1000 (x ∷ xs) (inside h e)))
      (chunks_from fuel 1000 (drop 1000 (x ∷ xs))) (chunks_from-All fuel (drop 1000 (x ∷ xs))),
)

-- What the groups give out for a rule, by how it is packed.
abbrev pub ServesAs : Option (BrowserRule × Str) → BrowserRule → BrowserRule → Type 0
ServesAs none r o = o ≡ r
ServesAs (some (template, host)) r o =
    (hosts : List Str) × (o ≡ with_hosts hosts template)
    × (set_contains host hosts ≡ true)
    × (length hosts ≤ 1000)

-- A rule for up to 1000 hostnames stands for a rule whose pattern is one of them between its marks
-- and nothing else, and agrees with it in all else.
pub record IsPackedFor (r o : BrowserRule) : Type 0 where
  pub written : Str
  pub hosts : List Str
  pub pattern : r.condition.url_filter ≡ some (codes "||" ++ (written ++ codes "^"))
  pub valid : host_valid written ≡ true
  pub lax : r.condition.case_sensitive ≡ false
  pub inside : set_contains (to_ascii_lowercase written) hosts ≡ true
  pub short : length hosts ≤ 1000
  pub same : o ≡ record {
    priority = r.priority;
    action = r.action;
    condition = record {
      url_filter = none;
      domain_type = r.condition.domain_type;
      case_sensitive = r.condition.case_sensitive;
      initiator_domains = r.condition.initiator_domains;
      excluded_initiator_domains = r.condition.excluded_initiator_domains;
      types = r.condition.types;
      request_domains = some hosts;
    };
  }

-- The rule that is given out for one that was collected: the rule itself, or one that it is packed in.
abbrev pub Serves : BrowserRule → BrowserRule → Type 0
Serves r o = (o ≡ r) ⊎ IsPackedFor r o

pub ServesAs-Serves : (r o : BrowserRule) → ServesAs (packed_host r) r o → Serves r o
ServesAs-Serves r o s = by_packing (packed_host r) refl s
  where
    by_packing :
        (packed : Option (BrowserRule × Str))
        → packed_host r ≡ packed
        → ServesAs packed r o
        → Serves r o
    by_packing none e same = inl same
    by_packing (some (template, host)) e (hosts, same, inside, short) =
        let whole = packed_host-IsWholeHost r template host e in
        inr (record {
          written = whole.written;
          hosts = hosts;
          pattern = whole.pattern;
          valid = whole.valid;
          lax = whole.lax;
          inside = rw whole.lowered inside;
          short = short;
          same = same ∙ ap (with_hosts hosts) whole.shared;
        })

module _ (show : BrowserRule → Str) (injective : IsInjective show) where
  -- Insertions under the text of the rule displace no other rule.
  pub insert_shown :
      (r s : BrowserRule) (m : List (Str × BrowserRule))
      → get (show r) m ≡ some r
      → get (show r) (insert (show s) s m) ≡ some r
  insert_shown r s m h = elim (Bool-cases (str_eq (show s) (show r))) [
    | inl e ↦
        let equal : s ≡ r = injective s r (eq_of_str_eq (show s) (show r) e) in
        ground (arith, get-insert (show s) (show r) s m, equal)
    | inr e ↦ ground (arith, get-insert (show s) (show r) s m)
  ]

  pub insert_itself :
      (r : BrowserRule) (m : List (Str × BrowserRule)) → get (show r) (insert (show r) r m) ≡ some r
  insert_itself r m = ground (arith, get-insert (show r) (show r) r m, str_eq_refl (show r))

  -- Each group stands under the text of what its rules share.
  abbrev pub AreKeyed : List (Str × Group) → Type 0
  AreKeyed groups = (k : Str) (g : Group) → get k groups ≡ some g → k ≡ show g.0

  pub old_group :
      (template : BrowserRule) (groups : List (Str × Group))
      → AreKeyed groups
      → (Option.get_or (get (show template) groups) (template, [])).0 ≡ template
  old_group template groups keyed = elim (Option-cases (get (show template) groups)) [
    | inl e ↦ rw e refl
    | inr (g, e) ↦ rw e (injective g.0 template (sym (keyed (show template) g e)))
  ]

  pub add_host-AreKeyed :
      (template : BrowserRule) (host : Str) (groups : List (Str × Group))
      → AreKeyed groups
      → AreKeyed (add_host show template host groups)
  unfolding add_host
  add_host-AreKeyed template host groups keyed k g found =
      let old = Option.get_or (get (show template) groups) (template, []) in
      let new : Group = (old.0, set_insert host old.1) in
      elim (Bool-cases (str_eq (show template) k)) [
        | inl e ↦
            let here : new ≡ g =
              some_inj (sym (ground (arith, get-insert (show template) k new groups)) ∙ found) in
            sym (eq_of_str_eq (show template) k e)
            ∙ ap show (sym (old_group template groups keyed) ∙ ap (λ (x : Group). x.0) here)
        | inr e ↦ keyed k g (ground (arith, get-insert (show template) k new groups))
      ]

  -- The groups hold the hostname for the template.
  abbrev pub HasHost : BrowserRule → Str → List (Str × Group) → Type 0
  HasHost template host groups =
      (hosts : List Str) × (get (show template) groups ≡ some (template, hosts))
      × (set_contains host hosts ≡ true)

  pub add_host_found :
      (template : BrowserRule) (host : Str) (groups : List (Str × Group))
      → AreKeyed groups
      → get (show template) (add_host show template host groups)
        ≡ some (
          template,
          set_insert host (Option.get_or (get (show template) groups) (template, [])).1,
        )
  unfolding add_host
  add_host_found template host groups keyed =
      let old = Option.get_or (get (show template) groups) (template, []) in
      let new : Group = (old.0, set_insert host old.1) in
      let found : get (show template) (insert (show template) new groups) ≡ some new = ground (
        arith,
        get-insert (show template) (show template) new groups,
        str_eq_refl (show template),
      ) in
      found
      ∙ ap (λ (t : BrowserRule). some (t, set_insert host old.1)) (old_group template groups keyed)

  pub add_host-HasHost :
      (template : BrowserRule) (host : Str) (groups : List (Str × Group))
      → AreKeyed groups
      → HasHost template host (add_host show template host groups)
  add_host-HasHost template host groups keyed =
      let old = Option.get_or (get (show template) groups) (template, []) in
      (
        set_insert host old.1,
        add_host_found template host groups keyed,
        ground (arith, contains-insert host host old.1, str_eq_refl host),
      )

  pub add_host-keeps :
      (template t : BrowserRule) (host h : Str) (groups : List (Str × Group))
      → AreKeyed groups
      → HasHost t h groups
      → HasHost t h (add_host show template host groups)
  unfolding add_host
  add_host-keeps template t host h groups keyed (hosts, found, inside) =
      elim (Bool-cases (str_eq (show template) (show t))) [
        | inr e ↦ (
          hosts,
          ground (
            arith,
            get-insert (show template) (show t)
                (
                  (Option.get_or (get (show template) groups) (template, [])).0,
                  set_insert host (Option.get_or (get (show template) groups) (template, [])).1,
                )
                groups,
          ),
          inside,
        )
        | inl e ↦
            let equal : template ≡ t =
              injective template t (eq_of_str_eq (show template) (show t) e) in
            let old = Option.get_or (get (show template) groups) (template, []) in
            let same_old : old ≡ (t, hosts) =
              ap (λ (x : BrowserRule). Option.get_or (get (show x) groups) (x, [])) equal
              ∙ ap (λ (o : Option Group). Option.get_or o (t, [])) found in
            (
              set_insert host old.1,
              subst
                  (λ (x : BrowserRule).
                    get (show x) (add_host show template host groups)
                    ≡ some (x, set_insert host old.1))
                  equal (add_host_found template host groups keyed),
              ground (
                arith,
                contains-insert host h old.1,
                ap (λ (g : Group). set_contains h g.1) same_old,
              ),
            )
      ]
