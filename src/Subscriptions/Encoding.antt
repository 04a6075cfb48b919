-- ===== src/Subscriptions/Encoding.antt =====
-- Texts for the rules, different ones for different rules: numbers stand for the texts of
-- `serde_json` in the examples of companion/src/subscription_rules.rs.
use not_another_ad_blocker.Prelude.{
  ℕ, ◌≡◌, refl, sym, ap, ◌∙◌, Bool, true, false, List, [], ◌∷◌, ◌++◌, Option, none, some, arith,
}
use not_another_ad_blocker.Text.{Str}
use not_another_ad_blocker.Subscriptions.Network.{BrowserRule}
use not_another_ad_blocker.Subscriptions.Steps.{IsInjective}

-- What follows a text can be told from it.
abbrev IsCode : {A : Type 0} → (A → Str) → Type 0
IsCode {A} f = (a b : A) (u v : Str) → f a ++ u ≡ f b ++ v → (a ≡ b) × (u ≡ v)

abbrev of_nat : ℕ → Str
of_nat n = n ∷ []

abbrev of_bool : Bool → Str
of_bool true = 1 ∷ []
of_bool false = 0 ∷ []

abbrev of_option : {A : Type 0} → (A → Str) → Option A → Str
of_option f none = 0 ∷ []
of_option f (some a) = 1 ∷ f a

abbrev of_list : {A : Type 0} → (A → Str) → List A → Str
of_list f [] = 0 ∷ []
of_list f (a ∷ as') = 1 ∷ (f a ++ of_list f as')

abbrev of_pair : {A B : Type 0} → (A → Str) → (B → Str) → A × B → Str
of_pair f g (a, b) = f a ++ g b

of_nat-IsCode : IsCode of_nat
of_nat-IsCode a b u v e = (cc, cc)

of_bool-IsCode : IsCode of_bool
of_bool-IsCode true true u v e = (refl, cc)
of_bool-IsCode false false u v e = (refl, cc)
of_bool-IsCode true false u v e = absurd (ground arith)
of_bool-IsCode false true u v e = absurd (ground arith)

append_assoc : (a b c : Str) → (a ++ b) ++ c ≡ a ++ (b ++ c)
append_assoc [] b c = refl
append_assoc (x ∷ a) b c = ap (λ s. x ∷ s) (append_assoc a b c)

of_option-IsCode : {A : Type 0} (f : A → Str) → IsCode f → IsCode (of_option f)
of_option-IsCode f c none none u v e = (refl, cc)
of_option-IsCode f c (some a) (some b) u v e =
    let (same, rest) = c a b u v cc in (ap some same, rest)
of_option-IsCode f c none (some b) u v e = absurd (cc)
of_option-IsCode f c (some a) none u v e = absurd (cc)

of_list-IsCode : {A : Type 0} (f : A → Str) → IsCode f → IsCode (of_list f)
of_list-IsCode f c [] [] u v e = (refl, cc)
of_list-IsCode f c (a ∷ as') (b ∷ bs) u v e =
    let inner : (f a ++ of_list f as') ++ u ≡ (f b ++ of_list f bs) ++ v = cc in
    let tail : f a ++ (of_list f as' ++ u) ≡ f b ++ (of_list f bs ++ v) =
      sym (append_assoc (f a) (of_list f as') u) ∙ inner ∙ append_assoc (f b) (of_list f bs) v in
    let (same, rest) = c a b (of_list f as' ++ u) (of_list f bs ++ v) tail in
    let (sames, left) = of_list-IsCode f c as' bs u v rest in (cc, left)
of_list-IsCode f c [] (b ∷ bs) u v e = absurd (cc)
of_list-IsCode f c (a ∷ as') [] u v e = absurd (cc)

of_pair-IsCode :
    {A B : Type 0} (f : A → Str) (g : B → Str) → IsCode f → IsCode g → IsCode (of_pair f g)
of_pair-IsCode f g c d (a, x) (b, y) u v e =
    let (same, rest) =
      c a b (g x ++ u) (g y ++ v)
        (sym (append_assoc (f a) (g x) u) ∙ e ∙ append_assoc (f b) (g y) v) in
    let (same', left) = d x y u v rest in (cc, left)

abbrev Fields : Type 0
Fields =
    ℕ
    × (Str
        × (Option Str
            × (Option Str
                × (Bool
                    × (Option (List Str) × (Option (List Str) × (List Str × Option (List Str))))))))

abbrev fields : BrowserRule → Fields
fields r =
    let c = r.condition in
    (
      r.priority,
      (
        r.action,
        (
          c.url_filter,
          (
            c.domain_type,
            (
              c.case_sensitive,
              (c.initiator_domains, (c.excluded_initiator_domains, (c.types, c.request_domains))),
            ),
          ),
        ),
      ),
    )

abbrev of_fields : Fields → BrowserRule
of_fields (p, (a, (u, (d, (s, (i, (e, (t, r)))))))) = record {
  priority = p;
  action = a;
  condition = record {
    url_filter = u;
    domain_type = d;
    case_sensitive = s;
    initiator_domains = i;
    excluded_initiator_domains = e;
    types = t;
    request_domains = r;
  };
}

abbrev pub of_text : Str → Str
of_text = of_list of_nat

abbrev of_texts : List Str → Str
of_texts = of_list of_text

abbrev of_kinds : List Str × Option (List Str) → Str
of_kinds = of_pair of_texts (of_option of_texts)

abbrev of_excluded : Option (List Str) × (List Str × Option (List Str)) → Str
of_excluded = of_pair (of_option of_texts) of_kinds

abbrev of_included : Option (List Str) × (Option (List Str) × (List Str × Option (List Str))) → Str
of_included = of_pair (of_option of_texts) of_excluded

abbrev of_case :
    Bool × (Option (List Str) × (Option (List Str) × (List Str × Option (List Str)))) → Str
of_case = of_pair of_bool of_included

abbrev of_domain :
    Option Str × (Bool × (Option (List Str) × (Option (List Str) × (List Str × Option (List Str)))))
    → Str
of_domain = of_pair (of_option of_text) of_case

abbrev of_filter :
    Option Str
      × (Option Str
          × (Bool × (Option (List Str) × (Option (List Str) × (List Str × Option (List Str))))))
    → Str
of_filter = of_pair (of_option of_text) of_domain

abbrev of_action :
    Str
      × (Option Str
          × (Option Str
              × (Bool
                  × (Option (List Str) × (Option (List Str) × (List Str × Option (List Str)))))))
    → Str
of_action = of_pair of_text of_filter

abbrev pub show_example : BrowserRule → Str
show_example r = of_pair of_nat of_action (fields r)

abbrev pub show_hide_example : List Str → List Str → Str → Str
show_hide_example domains excluded selector =
    of_texts domains ++ (of_texts excluded ++ of_text selector)

of_text-IsCode : IsCode of_text
of_text-IsCode = of_list-IsCode of_nat of_nat-IsCode

of_texts-IsCode : IsCode of_texts
of_texts-IsCode = of_list-IsCode of_text of_text-IsCode

append_nil : (s : Str) → s ++ [] ≡ s
append_nil [] = refl
append_nil (x ∷ s) = ap (λ t. x ∷ t) (append_nil s)

-- Different rules have different texts.
pub show_example-IsInjective : IsInjective show_example
show_example-IsInjective r s e =
    let maybe = of_option-IsCode of_texts of_texts-IsCode in
    let maybe_one = of_option-IsCode of_text of_text-IsCode in
    let (same, rest) =
      of_pair-IsCode of_nat of_action of_nat-IsCode
        (of_pair-IsCode of_text of_filter of_text-IsCode (
          of_pair-IsCode (of_option of_text) of_domain maybe_one (
            of_pair-IsCode (of_option of_text) of_case maybe_one (
              of_pair-IsCode of_bool of_included of_bool-IsCode (
                of_pair-IsCode (of_option of_texts) of_excluded maybe (
                  of_pair-IsCode (of_option of_texts) of_kinds maybe
                    (of_pair-IsCode of_texts (of_option of_texts) of_texts-IsCode maybe)))))))
        (fields r) (fields s) [] []
        (append_nil (show_example r) ∙ e ∙ sym (append_nil (show_example s))) in
    ap of_fields same
