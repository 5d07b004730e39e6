-- ===== src/Ingress/Order.antt =====
-- The order of a host's group, `Less`, against a direct description.
use mathlib.Core.Path.{subst, fun_ext}
use minke.Base.{
  Bool, true, false, Option, none, some, if◌then◌else◌, ◌≡◌, ◌↔◌, inl, inr, refl, arith, ap, sym,
  ◌∙◌, Bool-cases,
}
use minke.Base.Int.{ℤ, ltb_ℤ, ltb_ℤ-asym, ltb_ℤ-neg_trans, ltb_ℤ-total}
use minke.GoText.{str_lt}
use minke.GoText.Order.{str_lt_asym, str_lt_neg_trans, str_lt_total}
use minke.Ingress.{Ingress, less}

-- A test that orders strictly, up to ties.
pub record IsStrictWeak {ℓ} {A : Type ℓ} (lt : A → A → Bool) : Type ℓ where
  pub asym : (a b : A) → lt a b ≡ true → lt b a ≡ false
  pub neg_trans : (a b c : A) → lt b a ≡ false → lt c b ≡ false → lt c a ≡ false

module _ {ℓ} {A : Type ℓ} where
  -- By the first test, and where it ties by the second.
  abbrev lex : (A → A → Bool) → (A → A → Bool) → A → A → Bool
  lex lt lt' a b = if lt a b then true else if lt b a then false else lt' a b

  lex-IsStrictWeak :
      (lt lt' : A → A → Bool) → IsStrictWeak lt → IsStrictWeak lt' → IsStrictWeak (lex lt lt')
  lex-IsStrictWeak lt lt' p q = record {
    asym = λ a b h. ground (arith, p.asym a b, p.asym b a, q.asym a b);
    neg_trans = λ a b c h k. ground (
      arith,
      p.asym a b,
      p.asym b a,
      p.asym b c,
      p.asym c b,
      p.asym a c,
      p.asym c a,
      p.neg_trans a b c,
      p.neg_trans c b a,
      p.neg_trans b c a,
      p.neg_trans b a c,
      p.neg_trans a c b,
      p.neg_trans c a b,
      q.neg_trans a b c,
    );
  }

-- An ingress with no priority comes before those with one.
abbrev priority_lt : Option ℤ → Option ℤ → Bool
priority_lt none none = false
priority_lt none (some b) = true
priority_lt (some a) none = false
priority_lt (some a) (some b) = ltb_ℤ a b

priority_lt-IsStrictWeak : IsStrictWeak priority_lt
priority_lt-IsStrictWeak = record { asym = asym; neg_trans = neg_trans }
  where
    asym : (a b : Option ℤ) → priority_lt a b ≡ true → priority_lt b a ≡ false
    asym none none h = refl
    asym none (some b) h = refl
    asym (some a) none h = cc
    asym (some a) (some b) h = ltb_ℤ-asym a b h

    neg_trans :
        (a b c : Option ℤ)
        → priority_lt b a ≡ false
        → priority_lt c b ≡ false
        → priority_lt c a ≡ false
    neg_trans none none c h k = k
    neg_trans none (some b) none h k = refl
    neg_trans none (some b) (some c) h k = refl
    neg_trans (some a) none c h k = cc
    neg_trans (some a) (some b) none h k = cc
    neg_trans (some a) (some b) (some c) h k = ltb_ℤ-neg_trans a b c h k

str_lt-IsStrictWeak : IsStrictWeak str_lt
str_lt-IsStrictWeak = record { asym = str_lt_asym; neg_trans = str_lt_neg_trans }

on-IsStrictWeak :
    {A B : Type 0} (f : A → B) (lt : B → B → Bool)
    → IsStrictWeak lt
    → IsStrictWeak (λ a b. lt (f a) (f b))
on-IsStrictWeak f lt p = record {
  asym = λ a b. p.asym (f a) (f b);
  neg_trans = λ a b c. p.neg_trans (f a) (f b) (f c);
}

abbrev lex_less : Ingress → Ingress → Bool
lex_less =
    lex (λ a b. priority_lt a.priority b.priority)
      (lex (λ a b. str_lt a.name b.name) (λ a b. str_lt a.namespace b.namespace))

less-eq-lex_less : (a b : Ingress) → less a b ≡ lex_less a b
unfolding less
less-eq-lex_less a b = ground arith

-- The test Less is a strict weak order, as sort.Sort asks: it never holds both ways, and where it
-- fails from a to b and from b to c it fails from a to c.
pub less-IsStrictWeak : IsStrictWeak less
less-IsStrictWeak = subst IsStrictWeak (sym same) weak
  where
    same : less ≡ lex_less
    same = fun_ext (λ a. fun_ext (λ b. less-eq-lex_less a b))

    weak : IsStrictWeak lex_less
    weak =
        lex-IsStrictWeak _ _
          (on-IsStrictWeak (λ (i : Ingress). i.priority) priority_lt priority_lt-IsStrictWeak)
          (lex-IsStrictWeak _ _
            (on-IsStrictWeak (λ (i : Ingress). i.name) str_lt str_lt-IsStrictWeak)
            (on-IsStrictWeak (λ (i : Ingress). i.namespace) str_lt str_lt-IsStrictWeak))

-- One ingress comes before another: it has no priority and the other has one, or the lower of two
-- priorities, or with the same priority the smaller name, or with that the smaller namespace.
pub data Precedes (a b : Ingress) : Type 0 where
  unset : {q : ℤ} → a.priority ≡ none → b.priority ≡ some q → Precedes a b
  lower : {p q : ℤ} → a.priority ≡ some p → b.priority ≡ some q → ltb_ℤ p q ≡ true → Precedes a b
  by_name : a.priority ≡ b.priority → str_lt a.name b.name ≡ true → Precedes a b
  by_namespace :
      a.priority ≡ b.priority
      → a.name ≡ b.name
      → str_lt a.namespace b.namespace ≡ true
      → Precedes a b

priority_cases :
    (a b : Ingress) (p q : Option ℤ)
    → a.priority ≡ p
    → b.priority ≡ q
    → (priority_lt a.priority b.priority ≡ true)
    → Precedes a b
priority_cases a b none none e f h = absurd (ground arith)
priority_cases a b none (some y) e f h = unset e f
priority_cases a b (some x) none e f h = absurd (ground arith)
priority_cases a b (some x) (some y) e f h = lower e f (ground arith)

priority_total : (p q : Option ℤ) → priority_lt p q ≡ false → priority_lt q p ≡ false → p ≡ q
priority_total none none h k = refl
priority_total none (some y) h k = cc
priority_total (some x) none h k = cc
priority_total (some x) (some y) h k = ap some (ltb_ℤ-total x y h k)

lex_less-Precedes : (a b : Ingress) → lex_less a b ≡ true → Precedes a b
lex_less-Precedes a b h = elim (Bool-cases (priority_lt a.priority b.priority)) [
  | inl p ↦ priority_cases a b a.priority b.priority refl refl p
  | inr p ↦
      let p' : priority_lt b.priority a.priority ≡ false = ground arith in
      let e : a.priority ≡ b.priority = priority_total a.priority b.priority p p' in
      elim (Bool-cases (str_lt a.name b.name)) [
        | inl n ↦ by_name e n
        | inr n ↦
            let n' : str_lt b.name a.name ≡ false = ground arith in
            by_namespace e (str_lt_total a.name b.name n n') (ground arith)
      ]
]

priority_irrefl : (p : Option ℤ) → priority_lt p p ≡ false
priority_irrefl p = ground (arith, priority_lt-IsStrictWeak.asym p p)

Precedes-lex_less : (a b : Ingress) → Precedes a b → lex_less a b ≡ true
Precedes-lex_less a b (unset e f) = ground arith
Precedes-lex_less a b (lower e f h) = ground arith
Precedes-lex_less a b (by_name e h) = ground (arith, priority_irrefl b.priority)
Precedes-lex_less a b (by_namespace e n h) =
    ground (arith, priority_irrefl b.priority, str_lt_asym b.name b.name)

-- The test Less holds exactly if the first ingress has no priority and the second has one, or both
-- have one and the first is lower, or the priorities are the same and the first name is smaller,
-- or the names are the same too and the first namespace is smaller. Where it orders two ingresses
-- neither way, they have the same priority, name and namespace.
pub less_iff :
    (a b : Ingress)
    → ((less a b ≡ true) ↔ Precedes a b)
      × (((less a b ≡ false) × (less b a ≡ false))
          ↔ ((a.priority ≡ b.priority) × (a.name ≡ b.name) × (a.namespace ≡ b.namespace)))
less_iff a b = (
  (
    λ h. lex_less-Precedes a b (sym (less-eq-lex_less a b) ∙ h),
    λ p. less-eq-lex_less a b ∙ Precedes-lex_less a b p,
  ),
  (
    λ h. ties h.0 h.1,
    λ h. (
      less-eq-lex_less a b ∙ back a b h.0 h.1 h.2,
      less-eq-lex_less b a ∙ back b a (sym h.0) (sym h.1) (sym h.2),
    ),
  ),
)
  where
    ties :
        less a b ≡ false
        → less b a ≡ false
        → (a.priority ≡ b.priority) × (a.name ≡ b.name) × (a.namespace ≡ b.namespace)
    ties h k =
        let h' : lex_less a b ≡ false = sym (less-eq-lex_less a b) ∙ h in
        let k' : lex_less b a ≡ false = sym (less-eq-lex_less b a) ∙ k in
        (
          priority_total a.priority b.priority (ground arith) (ground arith),
          str_lt_total a.name b.name (ground arith) (ground arith),
          str_lt_total a.namespace b.namespace (ground arith) (ground arith),
        )

    back :
        (a b : Ingress)
        → a.priority ≡ b.priority
        → a.name ≡ b.name
        → a.namespace ≡ b.namespace
        → lex_less a b ≡ false
    back a b e n s = ground (
      arith,
      priority_irrefl b.priority,
      str_lt_asym b.name b.name,
      str_lt_asym b.namespace b.namespace,
    )
