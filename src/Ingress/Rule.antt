-- ===== src/Ingress/Rule.antt =====
-- The call of `matchRule` on one rule: its panics, its lengths and its exact matches.
use mathlib.Core.List.{append-nil}
use minke.Base.{
  ℕ, ◌+◌, ◌≤◌, Bool, true, false, ◌&&◌, not, List, [], ◌∷◌, ◌++◌, none, some, if◌then◌else◌, ◌==◌,
  ℕ_eq, List_ℕ-eq, length, get_elem?, ◌≡◌, ◌≢◌, ◌⊎◌, inl, inr, refl, arith, ap, ◌∙◌, Bool-cases,
  Option-cases, length-append, ==_iff,
}
use minke.GoText.{GoString, bytes, has_prefix, has_suffix}
use minke.GoText.Laws.{split_prefix, has_prefix-append}
use minke.Panic.{Run, ret, throw}
use minke.Http.{Request}
use minke.Ingress.{
  PathType, glob, prefix, exact, re2, unknown, Regexp, IngressRule, slash_at, match_under,
  glob_sub_path, match_glob, match_re, match_path, match_rule,
}

-- A rule of type re2 has its compiled expression.
abbrev pub IsCompiled : IngressRule → Type 0
IsCompiled rule = rule.path_type ≡ re2 → rule.re ≢ none

-- The result of a call that returns, and no match where it panics.
abbrev pub result_or {ℓ} : {A : Type ℓ} → A → Run A → A
result_or d (ret a) = a
result_or d (throw p) = d

-- What a rule makes of a request, where it does not panic.
unfoldable pub measure : IngressRule → Request → ℕ × Bool
measure rule r = result_or (0, false) (match_rule rule r)

get_elem?-append : (p t : GoString) (c : ℕ) → get_elem? (p ++ c ∷ t) (length p) ≡ some c
get_elem?-append [] t c = refl
get_elem?-append (d ∷ p) t c = get_elem?-append p t c

-- `match_under` by the rest of the path.
abbrev pub rest_match : GoString → GoString → ℕ × Bool
rest_match sub [] = (length sub, false)
rest_match sub (c ∷ t) =
    if sub == bytes "/"
    then (length sub, false)
    else if c == b'/'
    then (length sub + 1, false)
    else (0, false)

pub match_under-append : (sub t : GoString) → match_under sub (sub ++ t) ≡ ret (rest_match sub t)
unfolding match_under slash_at
match_under-append sub [] = ground (arith, has_prefix-append sub [], append-nil sub)
match_under-append sub (c ∷ t) =
    ground
      (arith, has_prefix-append sub (c ∷ t), get_elem?-append sub t c, length-append sub (c ∷ t))

pub match_under_other :
    (sub path : GoString) → has_prefix path sub ≡ false → match_under sub path ≡ ret (0, false)
unfolding match_under
match_under_other sub path h = rw h

-- The two ways in which a path can meet a prefix.
pub under_cases :
    (sub path : GoString)
    → (match_under sub path ≡ ret (0, false))
      ⊎ ((t : GoString) × (path ≡ sub ++ t) × (match_under sub path ≡ ret (rest_match sub t)))
under_cases sub path = elim (Bool-cases (has_prefix path sub)) [
  | inl h ↦
      let (t, e) = split_prefix path sub h in
      inr (t, e, ap (match_under sub) e ∙ match_under-append sub t)
  | inr h ↦ inl (match_under_other sub path h)
]

-- A call that returns an inexact match, no longer than the path.
abbrev Within : GoString → Run (ℕ × Bool) → Type 0
Within path m = (l : ℕ) × (m ≡ ret (l, false)) × (l ≤ length path)

rest_match-Within : (sub t : GoString) → Within (sub ++ t) (ret (rest_match sub t))
rest_match-Within sub [] = (length sub, refl, omega (arith, length-append sub []))
rest_match-Within sub (c ∷ t) =
    ((rest_match sub (c ∷ t)).0, ground arith, ground (arith, length-append sub (c ∷ t)))

match_under-Within : (sub path : GoString) → Within path (match_under sub path)
match_under-Within sub path = elim (under_cases sub path) [
  | inl e ↦ (0, e, omega arith)
  | inr (t, e, q) ↦ rw (e, match_under-append sub t) (rest_match-Within sub t)
]

match_glob-Within : (rule_path path : GoString) → Within path (match_glob rule_path path)
unfolding match_glob
match_glob-Within rule_path path = elim (Bool-cases (has_suffix rule_path (bytes "/*"))) [
  | inl h ↦ rw h (match_under-Within (glob_sub_path rule_path) path)
  | inr h ↦ rw h (literal rule_path path)
]
  where
    literal :
        (p q : GoString)
        → Within q (
            if q == p
            then ret (length p, false)
            else if q == p ++ bytes "/"
            then ret (length p + 1, false)
            else ret (0, false))
    literal p q = (
      (if q == p then length p else if q == p ++ bytes "/" then length p + 1 else 0),
      ground arith,
      ground (arith, length-append p (bytes "/")),
    )

-- The documented behaviour of FindStringSubmatch: its first result is a part of the text.
abbrev pub FindsParts : Regexp → Type 0
FindsParts re =
    (path m : GoString) (ms : List GoString)
    → re.find_string_submatch path ≡ m ∷ ms
    → (before after : GoString) × (path ≡ before ++ (m ++ after))

match_re-Within :
    (re : Regexp) (path : GoString) → FindsParts re → Within path (match_re (some re) path)
unfolding match_re
match_re-Within re path h = go (re.find_string_submatch path) refl
  where
    go :
        (ms : List GoString)
        → re.find_string_submatch path ≡ ms
        → Within path (match_re (some re) path)
    go [] e = (0, rw (e, match_re), omega arith)
    go (m ∷ ms) e =
        let (before, after, q) = h path m ms e in
        (
          length m,
          rw (e, match_re),
          omega (
            arith,
            ap (length {A = ℕ}) q,
            length-append before (m ++ after),
            length-append m after,
          ),
        )

-- What a rule's call returns: the length lies within the path, and only an Exact rule whose path
-- is the request's gives an exact match.
abbrev pub Sound : IngressRule → Request → ℕ → Bool → Type 0
Sound rule r l e =
    (match_rule rule r ≡ ret (l, e))
    × (l ≤ length r.url.path)
    × ((e ≡ false) ⊎ ((rule.path_type ≡ exact) × (r.url.path ≡ rule.path)))

match_path-Sound :
    (pt : PathType) (rule : IngressRule) (path : GoString)
    → (pt ≡ re2 → rule.re ≢ none)
    → ((re : Regexp) → rule.re ≡ some re → FindsParts re)
    → (l : ℕ) × (e : Bool) × (match_path pt rule path ≡ ret (l, e))
      × (l ≤ length path)
      × ((e ≡ false) ⊎ ((pt ≡ exact) × (path ≡ rule.path)))
unfolding match_path
match_path-Sound glob rule path c f =
    let (l, e, h) = match_glob-Within rule.path path in (l, false, e, h, inl refl)
match_path-Sound prefix rule path c f =
    let (l, e, h) = match_under-Within rule.path path in (l, false, e, h, inl refl)
match_path-Sound exact rule path c f = elim (Bool-cases (path == rule.path)) [
  | inl t ↦
      let same : path ≡ rule.path = (==_iff path rule.path).0 t in
      (length rule.path, true, rw t, ground arith, inr (refl, same))
  | inr t ↦ (0, false, rw t, omega arith, inl refl)
]
match_path-Sound re2 rule path c f = elim (Option-cases rule.re) [
  | inl missing ↦ absurd (c refl missing)
  | inr (re, found) ↦
      let (l, e, h) = match_re-Within re path (f re found) in
      (l, false, ap (λ o. match_re o path) found ∙ e, h, inl refl)
]
match_path-Sound (unknown n) rule path c f = (0, false, refl, omega arith, inl refl)

-- The call on one rule never panics: a rule of type re2 that was compiled has its expression, and
-- no index leaves the path. It returns a length within the path, and says that the match is exact
-- only for an Exact rule whose path is the request's path. Expressions are taken to return parts of
-- the text that they are given.
pub match_rule-Sound :
    (rule : IngressRule) (r : Request)
    → IsCompiled rule
    → ((re : Regexp) → rule.re ≡ some re → FindsParts re)
    → (l : ℕ) × (e : Bool) × Sound rule r l e
unfolding match_rule
match_rule-Sound rule r c f =
    let (l, e, h, k, q) = match_path-Sound rule.path_type rule r.url.path c f in
    elim (Bool-cases (not (rule.host == []) && not (rule.host == r.host))) [
      | inl other ↦ (0, false, (rw other, omega arith, inl refl))
      | inr same ↦ (l, e, (rw same h, k, q))
    ]

match_re_total :
    (re : Regexp) (path : GoString) → (p : ℕ × Bool) × (match_re (some re) path ≡ ret p)
unfolding match_re
match_re_total re path = go (re.find_string_submatch path) refl
  where
    go :
        (ms : List GoString)
        → re.find_string_submatch path ≡ ms
        → (p : ℕ × Bool) × (match_re (some re) path ≡ ret p)
    go [] e = ((0, false), rw (e, match_re))
    go (m ∷ ms) e = ((length m, false), rw (e, match_re))

match_path_total :
    (pt : PathType) (rule : IngressRule) (path : GoString)
    → (pt ≡ re2 → rule.re ≢ none)
    → (p : ℕ × Bool) × (match_path pt rule path ≡ ret p)
unfolding match_path
match_path_total glob rule path c =
    let (l, e, h) = match_glob-Within rule.path path in ((l, false), e)
match_path_total prefix rule path c =
    let (l, e, h) = match_under-Within rule.path path in ((l, false), e)
match_path_total exact rule path c =
    ((if path == rule.path then (length rule.path, true) else (0, false)), ground arith)
match_path_total re2 rule path c = elim (Option-cases rule.re) [
  | inl missing ↦ absurd (c refl missing)
  | inr (re, found) ↦
      let (p, e) = match_re_total re path in (p, ap (λ o. match_re o path) found ∙ e)
]
match_path_total (unknown n) rule path c = ((0, false), refl)

-- A compiled rule's call returns its measure.
pub match_rule-measure :
    (rule : IngressRule) (r : Request) → IsCompiled rule → match_rule rule r ≡ ret (measure rule r)
unfolding match_rule measure
match_rule-measure rule r c =
    let (p, h) = match_path_total rule.path_type rule r.url.path c in ground arith
