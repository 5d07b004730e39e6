-- ===== src/GoText/Laws.antt =====
-- The text functions against independent descriptions.
use minke.Base.{
  ℕ, ◌≡◌, ◌≢◌, refl, ap, ◌∙◌, true, false, List, [], ◌∷◌, ◌++◌, some, ℕ_eq, List_ℕ-eq, All, arith,
  List_ℕ-discrete, ℕ_discrete,
}
use minke.Base.Int.{pos}
use minke.GoText.{
  GoString, bytes, has_prefix, has_suffix, push_front, split, join, split_two, parse_bool, itoa,
  wildcard_name,
}

text : Unit {0}
unfolding split join wildcard_name itoa split_two parse_bool has_suffix ℕ_discrete List_ℕ-discrete
text = tt

wildcard_test : wildcard_name (bytes "www.example.com") ≡ bytes "*.example.com"
unfolding text
wildcard_test = refl

itoa_test : itoa (pos 8080) ≡ bytes "8080"
unfolding text
itoa_test = refl

has_suffix_test : has_suffix (bytes "/a/*") (bytes "/*") ≡ true
unfolding text
has_suffix_test = refl

parse_bool_test : parse_bool (bytes "False") ≡ some false
unfolding text
parse_bool_test = refl

-- The string begins with the prefix exactly when it is the prefix and a rest.
pub has_prefix-append : (p t : GoString) → has_prefix (p ++ t) p ≡ true
unfolding has_prefix
has_prefix-append [] t = refl
has_prefix-append (c ∷ p) t = ground (arith, has_prefix-append p t)

pub split_prefix : (s p : GoString) → has_prefix s p ≡ true → (t : GoString) × (s ≡ p ++ t)
unfolding has_prefix
split_prefix s [] h = (s, refl)
split_prefix [] (d ∷ p) h = cc
split_prefix (c ∷ s) (d ∷ p) h = let (t, e) = split_prefix s p (ground arith) in (t, ground arith)

-- No part has the separator.
abbrev pub Lacks : ℕ → GoString → Type 0
Lacks sep = All (λ c. c ≢ sep)

-- A split at the first separator.
pub split-append :
    (sep : ℕ) (label rest : GoString)
    → Lacks sep label
    → split (label ++ sep ∷ rest) sep ≡ label ∷ split rest sep
unfolding split
split-append sep [] rest h = ground arith
split-append sep (c ∷ label) rest h = ground (arith, split-append sep label rest h.1)

pub split_whole : (sep : ℕ) (label : GoString) → Lacks sep label → split label sep ≡ label ∷ []
unfolding split
split_whole sep [] h = refl
split_whole sep (c ∷ label) h = ground (arith, split_whole sep label h.1)

pub split_cons :
    (s : GoString) (sep : ℕ) → (p : GoString) × (ps : List GoString) × (split s sep ≡ p ∷ ps)
unfolding split
split_cons [] sep = ([], [], refl)
split_cons (c ∷ s) sep =
    let (p, ps, e) = split_cons s sep in
    elim (ℕ_discrete c sep) [
      | yes q ↦ ([], split s sep, ground arith)
      | no q ↦ (c ∷ p, ps, ground arith)
    ]

join_cons :
    (x : GoString) (ps : List GoString) (sep : GoString) (c : ℕ)
    → join ((c ∷ x) ∷ ps) sep ≡ c ∷ join (x ∷ ps) sep
unfolding join
join_cons x [] sep c = refl
join_cons x (p ∷ ps) sep c = refl

join_push :
    (c : ℕ) (s : GoString) (ps : List GoString) (sep : GoString)
    → join ps sep ≡ s
    → ps ≢ []
    → join (push_front c ps) sep ≡ c ∷ s
join_push c s [] sep e h = absurd (h refl)
join_push c s (p ∷ ps) sep e h = join_cons p ps sep c ∙ ap (◌∷◌ c) e

join_empty :
    (s : GoString) (ps : List GoString) (sep : GoString)
    → ps ≢ []
    → join ([] ∷ ps) sep ≡ sep ++ join ps sep
unfolding join
join_empty s [] sep h = absurd (h refl)
join_empty s (p ∷ ps) sep h = refl

split-ne-nil : (s : GoString) (sep : ℕ) → split s sep ≢ []
split-ne-nil s sep h = let (p, ps, e) = split_cons s sep in cc

-- Joining undoes splitting.
pub join-split : (s : GoString) (sep : ℕ) → join (split s sep) (sep ∷ []) ≡ s
unfolding split
join-split [] sep = unfold join in refl
join-split (c ∷ s) sep = ground (
  arith,
  join-split s sep,
  join_empty s (split s sep) (sep ∷ []) (split-ne-nil s sep),
  join_push c s (split s sep) (sep ∷ []) (join-split s sep) (split-ne-nil s sep),
)

-- The wildcard name of a host keeps all that follows the first dot.
pub wildcard_name-append :
    (label rest : GoString)
    → Lacks b'.' label
    → wildcard_name (label ++ b'.' ∷ rest) ≡ b'*' ∷ b'.' ∷ rest
unfolding wildcard_name
wildcard_name-append label rest h = rw (split-append b'.' label rest h) (
    join_set (bytes "*") (split rest b'.') (split-ne-nil rest b'.')
    ∙ ap (λ t. b'*' ∷ b'.' ∷ t) (join-split rest b'.'))
  where
    join_set :
        (x : GoString) (ps : List GoString)
        → ps ≢ []
        → join (x ∷ ps) (bytes ".") ≡ x ++ (b'.' ∷ join ps (bytes "."))
    join_set x [] h = absurd (h refl)
    join_set x (p ∷ ps) h = refl

-- A host with one label has the wildcard name `*`.
pub wildcard_name_label : (label : GoString) → Lacks b'.' label → wildcard_name label ≡ bytes "*"
unfolding wildcard_name
wildcard_name_label label h = rw (split_whole b'.' label h)

join-ne-nil :
    (c : ℕ) (x : GoString) (ps : List GoString) (sep : GoString) → join ((c ∷ x) ∷ ps) sep ≢ []
unfolding join
join-ne-nil c x [] sep = cc
join-ne-nil c x (p ∷ ps) sep = cc

-- A wildcard name is not empty.
pub wildcard_name-ne-nil : (host : GoString) → wildcard_name host ≢ []
unfolding wildcard_name
wildcard_name-ne-nil host =
    let (p, ps, e) = split_cons host b'.' in rw e (join-ne-nil b'*' [] ps (bytes "."))
