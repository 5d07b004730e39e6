-- ===== src/Controller/Options.antt =====
-- What the options make of the texts that they are given.
use mathlib.Core.List.{append-nil, append_assoc}
use minke.Base.{
  ℕ, false, List, [], ◌∷◌, ◌++◌, none, some, ◌⊎◌, inl, inr, ◌==◌, ℕ_eq, List_ℕ-eq, ◌≡◌, ◌↔◌, refl,
  arith, ap, sym, ◌∙◌, All, map, Bool-cases, Option-cases, ==_iff,
}
use minke.GoText.{GoString, push_front, split_two}
use minke.GoText.Laws.{Lacks}
use minke.Kube.{GoError}
use minke.Secrets.{SecretKey}
use minke.Controller.{
  Controller, Setting, two_parts, with_default_tls_secrets, apply_options, initial, new,
}

-- A text with a separator is split at the first one.
split_two-append :
    (sep : ℕ) (a b : GoString)
    → Lacks sep a
    → two_parts (split_two (a ++ sep ∷ b) sep) ≡ some (a, b)
unfolding split_two
split_two-append sep a b h = ap two_parts (parts a h)
  where
    parts : (a : GoString) → Lacks sep a → split_two (a ++ sep ∷ b) sep ≡ a ∷ b ∷ []
    parts [] h = ground arith
    parts (c ∷ a) h = ground (arith, parts a h.1)

-- The form NAMESPACE/NAME.
abbrev pub IsQualified : GoString → Type 0
IsQualified s = (a : GoString) × (b : GoString) × (s ≡ a ++ b'/' ∷ b)

push_front_parts :
    (c : ℕ) (ps : List GoString) (a b : GoString)
    → two_parts (push_front c ps) ≡ some (a, b)
    → (a' : GoString) × (a ≡ c ∷ a') × (two_parts ps ≡ some (a', b))
push_front_parts c [] a b e = cc
push_front_parts c (p ∷ []) a b e = cc
push_front_parts c (p ∷ q ∷ []) a b e = (p, ground arith, ground arith)
push_front_parts c (p ∷ q ∷ r ∷ ps) a b e = cc

split_two_parts :
    (sep : ℕ) (s a b : GoString) → two_parts (split_two s sep) ≡ some (a, b) → s ≡ a ++ sep ∷ b
unfolding split_two
split_two_parts sep [] a b e = cc
split_two_parts sep (c ∷ s) a b e = elim (Bool-cases (c == sep)) [
  | inl t ↦ let q : some ([], s) ≡ some (a, b) = rw t at e in ground (arith, ==_iff c sep)
  | inr t ↦
      let (a', first, rest) = push_front_parts c (split_two s sep) a b (rw t at e) in
      let ih : s ≡ a' ++ sep ∷ b = split_two_parts sep s a' b rest in
      ap (◌∷◌ c) ih ∙ ap (λ x. x ++ sep ∷ b) (sym first)
]

two_parts-push_front :
    (c : ℕ) (ps : List GoString) (a b : GoString)
    → two_parts ps ≡ some (a, b)
    → two_parts (push_front c ps) ≡ some (c ∷ a, b)
two_parts-push_front c [] a b e = cc
two_parts-push_front c (p ∷ []) a b e = cc
two_parts-push_front c (p ∷ q ∷ []) a b e = ground arith
two_parts-push_front c (p ∷ q ∷ r ∷ ps) a b e = cc

-- A text with a separator has two parts.
two_parts-IsQualified :
    (sep : ℕ) (a b : GoString)
    → (parts : GoString × GoString) × (two_parts (split_two (a ++ sep ∷ b) sep) ≡ some parts)
unfolding split_two
two_parts-IsQualified sep [] b = (([], b), ground arith)
two_parts-IsQualified sep (c ∷ a) b = elim (Bool-cases (c == sep)) [
  | inl t ↦ (([], a ++ sep ∷ b), rw t refl)
  | inr t ↦
      let ((first, second), e) = two_parts-IsQualified sep a b in
      ((c ∷ first, second), rw t (two_parts-push_front c _ first second e))
]

-- The text of a key.
abbrev pub key_text : SecretKey → GoString
key_text key = key.namespace ++ b'/' ∷ key.name

-- The option of the default secrets, given keys in the form NAMESPACE/NAME whose namespaces have no
-- slash, adds exactly these keys, in their order, and returns no error.
pub with_default_tls_secrets-map :
    (keys : List SecretKey) (c : Controller)
    → All (λ key. Lacks b'/' key.namespace) keys
    → with_default_tls_secrets (map key_text keys) c
      ≡ (record c { default_tls_secrets = c.default_tls_secrets ++ keys }, none)
unfolding with_default_tls_secrets
with_default_tls_secrets-map [] c h =
    ap (λ keys. (record c { default_tls_secrets = keys }, none)) (sym (append-nil _))
with_default_tls_secrets-map (key ∷ keys) c h =
    let some_text : (key_text key == []) ≡ false = not_empty key.namespace in
    rw (some_text, split_two-append b'/' key.namespace key.name h.0)
      (with_default_tls_secrets-map keys
          (record c { default_tls_secrets = c.default_tls_secrets ++ key ∷ [] }) h.1
        ∙ ap (λ keys. (record c { default_tls_secrets = keys }, none))
            (append_assoc c.default_tls_secrets (key ∷ []) keys))
  where
    not_empty : (a : GoString) → (a ++ b'/' ∷ key.name == []) ≡ false
    not_empty [] = ground arith
    not_empty (c ∷ a) = ground arith

-- The option of the default secrets returns no error exactly when each text that it is given is
-- empty or in the form NAMESPACE/NAME.
pub with_default_tls_secrets_iff :
    (strs : List GoString) (c : Controller)
    → ((with_default_tls_secrets strs c).1 ≡ none) ↔ All (λ s. (s ≡ []) ⊎ IsQualified s) strs
unfolding with_default_tls_secrets
with_default_tls_secrets_iff strs c = (to strs c, from strs c)
  where
    to :
        (strs : List GoString) (c : Controller)
        → (with_default_tls_secrets strs c).1 ≡ none
        → All (λ s. (s ≡ []) ⊎ IsQualified s) strs
    to [] c e = tt
    to (s ∷ strs) c e = elim (Bool-cases (s == [])) [
      | inl t ↦ (inl ((==_iff s []).0 t), to strs c (rw t at e))
      | inr t ↦ elim (Option-cases (two_parts (split_two s b'/'))) [
        | inl q ↦ let failed : some _ ≡ none = rw (t, q) at e in cc
        | inr ((a, b), q) ↦ (inr (a, b, split_two_parts b'/' s a b q), to strs _ (rw (t, q) at e))
      ]
    ]

    from :
        (strs : List GoString) (c : Controller)
        → All (λ s. (s ≡ []) ⊎ IsQualified s) strs
        → (with_default_tls_secrets strs c).1 ≡ none
    from [] c h = refl
    from (s ∷ strs) c h = elim (Bool-cases (s == [])) [
      | inl t ↦ rw t (from strs c h.1)
      | inr t ↦ elim h.0 [
        | inl empty ↦ absurd (ground (arith, ==_iff s []))
        | inr (a, b, q) ↦
            let (parts, found) = two_parts-IsQualified b'/' a b in
            let found' : two_parts (split_two s b'/') ≡ some parts =
              ap (λ x. two_parts (split_two x b'/')) q ∙ found in
            rw (t, found') (from strs _ h.1)
      ]
    ]

-- If some options apply without an error and the next one returns an error, New returns that error,
-- whatever options follow.
pub new_first_error :
    (opts : List Setting) (opt : Setting) (rest : List Setting) (c c' : Controller) (err : GoError)
    → new opts ≡ inr c
    → opt c ≡ (c', some err)
    → new (opts ++ opt ∷ rest) ≡ inl err
unfolding new apply_options
new_first_error opts opt rest c c' err h e = go opts initial h
  where
    go :
        (opts : List Setting) (start : Controller)
        → apply_options opts start ≡ inr c
        → apply_options (opts ++ opt ∷ rest) start ≡ inl err
    go [] start h =
        let same : start ≡ c = ground arith in
        let first : opt start ≡ (c', some err) = ap opt same ∙ e in rw first refl
    go (o ∷ opts) start h = elim (Option-cases (o start).1) [
      | inl fine ↦ rw fine (go opts (o start).0 (rw fine at h))
      | inr (failure, q) ↦ let failed : inl failure ≡ inr c = rw q at h in cc
    ]
