-- ===== src/Main/Ending.antt =====
-- When the program comes to its end.
use minke.Base.{
  Bool, true, false, ◌||◌, List, [], ◌∷◌, ap, sym, ◌∙◌, Option, none, some, ◌≡◌, ◌⊎◌, inl, inr, ◌↔◌,
  refl, arith,
}
use minke.Kube.{GoError}
use minke.Main.{
  ListenError, server_closed, other, Listener, serves, returned, Listeners, Outcome, admin_outcome,
  http_outcome, https_outcome, http3_outcome, fails, is_done,
}

-- The listener has returned an error.
abbrev pub HasFailed : Listener → Type 0
HasFailed l = (err : ListenError) × (l ≡ returned (some err))

-- The https listener could not be made, or has returned an error other than that of its shutdown.
abbrev pub HttpsFailed : Option GoError → Listener → Type 0
HttpsFailed listen l =
    ((err : GoError) × (listen ≡ some err))
    ⊎ ((listen ≡ none) × (err : GoError) × (l ≡ returned (some (other err))))

-- Whether an outcome is an error.
abbrev failed : Outcome → Bool
failed none = false
failed (some none) = false
failed (some (some err)) = true

fails_cons : (o : Outcome) (os : List Outcome) → fails (o ∷ os) ≡ (failed o || fails os)
fails_cons none os = refl
fails_cons (some none) os = refl
fails_cons (some (some err)) os = refl

http_does_not : (l : Listener) → failed (http_outcome l) ≡ false
http_does_not serves = refl
http_does_not (returned err) = refl

failed_iff : (l : Listener) → (failed (admin_outcome l) ≡ true) ↔ HasFailed l
failed_iff serves = (λ e. cc, λ h. let e = h.1 in cc)
failed_iff (returned none) = (λ e. cc, λ h. let e = h.1 in cc)
failed_iff (returned (some err)) = (λ e. (err, refl), λ h. refl)

same_outcome : (l : Listener) → http3_outcome l ≡ admin_outcome l
same_outcome serves = refl
same_outcome (returned err) = refl

https_to :
    (listen : Option GoError) (l : Listener)
    → failed (https_outcome listen l) ≡ true
    → HttpsFailed listen l
https_to (some err) l e = inl (err, refl)
https_to none serves e = cc
https_to none (returned none) e = cc
https_to none (returned (some server_closed)) e = cc
https_to none (returned (some (other err))) e = inr (refl, err, refl)

https_from :
    (listen : Option GoError) (l : Listener)
    → HttpsFailed listen l
    → failed (https_outcome listen l) ≡ true
https_from listen l (inl (err, e)) = rw e refl
https_from listen l (inr (e, err, e')) = rw (e, e') refl

either : (a b : Bool) → (a || b) ≡ true → (a ≡ true) ⊎ (b ≡ true)
either true b e = inl refl
either false b e = inr e

-- main goes on to the shutdown exactly when there was a signal, or the admin, the https or the http3
-- listener has failed. Whatever the http listener has come to does not count.
pub is_done_iff :
    (signal : Bool) (l : Listeners)
    → (is_done signal l ≡ true) ↔ (
        (signal ≡ true)
        ⊎ HasFailed l.admin
        ⊎ HttpsFailed l.https_listen l.https
        ⊎ HasFailed l.http3)
unfolding is_done
is_done_iff signal l =
    let admin = admin_outcome l.admin in
    let https = https_outcome l.https_listen l.https in
    let http3 = http3_outcome l.http3 in
    let all : is_done signal l ≡ (signal || (failed admin || (failed https || failed http3))) =
      ground (
        arith,
        fails_cons admin (http_outcome l.http ∷ https ∷ http3 ∷ []),
        fails_cons (http_outcome l.http) (https ∷ http3 ∷ []),
        fails_cons https (http3 ∷ []),
        fails_cons http3 [],
        http_does_not l.http,
      ) in
    let last : failed http3 ≡ failed (admin_outcome l.http3) = ap failed (same_outcome l.http3) in
    (
      λ e. elim (either signal _ (sym all ∙ e)) [
        | inl t ↦ inl t
        | inr r ↦ elim (either (failed admin) _ r) [
          | inl t ↦ inr (inl ((failed_iff l.admin).0 t))
          | inr r' ↦ elim (either (failed https) _ r') [
            | inl t ↦ inr (inr (inl (https_to l.https_listen l.https t)))
            | inr t ↦ inr (inr (inr ((failed_iff l.http3).0 (sym last ∙ t))))
          ]
        ]
      ],
      λ h. all ∙ elim h [
        | inl t ↦ ground arith
        | inr (inl f) ↦ let t = (failed_iff l.admin).1 f in ground arith
        | inr (inr (inl f)) ↦ let t = https_from l.https_listen l.https f in ground arith
        | inr (inr (inr f)) ↦ let t = last ∙ (failed_iff l.http3).1 f in ground arith
      ],
    )
