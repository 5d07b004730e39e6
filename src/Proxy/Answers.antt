-- ===== src/Proxy/Answers.antt =====
-- What the handler answers, on each of its branches.
use mathlib.Core.Path.{subst}
use minke.Base.{
  Bool, true, false, ◌&&◌, not, [], Option, none, some, ◌==◌, List_ℕ-eq, ◌≡◌, ◌≢◌, refl, arith, ap,
  sym, ◌∙◌, Bool-cases, inl, inr, ==_iff,
}
use minke.Panic.{Run, ret, ◌>>=◌}
use minke.Http.{Url, Request}
use minke.GoText.{GoString}
use minke.Endpoints.{ServiceAddr, EpsSet, get_next_addr}
use minke.Endpoints.Invariant.{IsWellFormed, Gives, get_next_addr-Gives}
use minke.Ingress.{IngressRule, Ingress, Found, match_set}
use minke.Ingress.Hosts.{IsReady, match_set-Selected, Selected-cases}
use minke.Ingress.Serving.{Serves, match_set-Serves}
use minke.Services.{get_service_port_scheme}
use minke.Transport.{HttpTransport, round_trip}
use minke.Proxy.{
  Routes, Response, header_only, redirected, respond, https_url, target_of, target_of_match,
  get_target, forwarded, director, recovered, serve, handler, Header,
}

module _ (url_string : Url → GoString) (outgoing : Request → Request) (t : HttpTransport)
    (c : Routes) (req : Request) where
  -- The rule that is served, and the address that its backend gives.
  pub record Backend (ing : Ingress) (rule : IngressRule) (a : ServiceAddr) : Type 0 where
    pub served : Serves req c.ings ing rule
    pub direct : (ing.http_redir && not req.tls) ≡ false
    pub given : (get_next_addr c.eps rule.backend).1 ≡ ret a
    pub listed : Gives c.eps rule.backend a

  -- The answers to a request, each with the endpoints that are left.
  pub data Answers : EpsSet × Response → Type 0 where
    unmatched : match_set c.ings req ≡ ret (none, none) → Answers (c.eps, header_only 404)
    redirects :
        (ing : Ingress) (rule : IngressRule)
        → Serves req c.ings ing rule
        → ing.http_redir ≡ true
        → req.tls ≡ false
        → Answers (c.eps, redirected (url_string (https_url req)) 301)
    unavailable :
        (ing : Ingress) (rule : IngressRule) (a : ServiceAddr)
        → Backend ing rule a
        → a.addr ≡ []
        → Answers ((get_next_addr c.eps rule.backend).0, header_only 502)
    answered :
        (ing : Ingress) (rule : IngressRule) (a : ServiceAddr)
        → Backend ing rule a
        → a.addr ≢ []
        → Answers (
          (get_next_addr c.eps rule.backend).0,
          respond (
              round_trip t
                (outgoing (forwarded req a (get_service_port_scheme c.svc rule.backend)))),
        )

  get_target_of_match :
      (found : Found)
      → match_set c.ings req ≡ ret found
      → get_target url_string c req ≡ target_of_match url_string c req found
  unfolding get_target
  get_target_of_match found e = rw (e, get_target) refl

  serve_of_match :
      (found : Found)
      → match_set c.ings req ≡ ret found
      → serve url_string outgoing t c req ≡ (
        (target_of_match url_string c req found).0,
        recovered (
            (target_of_match url_string c req found).1
            >>= (λ ts. ret (forwarded req ts.0 ts.1))
            >>= (λ outreq. ret (respond (round_trip t (outgoing outreq))))),
      )
  unfolding serve director
  serve_of_match found e =
      ap
        (λ (q : EpsSet × Run (ServiceAddr × GoString)). (
          q.0,
          recovered (
              q.1
              >>= (λ ts. ret (forwarded req ts.0 ts.1))
              >>= (λ outreq. ret (respond (round_trip t (outgoing outreq))))),
        ))
        (get_target_of_match found e)

  serve_unmatched :
      match_set c.ings req ≡ ret (none, none)
      → serve url_string outgoing t c req ≡ (c.eps, header_only 404)
  unfolding target_of_match recovered
  serve_unmatched e = serve_of_match (none, none) e

  serve_redirects :
      (ing : Ingress) (rule : Option IngressRule)
      → match_set c.ings req ≡ ret (some ing, rule)
      → (ing.http_redir && not req.tls) ≡ true
      → serve url_string outgoing t c req ≡ (c.eps, redirected (url_string (https_url req)) 301)
  unfolding target_of_match recovered
  serve_redirects ing rule e q = serve_of_match (some ing, rule) e ∙ rw q refl

  serve_unavailable :
      (ing : Ingress) (rule : IngressRule) (a : ServiceAddr)
      → match_set c.ings req ≡ ret (some ing, some rule)
      → (ing.http_redir && not req.tls) ≡ false
      → (get_next_addr c.eps rule.backend).1 ≡ ret a
      → (a.addr == []) ≡ true
      → serve url_string outgoing t c req ≡ ((get_next_addr c.eps rule.backend).0, header_only 502)
  unfolding target_of_match target_of recovered
  serve_unavailable ing rule a e q g n = serve_of_match (some ing, some rule) e ∙ rw (q, g, n) refl

  serve_answered :
      (ing : Ingress) (rule : IngressRule) (a : ServiceAddr)
      → match_set c.ings req ≡ ret (some ing, some rule)
      → (ing.http_redir && not req.tls) ≡ false
      → (get_next_addr c.eps rule.backend).1 ≡ ret a
      → (a.addr == []) ≡ false
      → serve url_string outgoing t c req ≡ (
        (get_next_addr c.eps rule.backend).0,
        respond (
            round_trip t (outgoing (forwarded req a (get_service_port_scheme c.svc rule.backend)))),
      )
  unfolding target_of_match target_of recovered
  serve_answered ing rule a e q g n = serve_of_match (some ing, some rule) e ∙ rw (q, g, n) refl

  both_true : (a b : Bool) → (a && not b) ≡ true → (a ≡ true) × (b ≡ false)
  both_true a b h = ground arith

  serve_served :
      (ing : Ingress) (rule : IngressRule)
      → IsReady c.ings
      → IsWellFormed c.eps
      → match_set c.ings req ≡ ret (some ing, some rule)
      → Answers (serve url_string outgoing t c req)
  serve_served ing rule w v e =
      let s : Serves req c.ings ing rule = match_set-Serves req c.ings ing rule w e in
      elim (Bool-cases (ing.http_redir && not req.tls)) [
        | inl q ↦ subst Answers (sym (serve_redirects ing (some rule) e q)) (
            redirects ing rule s (both_true ing.http_redir req.tls q).0
              (both_true ing.http_redir req.tls q).1)
        | inr q ↦
            let (a, g, l) = get_next_addr-Gives c.eps rule.backend v in
            let b : Backend ing rule a = record { served = s; direct = q; given = g; listed = l } in
            elim (Bool-cases (a.addr == [])) [
              | inl n ↦
                  subst Answers (sym (serve_unavailable ing rule a e q g n))
                    (unavailable ing rule a b ((==_iff a.addr []).0 n))
              | inr n ↦
                  subst Answers (sym (serve_answered ing rule a e q g n))
                    (answered ing rule a b (ground (arith, ==_iff a.addr [])))
            ]
      ]

  serve-Answers : IsReady c.ings → IsWellFormed c.eps → Answers (serve url_string outgoing t c req)
  serve-Answers w v =
      let (found, e, s) = match_set-Selected req c.ings w in
      elim (Selected-cases req c.ings found s) [
        | inl q ↦
            let e' : match_set c.ings req ≡ ret (none, none) = e ∙ ap ret q in
            subst Answers (sym (serve_unmatched e')) (unmatched e')
        | inr (ing, rule, q) ↦ serve_served ing rule w v (e ∙ ap ret q)
      ]

  -- If each ingress rule stands under its host and is compiled, and each set of endpoints has an
  -- address, a request is answered in one of four ways, and no panic leaves the handler. If no rule
  -- matches, the status is 404. If the ingress that serves it redirects and the request came without
  -- TLS, it is sent with 301 to its URL under https. Or else, unless the address that its rule's
  -- backend gives next is empty, for which the status is 502, the request is made out to that address
  -- and the scheme of the backend, is changed as the reverse proxy does, and goes through the
  -- transport, whose outcome is the answer.
  pub handler-Answers :
      (header : Header)
      → IsReady c.ings
      → IsWellFormed c.eps
      → Answers (
        (handler url_string outgoing t c req header).0,
        (handler url_string outgoing t c req header).1.1,
      )
  unfolding handler
  handler-Answers header w v = serve-Answers w v
