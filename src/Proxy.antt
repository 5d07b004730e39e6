-- ===== src/Proxy.antt =====
-- proxy.go: the target of a request, the director of the reverse proxy, and the handler that turns
-- its panics into responses.
--
-- `httputil.ReverseProxy` gives the director a copy of the request, changes some of its headers,
-- sends it through the transport, and passes an error of the transport to the error handler.
pub mod Answers
pub mod Tests
use minke.Base.{
  ℕ, Bool, true, false, ◌&&◌, ◌||◌, not, List, [], ◌∷◌, ◌++◌, Option, none, some, if◌then◌else◌,
  ◌==◌, ℕ_eq, List_ℕ-eq,
}
use minke.GoText.{GoString, bytes, itoa}
use minke.GoMap.{GoMap, lookup, insert}
use minke.Panic.{HttpError, HttpRedirect, Panic, redirect, error, runtime, Run, ret, throw, ◌>>=◌}
use minke.Http.{Url, Request}
use minke.Endpoints.{ServiceKey, ServiceAddr, EpsSet, service_key_string, get_next_addr}
use minke.Ingress.{IngressRule, Ingress, IngressSet, Found, match_set}
use minke.Secrets.{Certificate}
use minke.Services.{Services, get_service_port_scheme}
use minke.Transport.{
  BackendResponse, BackendError, Outcome, responded, failed, HttpTransport, round_trip,
}

abbrev pub Header : Type 0
Header = GoMap GoString (List GoString)

-- What the controller reads to serve a request. Only the endpoints change by it.
pub record Routes : Type 0 where
  pub ings : IngressSet
  pub svc : Services
  pub eps : EpsSet
  -- The option that sets headers of the response; it is nil if it is not given.
  pub set_quic_headers : Option (Header → Header)

-- What is written for a request; `unwritten` is a handler that returns without a call of its writer.
pub data Response : Type 0 where
  header_only : ℕ → Response
  redirected : GoString → ℕ → Response
  proxied : BackendResponse → Response
  unwritten : Response

unfoldable pub error_handler : BackendError → Response
error_handler err = if err.canceled then unwritten else header_only 502

-- What the proxy does with the transport's outcome.
unfoldable pub respond : Outcome → Response
unfolding error_handler
respond (responded response) = proxied response
respond (failed err) = error_handler err

-- The part of getTarget after the redirect, where `rule` is a pointer.
unfoldable pub target_of : Routes → Option IngressRule → EpsSet × Run (ServiceAddr × GoString)
unfolding get_next_addr get_service_port_scheme
target_of c none = (c.eps, throw runtime)
target_of c (some rule) =
    let port = get_service_port_scheme c.svc rule.backend in
    let (eps, next) = get_next_addr c.eps rule.backend in
    (
      eps,
      next >>= (λ ep.
          if ep.addr == []
          then throw (
              error (record {
                status = 502;
                log_message = bytes "no active endpoints for " ++ service_key_string rule.backend;
              }))
          else ret (ep, port)),
    )

abbrev pub https_url : Request → Url
https_url req = record req.url { scheme = bytes "https"; host = req.host }

abbrev has_byte : ℕ → GoString → Bool
has_byte b [] = false
has_byte b (c ∷ s) = c == b || has_byte b s

-- net.JoinHostPort
unfoldable pub join_host_port : GoString → GoString → GoString
join_host_port host port =
    if has_byte b':' host
    then bytes "[" ++ (host ++ (bytes "]:" ++ port))
    else host ++ (bytes ":" ++ port)

abbrev pub user_agent : GoString
user_agent = bytes "User-Agent"

-- An empty header in place of a missing one.
unfoldable pub set_user_agent : GoMap GoString (List GoString) → GoMap GoString (List GoString)
set_user_agent header = elim (lookup user_agent header) [
  | none ↦ insert user_agent ([] ∷ []) header
  | some values ↦ header
]

-- The request that goes to an address.
unfoldable pub forwarded : Request → ServiceAddr → GoString → Request
unfolding join_host_port set_user_agent
forwarded req target scheme = record req {
  url = record req.url { scheme = scheme; host = join_host_port target.addr (itoa target.port) };
  header = set_user_agent req.header;
}

-- The deferred function of the handler.
unfoldable pub recovered : Run Response → Response
recovered (ret response) = response
recovered (throw (redirect err)) = redirected err.destination 301
recovered (throw (error err)) = header_only err.status
recovered (throw runtime) = header_only 502

-- `url_string` is the method String of url.URL.
module _ (url_string : Url → GoString) where
  -- What getTarget makes of the match.
  unfoldable pub target_of_match : Routes → Request → Found → EpsSet × Run (ServiceAddr × GoString)
  unfolding target_of
  target_of_match c req (none, rule) =
      (c.eps, throw (error (record { status = 404; log_message = bytes "no service for thing" })))
  target_of_match c req (some ing, rule) =
      if ing.http_redir && not req.tls
      then (c.eps, throw (redirect (record { destination = url_string (https_url req) })))
      else target_of c rule

  unfoldable pub get_target : Routes → Request → EpsSet × Run (ServiceAddr × GoString)
  unfolding target_of_match match_set
  get_target c req = elim (match_set c.ings req) [
    | throw p ↦ (c.eps, throw p)
    | ret found ↦ target_of_match c req found
  ]

  unfoldable pub director : Routes → Request → EpsSet × Run Request
  unfolding get_target forwarded
  director c req =
      let (eps, target) = get_target c req in
      (eps, target >>= (λ ts. ret (forwarded req ts.0 ts.1)))

-- `outgoing` is what the reverse proxy changes in the request after the director: it takes away the
-- headers that are for one hop, and adds the client to X-Forwarded-For.
module _ (url_string : Url → GoString) (outgoing : Request → Request) where
  -- The call of the proxy under the deferred function.
  unfoldable pub serve : HttpTransport → Routes → Request → EpsSet × Response
  unfolding director recovered respond round_trip
  serve t c req =
      let (eps, out) = director url_string c req in
      (eps, recovered (out >>= (λ outreq. ret (respond (round_trip t (outgoing outreq))))))

  -- `header` is that of the writer at the start.
  unfoldable pub handler : HttpTransport → Routes → Request → Header → EpsSet × (Header × Response)
  unfolding serve
  handler t c req header =
      let set : Header = elim c.set_quic_headers [ none ↦ header | some f ↦ f header ] in
      let (eps, response) = serve t c req in (eps, (set, response))

-- GetClientCertificate, on the field that it reads, which may be nil.
abbrev pub get_client_certificate : Option Certificate → Option Certificate
get_client_certificate client_tls_certificate = client_tls_certificate
