-- ===== src/Transport.antt =====
-- transport.go: the transport that a request to a backend is sent through. The two transports, of
-- net/http and of golang.org/x/net/http2, are functions that the model takes as given.
use minke.Base.{ℕ, Bool, ◌||◌, if◌then◌else◌, ◌==◌, List_ℕ-eq}
use minke.GoText.{GoString, bytes}
use minke.Http.{Request}

pub record BackendResponse : Type 0 where
  pub status : ℕ
  pub body : GoString

-- `canceled` is errors.Is(err, context.Canceled).
pub record BackendError : Type 0 where
  pub canceled : Bool

pub data Outcome : Type 0 where
  responded : BackendResponse → Outcome
  failed : BackendError → Outcome

abbrev pub RoundTripper : Type 0
RoundTripper = Request → Outcome

pub record HttpTransport : Type 0 where
  pub base : RoundTripper
  pub http2 : RoundTripper

abbrev pub with_scheme : GoString → Request → Request
with_scheme scheme r = record r { url = record r.url { scheme = scheme } }

unfoldable pub round_trip : HttpTransport → RoundTripper
round_trip t r =
    if r.url.scheme == bytes "http2" || r.url.scheme == bytes "grpc"
    then t.http2 (with_scheme (bytes "http") r)
    else t.base r
