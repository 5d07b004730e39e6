-- ===== src/Lib.antt =====
-- minke: an ingress controller and reverse proxy for Kubernetes.
--
-- The controller watches ingresses, services, endpoints and secrets. A processor for each kind takes
-- keys from a queue, fetches the object and hands it to a handler, which keeps one part of the
-- state: the ingresses by host, the schemes of the service ports, the addresses behind them, and the
-- certificates by host. A request is matched against the ingresses by its host and path; the rule
-- that is chosen names a backend, whose next address and scheme make the target of the proxy. A
-- handshake is given a certificate by its server name.
--
-- The files, and the code that they model:
--   Base            Boolean tests, lists, Go's signed integers and permutations that all share
--   GoText          strings as lists of bytes: comparison, prefixes, split and join, ParseBool
--   GoMap           maps as association lists with one entry for a key
--   Panic           calls that return or panic; `httpError` and `httpRedirect` of proxy.go
--   Http, Kube      the parts of net/http and of the Kubernetes objects that the program reads
--   Endpoints       endpoints.go; `get_next_addr` is getNextAddr, with its 64-bit counter
--   Ingress         ingress.go up to the handler: `match_rule`, `match_group` and `match_set` are
--                   the three matchRule methods, `less` is Less, `update` and `clear` the set's
--   IngressHandler  ingress.go, `ingUpdater`: addItem, delItem, and ourClass; `add_tls` is the loop
--                   over the TLS sections
--   Secrets         secrets.go: the store, getCert and updateSecret, and the handler
--   Certificates    secrets.go: updateIngress, setDefaults, GetCertificate; Interleaving has
--                   updateIngress and addItem of a secret by the steps under one lock each
--   Services        services.go: the handler and getServicePortScheme
--   Transport       transport.go: RoundTrip
--   Proxy           proxy.go: getTarget, director, handler with its recovery, errorHandler
--   Processor       processor.go: the handlers of the events, processItem, processNextItem, and
--                   runWorker as a relation
--   Metrics         metrics.go: what NewPrometheusMetrics and the methods register, and the wrappers
--                   of the transport and the handler
--   Status          the MarshalJSON methods of all files, and ServeStatusHTTP of controller.go
--   Controller      controller.go: the options and New's loop over them, Stop, HasSynced, the liveness
--                   and the readiness report, Run as its actions; Fields and Assembly have the fields
--                   that hold objects of other packages and the whole of New, Watches the setup of
--                   the four processors and makeProcessor; tracing.go
--   System          the four processors with their handlers and queues, the preloading of the
--                   defaults and the requests, as steps on one state
--   Main            cmd/minke/main.go: the options that the flags make, the start up to the
--                   three servers, when the program goes on to its shutdown, and its exit status
--   Samples         the inputs that the tests share
--
-- An operation on the state is a function from the state to the state. A lock is held for the length
-- of an operation, and is left out. Pointers to certificate entries are left out as well: what is
-- done through one of them is done to every copy. An iteration over a map goes in the order of the
-- association list.
--
-- The recursion of getCert runs on fuel: fetching a secret takes it in, which fetches the
-- certificate again, but then finds the secret stored, so the fuel is two rounds. All other loops
-- are structural.
--
-- The packages of Go that are more than text and maps are arguments: sort.Sort, which is taken
-- to give an ordered permutation, expressions and their compiler, key pairs and parsed
-- certificates, json.Unmarshal, URL.String, the two transports, what the reverse proxy changes
-- in a request, the lister of secrets, the queue and the indexer, and the registry of metrics.
-- A step of System is the call of one worker, one event, the preloading or one request for an
-- address, and the indexers may hold anything at each step; what a call does under several
-- locks is one step there, and several in Certificates/Interleaving.
--
-- New and main pass on objects of other packages, such as clients, tracers and functions. Their types
-- are the fields of one record, Objects, and what is called of them is that of another, Packages or
-- Dependencies, so that New and main are functions of these.
--
-- Where the code and DESIGN.md differ, the model follows the code: a request that no rule matches is
-- answered with 404, and the addresses of a backend are taken in turn. The hosts that a TLS section
-- names are not passed on by the code, and so not by `add_tls`. GetCertificate reads the certificate
-- of a wildcard entry twice; both readings are of one state here. GetClientCertificate returns what
-- its field holds, and nothing sets the field.
--
-- Not modelled are the logs, the recorder of events that New makes and nothing uses, and the listeners
-- themselves, of which only the results are read. A response that breaks off while it is copied to
-- the client is not modelled either. The status is a value of JSON, whose text package json makes of
-- it.
pub mod Base
pub mod GoText
pub mod GoMap
pub mod Panic
pub mod Http
pub mod Kube
pub mod Endpoints
pub mod Ingress
pub mod Secrets
pub mod Certificates
pub mod Services
pub mod IngressHandler
pub mod Transport
pub mod Proxy
pub mod Processor
pub mod Metrics
pub mod Status
pub mod Controller
pub mod System
pub mod Main
pub mod Samples
