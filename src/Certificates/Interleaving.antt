-- ===== src/Certificates/Interleaving.antt =====
-- secrets.go, where two workers meet: updateIngress for an ingress and addItem for its secret, by the
-- steps that each does under one lock, in any order that keeps the order of each worker's own.
use minke.Base.{List, [], ◌∷◌}
use minke.GoText.{GoString}
use minke.GoMap.{insert}
use minke.Secrets.{
  IngressKey, SecretKey, SecretKey-eq, Platform, Certs, SecretData, Loaded, cert_of, update_secret,
  get_cert,
}
use minke.Certificates.{commit_ingress}

-- `fetches` and `commits` are of updateIngress; `stores`, `loads` and `refreshes` of addItem, for a
-- secret with both parts of a pair: it stores the data, calls getCert, and calls updateSecret.
pub data Move : Type 0 where
  fetches commits stores loads refreshes : Move

-- What the workers share, and what each holds between its steps.
pub record World : Type 0 where
  pub st : Certs
  pub held : Loaded
  pub loaded : Loaded

-- The two calls: updateIngress for the ingress, with the hosts that it is given and the secret of the
-- name `key`, and addItem for the new data of that secret. The handler gives updateIngress the hosts
-- of the ingress's rules for a TLS section that names no hosts, and none for one that names some.
module _ (p : Platform) (ing : IngressKey) (key : SecretKey) (hosts : List GoString)
    (contents : SecretData) where
  abbrev pub act : Move → World → World
  act fetches w = let (st, cert) = get_cert p w.st key in record w { st = st; held = cert }
  act commits w = record w { st = commit_ingress ing key hosts w.held w.st }
  act stores w = record w { st = record (w.st) { secrets = insert key contents w.st.secrets } }
  act loads w = let (st, cert) = get_cert p w.st key in record w { st = st; loaded = cert }
  act refreshes w = record w {
    st = record (w.st) { cert_map = update_secret key (cert_of w.loaded) w.st.cert_map };
  }

  abbrev pub acts : List Move → World → World
  acts [] w = w
  acts (m ∷ ms) w = acts ms (act m w)

abbrev pub of_ingress : List Move
of_ingress = fetches ∷ commits ∷ []

abbrev pub of_secret : List Move
of_secret = stores ∷ loads ∷ refreshes ∷ []

-- The orders that mix two lists of moves.
pub data Interleaves : List Move → List Move → List Move → Type 0 where
  ends : Interleaves [] [] []
  first :
      {m : Move} {xs ys zs : List Move} → Interleaves xs ys zs → Interleaves (m ∷ xs) ys (m ∷ zs)
  second :
      {m : Move} {xs ys zs : List Move} → Interleaves xs ys zs → Interleaves xs (m ∷ ys) (m ∷ zs)
