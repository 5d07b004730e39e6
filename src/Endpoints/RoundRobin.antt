-- ===== src/Endpoints/RoundRobin.antt =====
-- The order in which `getNextAddr` hands out the addresses of a set.
use minke.Base.{
  ℕ, zero, suc, ◌+◌, ◌-◌, ◌%◌, ◌<◌, List, [], ◌∷◌, some, if◌then◌else◌, length, get_elem?, ◌≡◌,
  arith, inl, inr, ◌⊎◌, ltb, Bool-cases, ap, ◌∙◌, sym,
}
use native.Mathlib.Nat.{mod-lt, mod-add-mod, mod-eq_of_lt, add-mod_right}
use minke.GoMap.{lookup}
use minke.GoMap.Laws.{lookup-insert}
use minke.Panic.{ret}
use minke.Endpoints.{
  ServiceKey, ServiceKey-eq, ServiceAddr, ServiceAddrSet, EpsSet, u64_mod, pick, get_next_addr,
}

-- The set after `n` requests for one key.
unfoldable pub asked : ℕ → EpsSet → ServiceKey → EpsSet
unfolding get_next_addr
asked zero eps key = eps
asked (suc n) eps key = asked n (get_next_addr eps key).0 key

-- A request moves the counter on by one and keeps the addresses.
lookup-get_next_addr :
    (eps : EpsSet) (key : ServiceKey) (set : ServiceAddrSet)
    → lookup key eps ≡ some set
    → lookup key (get_next_addr eps key).0
      ≡ some (record { addrs = set.addrs; index = (set.index + 1) % u64_mod })
unfolding get_next_addr
lookup-get_next_addr eps key set found =
    rw (found, get_next_addr)
      (lookup-insert key key (record { addrs = set.addrs; index = (set.index + 1) % u64_mod }) eps
        ∙ ground arith)

lookup-asked :
    (n : ℕ) (eps : EpsSet) (key : ServiceKey) (set : ServiceAddrSet)
    → lookup key eps ≡ some set
    → set.index + n < u64_mod
    → lookup key (asked n eps key) ≡ some (record { addrs = set.addrs; index = set.index + n })
unfolding asked
lookup-asked zero eps key set found h = ground arith
lookup-asked (suc n) eps key set found h =
    lookup-asked n (get_next_addr eps key).0 key _ (lookup-get_next_addr eps key set found)
      (omega arith)
    ∙ ap (λ (i : ℕ). some (record { addrs = set.addrs; index = i })) (omega arith)

-- The number of requests before the one that reaches position `p`.
wait : ℕ → ℕ → ℕ → ℕ
wait m n p = if ltb p (m % n) then p + n - m % n else p - m % n

wait-lt : (m n p : ℕ) → p < n → wait m n p < n
unfolding wait
wait-lt m n p h = grind arith

-- The remainder comes round to `p`, either before the end of the list or after it.
wait_round : (m n p : ℕ) → p < n → (m % n + wait m n p ≡ p) ⊎ (m % n + wait m n p ≡ p + n)
unfolding wait
wait_round m n p h = elim (Bool-cases (ltb p (m % n))) [
  | inl after ↦ inr (let r : m % n < n = mod-lt m (omega arith) in ground arith)
  | inr before ↦ inl (ground arith)
]

wait_mod : (m n p : ℕ) → p < n → (m + wait m n p) % n ≡ p
wait_mod m n p h = sym (mod-add-mod m n (wait m n p)) ∙ elim (wait_round m n p h) [
  | inl e ↦ ap (λ (t : ℕ). t % n) e ∙ mod-eq_of_lt h
  | inr e ↦ ap (λ (t : ℕ). t % n) e ∙ (add-mod_right p n ∙ mod-eq_of_lt h)
]

lt-length_of_get_elem? :
    (xs : List ServiceAddr) (p : ℕ) (a : ServiceAddr) → get_elem? xs p ≡ some a → p < length xs
lt-length_of_get_elem? [] p a e = cc
lt-length_of_get_elem? (x ∷ xs) zero a e = omega arith
lt-length_of_get_elem? (x ∷ xs) (suc p) a e = omega (arith, lt-length_of_get_elem? xs p a e)

pick_at :
    (addrs : List ServiceAddr) (count p : ℕ) (a : ServiceAddr)
    → get_elem? addrs p ≡ some a
    → count % length addrs ≡ p
    → pick addrs count ≡ ret a
unfolding pick
pick_at addrs count p a at e =
    let lt : p < length addrs = lt-length_of_get_elem? addrs p a at in ground arith

-- While the counter does not wrap, every address of a set is handed out within as many requests as
-- the set has addresses: some request, after fewer than that many others, returns it.
pub asked_fair :
    (eps : EpsSet) (key : ServiceKey) (set : ServiceAddrSet) (p : ℕ) (a : ServiceAddr)
    → lookup key eps ≡ some set
    → set.index + length set.addrs < u64_mod
    → get_elem? set.addrs p ≡ some a
    → (n : ℕ) × (n < length set.addrs) × ((get_next_addr (asked n eps key) key).1 ≡ ret a)
unfolding get_next_addr
asked_fair eps key set p a found room at = (
  n,
  short,
  rw (lookup-asked n eps key set found (omega (arith, short)), get_next_addr)
      (pick_at set.addrs _ p a at (
        ap (λ (t : ℕ). t % length set.addrs) counter
        ∙ wait_mod (set.index + 1) (length set.addrs) p lt)),
)
  where
    lt : p < length set.addrs
    lt = lt-length_of_get_elem? set.addrs p a at

    n : ℕ
    n = wait (set.index + 1) (length set.addrs) p

    short : n < length set.addrs
    short = wait-lt (set.index + 1) (length set.addrs) p lt

    counter : (set.index + n + 1) % u64_mod ≡ set.index + 1 + n
    counter = omega (arith, short)
