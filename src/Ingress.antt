-- ===== src/Ingress.antt =====
-- ingress.go, up to the handler: the ingresses by host, their order, the matching of a request
-- against one rule, one host's group and the whole set, and the update and removal of an ingress.
pub mod Paths
pub mod Rule
pub mod Prefix
pub mod Group
pub mod Hosts
pub mod Serving
pub mod Order
pub mod Sort
pub mod Update
pub mod Validity
pub mod Tests
use minke.Base.{
  ℕ, ◌+◌, ◌-◌, Bool, true, false, ◌&&◌, not, List, [], ◌∷◌, ◌++◌, Option, none, some, ltb,
  if◌then◌else◌, ◌==◌, ℕ_eq, List_ℕ-eq, length, take, get_elem?, filter,
}
use minke.Base.Int.{ℤ, ltb_ℤ, pos}
use minke.GoText.{GoString, bytes, itoa, has_prefix, has_suffix, str_lt, wildcard_name}
use minke.GoMap.{GoMap, lookup, insert, map_values}
use minke.Panic.{Run, ret, throw, runtime, ◌>>=◌}
use minke.Http.{Request}
use minke.Endpoints.{ServiceKey}

pub data PathType : Type 0 where
  glob prefix exact re2 : PathType
  -- Any other value of the underlying int.
  unknown : ℕ → PathType

unfoldable pub path_type_string : PathType → GoString
path_type_string glob = bytes "glob"
path_type_string re2 = bytes "re2"
path_type_string prefix = bytes "prefix"
path_type_string exact = bytes "exact"
path_type_string (unknown n) = bytes "(unknown:" ++ (itoa (pos n) ++ bytes ")")

-- A compiled expression of package regexp, by its method FindStringSubmatch; a nil result is [].
pub record Regexp : Type 0 where
  pub find_string_submatch : GoString → List GoString

pub record IngressRule : Type 0 where
  pub host : GoString
  pub re : Option Regexp
  pub path_type : PathType
  pub path : GoString
  pub backend : ServiceKey

pub record Ingress : Type 0 where
  pub name : GoString
  pub namespace : GoString
  pub priority : Option ℤ
  pub default_backend : Option ServiceKey
  pub rules : List IngressRule
  pub http_redir : Bool

-- `ingressGroupByPriority` is the same list, with an order.
abbrev pub IngressHostGroup : Type 0
IngressHostGroup = List Ingress

abbrev pub IngressSet : Type 0
IngressSet = GoMap GoString IngressHostGroup

abbrev pub is_nil {ℓ} : {A : Type ℓ} → Option A → Bool
is_nil none = true
is_nil (some a) = false

-- `a != nil && b != nil && *a < *b`
abbrev pub value_lt : Option ℤ → Option ℤ → Bool
value_lt (some a) (some b) = ltb_ℤ a b
value_lt none b = false
value_lt (some a) none = false

unfoldable pub less : Ingress → Ingress → Bool
less a b =
    if is_nil a.priority && not (is_nil b.priority)
    then true
    else if not (is_nil a.priority) && is_nil b.priority
    then false
    else if value_lt a.priority b.priority
    then true
    else if value_lt b.priority a.priority
    then false
    else if str_lt a.name b.name
    then true
    else if str_lt b.name a.name
    then false
    else if str_lt a.namespace b.namespace
    then true
    else false

-- `if path[i] == '/' { return i + 1, false }`, and the fall through; an index out of range panics.
unfoldable pub slash_at : GoString → ℕ → Run (ℕ × Bool)
slash_at path i = elim (get_elem? path i) [
  | none ↦ throw runtime
  | some c ↦ ret (if c == b'/' then (i + 1, false) else (0, false))
]

-- The body that the glob and the prefix cases share: `sub` is `subPath`, or the rule's path.
unfoldable pub match_under : GoString → GoString → Run (ℕ × Bool)
unfolding slash_at
match_under sub path =
    if has_prefix path sub
    then if sub == bytes "/"
      then ret (length sub, false)
      else if length path == length sub
      then ret (length sub, false)
      else slash_at path (length sub)
    else ret (0, false)

-- `subPath`: the path without its last two bytes, or "/" in place of "".
unfoldable pub glob_sub_path : GoString → GoString
glob_sub_path path = let sub = take (length path - 2) path in if sub == [] then bytes "/" else sub

unfoldable pub match_glob : GoString → GoString → Run (ℕ × Bool)
unfolding match_under glob_sub_path
match_glob rule_path path =
    if has_suffix rule_path (bytes "/*")
    then match_under (glob_sub_path rule_path) path
    else if path == rule_path
    then ret (length rule_path, false)
    else if path == rule_path ++ bytes "/"
    then ret (length rule_path + 1, false)
    else ret (0, false)

-- A method call on a nil expression panics.
unfoldable pub match_re : Option Regexp → GoString → Run (ℕ × Bool)
match_re none path = throw runtime
match_re (some re) path = elim (re.find_string_submatch path) [
  | [] ↦ ret (0, false)
  | m ∷ ms ↦ ret (length m, false)
]

-- The switch on the path type.
unfoldable pub match_path : PathType → IngressRule → GoString → Run (ℕ × Bool)
unfolding match_glob match_under match_re
match_path glob ir path = match_glob ir.path path
match_path re2 ir path = match_re ir.re path
match_path exact ir path = if path == ir.path then ret (length ir.path, true) else ret (0, false)
match_path prefix ir path = match_under ir.path path
match_path (unknown n) ir path = ret (0, false)

-- The length of the match, and whether it is exact.
unfoldable pub match_rule : IngressRule → Request → Run (ℕ × Bool)
unfolding match_path
match_rule ir r =
    if not (ir.host == []) && not (ir.host == r.host)
    then ret (0, false)
    else match_path ir.path_type ir r.url.path

-- The variables of the loop over a group.
pub record Match : Type 0 where
  pub ing : Option Ingress
  pub matched : Option IngressRule
  pub match_len : ℕ

-- What one rule's result does to them.
unfoldable pub take_rule : Ingress → IngressRule → ℕ × Bool → Match → Match
take_rule ing rule (l, is_exact) m =
    let longer : Match =
      if ltb m.match_len l
      then record { ing = some ing; matched = some rule; match_len = l }
      else m in
    if l == longer.match_len && is_exact
    then record longer { ing = some ing; matched = some rule }
    else longer

unfoldable pub match_rules : Ingress → List IngressRule → Request → Match → Run Match
unfolding match_rule take_rule
match_rules ing [] r m = ret m
match_rules ing (rule ∷ rules) r m = do
  result ← match_rule rule r
  match_rules ing rules r (take_rule ing rule result m)

-- The ingress and its rule; each is a pointer that may be nil.
abbrev pub Found : Type 0
Found = Option Ingress × Option IngressRule

unfoldable pub match_group_from : IngressHostGroup → Request → Match → Run Found
unfolding match_rules
match_group_from [] r m = ret (m.ing, m.matched)
match_group_from (ing ∷ ings) r m = do
  m' ← match_rules ing ing.rules r (record m { match_len = 0 })
  elim m'.ing [ none ↦ match_group_from ings r m' | some _ ↦ ret (m'.ing, m'.matched) ]

unfoldable pub match_group : IngressHostGroup → Request → Run Found
unfolding match_group_from
match_group ings r = match_group_from ings r (record { ing = none; matched = none; match_len = 0 })

-- `ings, _ := is.set[n]`
abbrev pub group_at : GoString → IngressSet → IngressHostGroup
group_at n set = elim (lookup n set) [ none ↦ [] | some ings ↦ ings ]

-- `if ing != nil { return ing, rule }`, and what follows it.
abbrev pub or_next : Found → Run Found → Run Found
or_next (none, rule) next = next
or_next (some ing, rule) next = ret (some ing, rule)

-- The part of the set's `matchRule` after the group of the host itself.
unfoldable pub match_fallback : IngressSet → Request → Run Found
unfolding match_group wildcard_name
match_fallback set r =
    let default = match_group (group_at [] set) r in
    let wildcard =
      match_group (group_at (wildcard_name r.host) set) r >>= λ wild. or_next wild default in
    if ltb 0 (length r.host) then wildcard else default

unfoldable pub match_set : IngressSet → Request → Run Found
unfolding match_group match_fallback
match_set set r = do
  named ← match_group (group_at r.host set) r
  or_next named (match_fallback set r)

-- The loop that leaves out the entries of one ingress.
unfoldable pub without : GoString → GoString → IngressHostGroup → IngressHostGroup
without name namespace ings = filter (λ i. not (i.name == name && i.namespace == namespace)) ings

unfoldable pub clear : GoString → GoString → IngressSet → IngressSet
unfolding without
clear name namespace set = map_values (without name namespace) set

-- `sort` is sort.Sort, which is not stable and takes the order from `less`.
module _ (sort : (Ingress → Ingress → Bool) → IngressHostGroup → IngressHostGroup) where
  -- The loop over `newset`.
  unfoldable pub add_groups : IngressSet → IngressSet → IngressSet
  unfolding less
  add_groups [] set = set
  add_groups ((n, ings) ∷ newset) set =
      add_groups newset (insert n (sort less (group_at n set ++ ings)) set)

  unfoldable pub update : GoString → GoString → IngressSet → IngressSet → IngressSet
  unfolding add_groups without
  update name namespace newset set = add_groups newset (map_values (without name namespace) set)
