-- ===== src/GoText.antt =====
-- Go's strings, as the sequences of their bytes, and what the program uses of packages strings,
-- strconv and fmt.
pub mod Order
pub mod Laws
use Prim.Native.Char.{code}
use Prim.Native.String.{String}
use minke.Base.Int.{ℤ, pos, negsuc}
use minke.Base.{
  ℕ, zero, suc, ◌-◌, ◌+◌, ◌/◌, ◌%◌, Bool, true, false, ◌||◌, ◌&&◌, List, [], ◌∷◌, ◌++◌, Option,
  none, some, ltb, if◌then◌else◌, ◌==◌, ℕ_eq, List_ℕ-eq, length, take,
}

abbrev pub GoString : Type 0
GoString = List ℕ

-- A literal of the source: its bytes are its code points, since all are ASCII.
abbrev pub bytes : String → GoString
bytes String.[] = []
bytes (String.◌∷◌ c s) = code c ∷ bytes s

-- `s < t` on strings.
unfoldable pub str_lt : GoString → GoString → Bool
str_lt [] [] = false
str_lt [] (d ∷ t) = true
str_lt (c ∷ s) [] = false
str_lt (c ∷ s) (d ∷ t) = if ltb c d then true else if ltb d c then false else str_lt s t

-- strings.HasPrefix
unfoldable pub has_prefix : GoString → GoString → Bool
has_prefix s [] = true
has_prefix [] (d ∷ p) = false
has_prefix (c ∷ s) (d ∷ p) = c == d && has_prefix s p

-- strings.HasSuffix
unfoldable pub has_suffix : GoString → GoString → Bool
has_suffix [] p = [] == p
has_suffix (c ∷ s) p = c ∷ s == p || has_suffix s p

-- The first part of a split, before the others.
abbrev pub push_front : ℕ → List GoString → List GoString
push_front c [] = (c ∷ []) ∷ []
push_front c (part ∷ parts) = (c ∷ part) ∷ parts

-- strings.Split with a separator of one byte.
unfoldable pub split : GoString → ℕ → List GoString
split [] sep = [] ∷ []
split (c ∷ s) sep = if c == sep then [] ∷ split s sep else push_front c (split s sep)

-- strings.Join
unfoldable pub join : List GoString → GoString → GoString
join [] sep = []
join (part ∷ []) sep = part
join (part ∷ part' ∷ parts) sep = part ++ (sep ++ join (part' ∷ parts) sep)

-- strings.ToLower on the bytes of ASCII.
unfoldable pub to_lower : GoString → GoString
to_lower [] = []
to_lower (c ∷ s) = (if ltb 64 c && ltb c 91 then c + 32 else c) ∷ to_lower s

-- strings.SplitN(s, sep, 2) with a separator of one byte.
unfoldable pub split_two : GoString → ℕ → List GoString
split_two [] sep = [] ∷ []
split_two (c ∷ s) sep = if c == sep then [] ∷ s ∷ [] else push_front c (split_two s sep)

-- `name[0] = x` on the parts of a split.
abbrev pub set_first : GoString → List GoString → List GoString
set_first x [] = []
set_first x (part ∷ parts) = x ∷ parts

abbrev pub elem : GoString → List GoString → Bool
elem s [] = false
elem s (t ∷ ts) = s == t || elem s ts

-- strconv.ParseBool: `none` is the syntax error, beside which the value is false.
unfoldable pub parse_bool : GoString → Option Bool
parse_bool s =
    if elem s (bytes "1" ∷ bytes "t" ∷ bytes "T" ∷ bytes "TRUE" ∷ bytes "true" ∷ bytes "True" ∷ [])
    then some true
    else if elem s
        (bytes "0" ∷ bytes "f" ∷ bytes "F" ∷ bytes "FALSE" ∷ bytes "false" ∷ bytes "False" ∷ [])
    then some false
    else none

-- The decimal digits of `n` before `acc`; `n + 1` rounds are enough.
digits_from : ℕ → ℕ → GoString → GoString
digits_from zero n acc = acc
digits_from (suc fuel) n acc =
    let rest = digits_from fuel (n / 10) ((b'0' + n % 10) ∷ acc) in
    if ltb n 10 then (b'0' + n) ∷ acc else rest

-- strconv.Itoa
unfoldable pub itoa : ℤ → GoString
unfolding digits_from
itoa (pos n) = digits_from (suc n) n []
itoa (negsuc n) = b'-' ∷ digits_from (suc (n + 1)) (n + 1) []

-- The host with its first label replaced by `*`, as both `matchRule` and `GetCertificate` make it.
unfoldable pub wildcard_name : GoString → GoString
unfolding split join
wildcard_name host = join (set_first (bytes "*") (split host b'.')) (bytes ".")
