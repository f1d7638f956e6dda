-- ===== src/Registry/Semver.antt =====
-- apps/registry/internal/store/store.go: versions and constraints on them. `lt`, `eq` and `gt` stand for
-- the results -1, 0 and 1 of compareVersion.
pub mod Natural
pub mod Laws
pub mod Core
use Prim.Native.Nat.{Ordering}
use Prim.Native.Char.{code}
use Prim.Native.String.{compare as compare_text}
use runfabric.Prelude.{
  ℕ, zero, suc, ◌+◌, ◌-◌, ◌*◌, String, ◌=?=◌, Bool, true, false, not, ◌&&◌, ◌||◌, Option, none,
  some, List, [], ◌∷◌, if◌then◌else◌, leb, ◌==◌,
}
use runfabric.Prelude.Int.{ℤ, pos, negsuc, eq_int, sub, max_int}
use runfabric.Prelude.Text.{trim_space, has_prefix, drop_text, cut_at, split}

-- The digits of a number, the read ones in `seen`.
unfoldable pub read_digits : ℕ → String → Option ℕ
read_digits seen String.[] = some seen
read_digits seen (String.◌∷◌ c s) =
    if leb 48 (code c) && leb (code c) 57 then read_digits (seen * 10 + (code c - 48)) s else none

unfoldable pub digits : String → Option ℕ
unfolding read_digits
digits String.[] = none
digits (String.◌∷◌ c s) = read_digits 0 (String.◌∷◌ c s)

abbrev pub positive : Option ℕ → Option ℤ
positive none = none
positive (some n) = if leb n max_int then some (pos n) else none

abbrev pub negative : Option ℕ → Option ℤ
negative none = none
negative (some zero) = some (pos 0)
negative (some (suc n)) = if leb n max_int then some (negsuc n) else none

-- strconv.Atoi
unfoldable pub atoi : String → Option ℤ
unfolding digits
atoi String.[] = none
atoi (String.◌∷◌ c s) =
    if code c == 45
    then negative (digits s)
    else if code c == 43
    then positive (digits s)
    else positive (digits (String.◌∷◌ c s))

pub record Numbers : Type 0 where
  pub major : ℤ
  pub minor : ℤ
  pub patch : ℤ

abbrev pub numbers_of : Option ℤ → Option ℤ → Option ℤ → Option Numbers
numbers_of (some m) (some n) (some p) = some (record { major = m; minor = n; patch = p })
numbers_of none n p = none
numbers_of (some m) none p = none
numbers_of (some m) (some n) none = none

-- The numbers that the parts give: the first is needed, the next two are 0 if they are missing.
unfoldable pub parse_parts : List String → Option Numbers
unfolding atoi
parse_parts [] = none
parse_parts (m ∷ []) = numbers_of (atoi m) (some (pos 0)) (some (pos 0))
parse_parts (m ∷ n ∷ []) = numbers_of (atoi m) (atoi n) (some (pos 0))
parse_parts (m ∷ n ∷ p ∷ rest) = numbers_of (atoi m) (atoi n) (atoi p)

abbrev pub without_v : String → String
without_v v = if has_prefix v "v" then drop_text 1 v else v

-- parseSemver, where `none` is the answer `false`
unfoldable pub parse_semver : String → Option Numbers
unfolding trim_space has_prefix drop_text cut_at split parse_parts
parse_semver v =
    let t = trim_space (without_v v) in
    if t =?= "" then none else parse_parts (split b'.' (cut_at b'-' (cut_at b'+' t)))

unfoldable pub sign : ℤ → Ordering
sign (pos zero) = Ordering.eq
sign (pos (suc n)) = Ordering.gt
sign (negsuc n) = Ordering.lt

unfoldable pub compare_numbers : Numbers → Numbers → Ordering
unfolding eq_int sub sign
compare_numbers x y =
    if not (eq_int x.major y.major)
    then sign (sub x.major y.major)
    else if not (eq_int x.minor y.minor)
    then sign (sub x.minor y.minor)
    else if not (eq_int x.patch y.patch)
    then sign (sub x.patch y.patch)
    else Ordering.eq

unfoldable pub compare_parsed : Option Numbers → Option Numbers → String → String → Ordering
unfolding compare_numbers
compare_parsed (some x) (some y) a b = compare_numbers x y
compare_parsed (some x) none a b = Ordering.gt
compare_parsed none (some y) a b = Ordering.lt
compare_parsed none none a b = compare_text a b

unfoldable pub compare_version : String → String → Ordering
unfolding parse_semver compare_parsed
compare_version a b = compare_parsed (parse_semver a) (parse_semver b) a b

-- The operators that splitConstraint answers.
pub data Operator : Type 0 where
  at_least at_most above below same : Operator

unfoldable pub split_constraint : String → Operator × String
unfolding trim_space has_prefix drop_text
split_constraint s =
    if has_prefix s ">="
    then (at_least, trim_space (drop_text 2 s))
    else if has_prefix s "<="
    then (at_most, trim_space (drop_text 2 s))
    else if has_prefix s ">"
    then (above, trim_space (drop_text 1 s))
    else if has_prefix s "<"
    then (below, trim_space (drop_text 1 s))
    else if has_prefix s "="
    then (same, trim_space (drop_text 1 s))
    else (same, trim_space s)

-- What each operator asks of the comparison of the core with its version.
abbrev pub admits : Operator → Ordering → Bool
admits at_least Ordering.lt = false
admits at_least Ordering.eq = true
admits at_least Ordering.gt = true
admits above Ordering.lt = false
admits above Ordering.eq = false
admits above Ordering.gt = true
admits at_most Ordering.lt = true
admits at_most Ordering.eq = true
admits at_most Ordering.gt = false
admits below Ordering.lt = true
admits below Ordering.eq = false
admits below Ordering.gt = false
admits same Ordering.lt = false
admits same Ordering.eq = true
admits same Ordering.gt = false

abbrev pub constraint_holds : String → Operator × String → Bool
constraint_holds core (op, ver) = admits op (compare_version core ver)

unfoldable pub part_holds : String → String → Bool
part_holds core part =
    let p = trim_space part in if p =?= "" then true else constraint_holds core (split_constraint p)

unfoldable pub all_hold : String → List String → Bool
all_hold core [] = true
all_hold core (part ∷ rest) = part_holds core part && all_hold core rest

unfoldable pub core_compatible : String → String → Bool
core_compatible core constraint =
    let c = trim_space constraint in
    if c =?= "" || c =?= "*"
    then true
    else let k = trim_space core in if k =?= "" then false else all_hold k (split b',' c)
