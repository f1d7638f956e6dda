-- ===== src/Registry/Semver/Natural.antt =====
-- apps/registry/internal/store/store.go: the numbers that parseSemver gives are not negative, since the
-- text is cut at its first minus sign.
use Prim.Native.Char.{Char, code}
use runfabric.Prelude.{
  ℕ, String, ◌=?=◌, ◌≡◌, refl, false, Option, none, some, List, [], ◌∷◌, inl, inr, Bool-cases, All,
  ◌==◌, leb,
}
use runfabric.Prelude.Int.{ℤ, pos, max_int}
use runfabric.Prelude.Text.{trim_space, put_first, cut_at, split}
use runfabric.Registry.Semver.{
  positive, digits, atoi, Numbers, numbers_of, parse_parts, parse_semver, without_v,
}

-- The text lacks the byte.
abbrev Lacks : ℕ → String → Type 0
Lacks n String.[] = Unit
Lacks n (String.◌∷◌ c s) = ((code c == n) ≡ false) × Lacks n s

cut_at-Lacks : (sep : ℕ) (s : String) → Lacks sep (cut_at sep s)
unfolding cut_at
cut_at-Lacks sep String.[] = tt
cut_at-Lacks sep (String.◌∷◌ c s) = elim (Bool-cases (code c == sep)) [
  | inl e ↦ rw e tt
  | inr e ↦ rw e (e, cut_at-Lacks sep s)
]

put_first-Lacks :
    (n : ℕ) (c : Char) (l : List String)
    → (code c == n) ≡ false
    → All (Lacks n) l
    → All (Lacks n) (put_first c l)
put_first-Lacks n c [] e h = ((e, tt), tt)
put_first-Lacks n c (x ∷ l) e h = ((e, h.0), h.1)

split-Lacks : (n sep : ℕ) (s : String) → Lacks n s → All (Lacks n) (split sep s)
unfolding split
split-Lacks n sep String.[] h = (tt, tt)
split-Lacks n sep (String.◌∷◌ c s) h = elim (Bool-cases (code c == sep)) [
  | inl e ↦ rw e (tt, split-Lacks n sep s h.1)
  | inr e ↦ rw e (put_first-Lacks n c (split sep s) h.0 (split-Lacks n sep s h.1))
]

-- None of the numbers is negative, if there is one.
abbrev IsNatural : Option ℤ → Type 0
IsNatural none = Unit
IsNatural (some z) = (n : ℕ) × (z ≡ pos n)

abbrev pub AreNatural : Option Numbers → Type 0
AreNatural none = Unit
AreNatural (some x) =
    ((a : ℕ) × (x.major ≡ pos a)) × ((b : ℕ) × (x.minor ≡ pos b)) × ((c : ℕ) × (x.patch ≡ pos c))

positive-IsNatural : (o : Option ℕ) → IsNatural (positive o)
positive-IsNatural none = tt
positive-IsNatural (some n) = elim (Bool-cases (leb n max_int)) [
  | inl e ↦ rw e (n, refl)
  | inr e ↦ rw e tt
]

-- A text without a minus sign gives no negative number.
atoi-IsNatural : (s : String) → Lacks b'-' s → IsNatural (atoi s)
unfolding atoi
atoi-IsNatural String.[] h = tt
atoi-IsNatural (String.◌∷◌ c s) h = rw h.0 (elim (Bool-cases (code c == 43)) [
  | inl e ↦ rw e (positive-IsNatural (digits s))
  | inr e ↦ rw e (positive-IsNatural (digits (String.◌∷◌ c s)))
])

numbers_of-AreNatural :
    (m n p : Option ℤ) → IsNatural m → IsNatural n → IsNatural p → AreNatural (numbers_of m n p)
numbers_of-AreNatural none n p h i j = tt
numbers_of-AreNatural (some m) none p h i j = tt
numbers_of-AreNatural (some m) (some n) none h i j = tt
numbers_of-AreNatural (some m) (some n) (some p) h i j = (h, i, j)

parse_parts-AreNatural : (l : List String) → All (Lacks b'-') l → AreNatural (parse_parts l)
unfolding parse_parts
parse_parts-AreNatural [] h = tt
parse_parts-AreNatural (m ∷ []) h =
    numbers_of-AreNatural (atoi m) (some (pos 0)) (some (pos 0)) (atoi-IsNatural m h.0) (0, refl)
      (0, refl)
parse_parts-AreNatural (m ∷ n ∷ []) h =
    numbers_of-AreNatural (atoi m) (atoi n) (some (pos 0)) (atoi-IsNatural m h.0)
      (atoi-IsNatural n h.1.0) (0, refl)
parse_parts-AreNatural (m ∷ n ∷ p ∷ rest) h =
    numbers_of-AreNatural (atoi m) (atoi n) (atoi p) (atoi-IsNatural m h.0) (atoi-IsNatural n h.1.0)
      (atoi-IsNatural p h.1.1.0)

pub parse_semver-AreNatural : (v : String) → AreNatural (parse_semver v)
unfolding parse_semver
parse_semver-AreNatural v = elim (Bool-cases (trim_space (without_v v) =?= "")) [
  | inl e ↦ rw e tt
  | inr e ↦
      let t = cut_at b'+' (trim_space (without_v v)) in
      rw e (
        parse_parts-AreNatural (split b'.' (cut_at b'-' t))
          (split-Lacks b'-' b'.' (cut_at b'-' t) (cut_at-Lacks b'-' t)))
]
