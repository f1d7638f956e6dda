-- ===== src/Registry/Semver/Laws.antt =====
-- apps/registry/internal/store/store.go: compareVersion orders the versions.
use Prim.Native.Nat.{Ordering, compare}
use Prim.Native.String.{compare as compare_text, then as and_then}
use Prim.Native.String.compare.{nil-cons, cons-nil, cons-cons}
use mathlib.Core.Logic.{◌≢◌}
use runfabric.Prelude.{ℕ, String, ◌≡◌, refl, Option, none, some, arith}
use runfabric.Prelude.Int.{pos, eq_int, sub}
use runfabric.Registry.Semver.{
  Numbers, parse_semver, sign, compare_numbers, compare_parsed, compare_version,
}
use runfabric.Registry.Semver.Natural.{AreNatural, parse_semver-AreNatural}

abbrev pub swap : Ordering → Ordering
swap Ordering.lt = Ordering.gt
swap Ordering.eq = Ordering.eq
swap Ordering.gt = Ordering.lt

sign-sub : (a b : ℕ) → sign (sub (pos a) (pos b)) ≡ compare a b
unfolding sign sub
sign-sub a b = ground arith

-- The reference order: number by number.
abbrev lexicographic : ℕ → ℕ → ℕ → ℕ → ℕ → ℕ → Ordering
lexicographic a b c a' b' c' = and_then (compare a a') (and_then (compare b b') (compare c c'))

compare_numbers-eq-lexicographic :
    (x y : Numbers) {a b c a' b' c' : ℕ}
    → x.major ≡ pos a
    → x.minor ≡ pos b
    → x.patch ≡ pos c
    → y.major ≡ pos a'
    → y.minor ≡ pos b'
    → y.patch ≡ pos c'
    → compare_numbers x y ≡ lexicographic a b c a' b' c'
unfolding compare_numbers eq_int
compare_numbers-eq-lexicographic x y {a} {b} {c} {a'} {b'} {c'} p q r p' q' r' =
    simp (p, q, r, p', q', r') (ground (arith, sign-sub a a', sign-sub b b', sign-sub c c'))

pub compare_text-swap : (s t : String) → compare_text t s ≡ swap (compare_text s t)
compare_text-swap String.[] String.[] = refl
compare_text-swap String.[] (String.◌∷◌ d t) = rw (nil-cons, cons-nil) refl
compare_text-swap (String.◌∷◌ c s) String.[] = rw (nil-cons, cons-nil) refl
compare_text-swap (String.◌∷◌ c s) (String.◌∷◌ d t) =
    rw cons-cons (rw cons-cons (ground (arith, compare_text-swap s t)))

pub compare_text_trans :
    (s t u : String)
    → compare_text s t ≢ Ordering.gt
    → compare_text t u ≢ Ordering.gt
    → compare_text s u ≢ Ordering.gt
compare_text_trans String.[] t String.[] h k = cc
compare_text_trans String.[] t (String.◌∷◌ e u) h k = ground (arith, nil-cons e u)
compare_text_trans (String.◌∷◌ c s) String.[] u h k = ground (arith, cons-nil c s)
compare_text_trans (String.◌∷◌ c s) (String.◌∷◌ d t) String.[] h k = ground (arith, cons-nil d t)
compare_text_trans (String.◌∷◌ c s) (String.◌∷◌ d t) (String.◌∷◌ e u) h k = ground (
  arith,
  cons-cons c d s t,
  cons-cons d e t u,
  cons-cons c e s u,
  compare_text_trans s t u,
  compare_text-swap s t,
  compare_text-swap t u,
)

lexicographic_trans :
    (a b c a' b' c' a'' b'' c'' : ℕ)
    → lexicographic a b c a' b' c' ≢ Ordering.gt
    → lexicographic a' b' c' a'' b'' c'' ≢ Ordering.gt
    → lexicographic a b c a'' b'' c'' ≢ Ordering.gt
lexicographic_trans a b c a' b' c' a'' b'' c'' h k = ground arith

compare_numbers-swap :
    (x y : Numbers)
    → AreNatural (some x)
    → AreNatural (some y)
    → compare_numbers y x ≡ swap (compare_numbers x y)
compare_numbers-swap x y ((a, p), (b, q), (c, r)) ((a', p'), (b', q'), (c', r')) =
    rw
      (
        compare_numbers-eq-lexicographic x y p q r p' q' r',
        compare_numbers-eq-lexicographic y x p' q' r' p q r,
      )
      (ground arith)

compare_numbers_trans :
    (x y z : Numbers)
    → AreNatural (some x)
    → AreNatural (some y)
    → AreNatural (some z)
    → compare_numbers x y ≢ Ordering.gt
    → compare_numbers y z ≢ Ordering.gt
    → compare_numbers x z ≢ Ordering.gt
compare_numbers_trans x y z ((a, p), (b, q), (c, r)) ((a', p'), (b', q'), (c', r'))
      ((a'', p''), (b'', q''), (c'', r'')) h k =
    rw (compare_numbers-eq-lexicographic x z p q r p'' q'' r'') (
      lexicographic_trans a b c a' b' c' a'' b'' c''
        (rw (compare_numbers-eq-lexicographic x y p q r p' q' r') at h)
        (rw (compare_numbers-eq-lexicographic y z p' q' r' p'' q'' r'') at k))

compare_parsed-swap :
    (o o' : Option Numbers) (a b : String)
    → AreNatural o
    → AreNatural o'
    → compare_parsed o' o b a ≡ swap (compare_parsed o o' a b)
unfolding compare_parsed
compare_parsed-swap none none a b h k = compare_text-swap a b
compare_parsed-swap none (some y) a b h k = refl
compare_parsed-swap (some x) none a b h k = refl
compare_parsed-swap (some x) (some y) a b h k = compare_numbers-swap x y h k

compare_parsed_trans :
    (o o' o'' : Option Numbers) (a b c : String)
    → AreNatural o
    → AreNatural o'
    → AreNatural o''
    → compare_parsed o o' a b ≢ Ordering.gt
    → compare_parsed o' o'' b c ≢ Ordering.gt
    → compare_parsed o o'' a c ≢ Ordering.gt
unfolding compare_parsed
compare_parsed_trans none none none a b c n n' n'' h k = compare_text_trans a b c h k
compare_parsed_trans none o' (some z) a b c n n' n'' h k = cc
compare_parsed_trans none (some y) none a b c n n' n'' h k = absurd (k refl)
compare_parsed_trans (some x) none o'' a b c n n' n'' h k = absurd (h refl)
compare_parsed_trans (some x) (some y) none a b c n n' n'' h k = absurd (k refl)
compare_parsed_trans (some x) (some y) (some z) a b c n n' n'' h k =
    compare_numbers_trans x y z n n' n'' h k

pub compare_version-swap : (a b : String) → compare_version b a ≡ swap (compare_version a b)
unfolding compare_version
compare_version-swap a b =
    compare_parsed-swap (parse_semver a) (parse_semver b) a b (parse_semver-AreNatural a)
      (parse_semver-AreNatural b)

pub not_gt_trans :
    (a b c : String)
    → compare_version a b ≢ Ordering.gt
    → compare_version b c ≢ Ordering.gt
    → compare_version a c ≢ Ordering.gt
unfolding compare_version
not_gt_trans a b c h k =
    compare_parsed_trans (parse_semver a) (parse_semver b) (parse_semver c) a b c
      (parse_semver-AreNatural a) (parse_semver-AreNatural b) (parse_semver-AreNatural c) h k

-- compareVersion is a total preorder of all texts: what is not above a version that is not above a third
-- one is not above that one either, and the two ways round of a comparison are opposite.
pub compare_version_trans :
    (a b c : String)
    → compare_version a b ≢ Ordering.gt
    → compare_version b c ≢ Ordering.gt
    → (compare_version a c ≢ Ordering.gt)
      × (compare_version c a ≢ Ordering.lt)
      × (compare_version c a ≡ swap (compare_version a c))
compare_version_trans a b c h k =
    let e = compare_version-swap a c in let n = not_gt_trans a b c h k in (n, ground arith, e)
