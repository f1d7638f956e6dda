-- ===== src/Registry/Resolve/Order.antt =====
-- apps/registry/internal/store/store.go: the order by which Resolve sorts its candidates.
use Prim.Native.Nat.{Ordering}
use Prim.Native.String.{compare as compare_text, then as and_then}
use mathlib.Core.Logic.{◌≢◌}
use runfabric.Prelude.{String, ◌≡◌, true, false, arith}
use runfabric.Registry.{ExtensionVersion}
use runfabric.Registry.Semver.{compare_version}
use runfabric.Registry.Semver.Laws.{
  swap, compare_version-swap, not_gt_trans, compare_text-swap, compare_text_trans,
}
use runfabric.Registry.Resolve.{is_above, precedes}

-- A comparison by which its arguments are ordered.
record IsComparison {ℓ} {A : Type ℓ} (f : A → A → Ordering) : Type ℓ where
  swaps : (a b : A) → f b a ≡ swap (f a b)
  trans : (a b c : A) → f a b ≢ Ordering.gt → f b c ≢ Ordering.gt → f a c ≢ Ordering.gt

abbrev both {ℓ} : {A : Type ℓ} → (A → A → Ordering) → (A → A → Ordering) → A → A → Ordering
both f g a b = and_then (f a b) (g a b)

module _ {ℓ} {A : Type ℓ} (f g : A → A → Ordering) (p : IsComparison f) (q : IsComparison g) where
  both_trans :
      (a b c : A)
      → both f g a b ≢ Ordering.gt
      → both f g b c ≢ Ordering.gt
      → both f g a c ≢ Ordering.gt
  both_trans a b c h k = ground (
    arith,
    p.swaps a c,
    p.swaps a b,
    p.swaps b c,
    p.trans a b c,
    p.trans c a b,
    p.trans b c a,
    q.trans a b c,
  )

  both-IsComparison : IsComparison (both f g)
  both-IsComparison = record {
    swaps = λ a b. ground (arith, p.swaps a b, q.swaps a b);
    trans = both_trans;
  }

abbrev by_version : ExtensionVersion → ExtensionVersion → Ordering
by_version v w = compare_version v.version w.version

abbrev by_time : ExtensionVersion → ExtensionVersion → Ordering
by_time v w = compare_text v.published_at w.published_at

abbrev by_text : ExtensionVersion → ExtensionVersion → Ordering
by_text v w = compare_text v.version w.version

abbrev by_all : ExtensionVersion → ExtensionVersion → Ordering
by_all = both by_version (both by_time by_text)

by_all-IsComparison : IsComparison by_all
by_all-IsComparison =
    let texts = λ (s t u : String). compare_text_trans s t u in
    both-IsComparison by_version (both by_time by_text)
      (record {
        swaps = λ v w. compare_version-swap v.version w.version;
        trans = λ v w x. not_gt_trans v.version w.version x.version;
      })
      (both-IsComparison by_time by_text
        (record {
          swaps = λ v w. compare_text-swap v.published_at w.published_at;
          trans = λ v w x. texts v.published_at w.published_at x.published_at;
        })
        (record {
          swaps = λ v w. compare_text-swap v.version w.version;
          trans = λ v w x. texts v.version w.version x.version;
        }))

precedes-eq-is_above : (v w : ExtensionVersion) → precedes v w ≡ is_above (by_all v w)
unfolding precedes
precedes-eq-is_above v w = ground arith

pub precedes_asymm : (v w : ExtensionVersion) → precedes v w ≡ true → precedes w v ≡ false
precedes_asymm v w h =
    ground
      (arith, precedes-eq-is_above v w, precedes-eq-is_above w v, by_all-IsComparison.swaps v w)

-- What does not precede a version that does not precede a third one does not precede that one.
pub not_precedes_trans :
    (v w x : ExtensionVersion) → precedes v w ≡ false → precedes w x ≡ false → precedes v x ≡ false
not_precedes_trans v w x h k = ground (
  arith,
  precedes-eq-is_above v w,
  precedes-eq-is_above w x,
  precedes-eq-is_above v x,
  by_all-IsComparison.trans v w x,
)
