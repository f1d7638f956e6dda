-- ===== src/Compose/Position.antt =====
-- platform/workflow/core/compose_file.go: where a name stands in the order, and the map `idx`.
use runfabric.Prelude.{
  ℕ, suc, String, ◌=?=◌, ◌+◌, ◌<◌, ◌≡◌, refl, ◌∙◌, true, false, ◌||◌, some, List, [], ◌∷◌, ◌++◌,
  if◌then◌else◌, length, insert, lookup, lookup-insert, arith, eq_iff, text_eq_refl,
}
use runfabric.Compose.{contains, index_names, index_of}

-- The first place of a name; the length where it is missing.
abbrev pub position : String → List String → ℕ
position x [] = 0
position x (y ∷ l) = if y =?= x then 0 else suc (position x l)

abbrev pub IsDistinct : List String → Type 0
IsDistinct [] = Unit
IsDistinct (x ∷ l) = (contains x l ≡ false) × IsDistinct l

pub contains-append :
    (x : String) (k l : List String) → contains x (k ++ l) ≡ (contains x k || contains x l)
contains-append x [] l = refl
contains-append x (y ∷ k) l = ground (arith, contains-append x k l)

pub position-lt : (x : String) (l : List String) → contains x l ≡ true → position x l < length l
position-lt x [] h = cc
position-lt x (y ∷ l) h = ground (arith, position-lt x l)

pub position-append :
    (x : String) (k l : List String) → contains x k ≡ true → position x (k ++ l) ≡ position x k
position-append x [] l h = cc
position-append x (y ∷ k) l h = ground (arith, position-append x k l)

pub position_last :
    (n : String) (l : List String) → contains n l ≡ false → position n (l ++ n ∷ []) ≡ length l
position_last n [] h = ground (arith, text_eq_refl n)
position_last n (y ∷ l) h = ground (arith, position_last n l)

pub position_inj :
    (x y : String) (l : List String)
    → contains x l ≡ true
    → contains y l ≡ true
    → position x l ≡ position y l
    → x ≡ y
position_inj x y [] h k e = cc
position_inj x y (z ∷ l) h k e = ground (arith, position_inj x y l, eq_iff z x, eq_iff z y)

pub IsDistinct-append :
    (n : String) (l : List String) → IsDistinct l → contains n l ≡ false → IsDistinct (l ++ n ∷ [])
IsDistinct-append n [] h k = (refl, tt)
IsDistinct-append n (y ∷ l) h k = (
  ground (arith, contains-append y l (n ∷ []), eq_iff n y, eq_iff y n, h.0),
  IsDistinct-append n l h.1 (ground arith),
)

-- The map `idx` gives the places of distinct names.
lookup-index_names :
    (x : String) (i : ℕ) (l : List String) (m : List (String × ℕ))
    → IsDistinct l
    → lookup x (index_names i l m) ≡ (if contains x l then some (i + position x l) else lookup x m)
unfolding index_names
lookup-index_names x i [] m h = refl
lookup-index_names x i (n ∷ l) m h =
    lookup-index_names x (i + 1) l (insert n i m) h.1
    ∙ ground (arith, lookup-insert n x i m, eq_iff n x, h.0)

pub index_of-index_names :
    (x : String) (l : List String)
    → IsDistinct l
    → contains x l ≡ true
    → index_of x (index_names 0 l []) ≡ position x l
unfolding index_of
index_of-index_names x l h k = ground (arith, lookup-index_names x 0 l [] h)
