-- ===== src/Mcp/Glob/Laws.antt =====
-- platform/workflow/runtime/workflow_mcp_runtime.go: globMatch against what a pattern means.
use runfabric.Prelude.{
  ℕ, zero, suc, ◌+◌, ◌<◌, ◌≤◌, ◌≡◌, refl, ◌∙◌, sym, Bool, true, false, ◌||◌, ◌&&◌, ◌==◌, none, some,
  List, [], ◌∷◌, if◌then◌else◌, length, arith, Bool-cases, inl, inr, ap, subst,
}
use runfabric.Mcp.Glob.Ends.{rounds, IsBounded, byte-rounds, star-rounds}
use runfabric.Mcp.Glob.{star, only_stars, Saved, retry, glob_round, glob_loop, glob_match}

-- Whether a property holds of a text or of a part of it that reaches to its end.
abbrev some_end : (List ℕ → Bool) → List ℕ → Bool
some_end f [] = f []
some_end f (c ∷ s) = f (c ∷ s) || some_end f s

abbrev first_is : ℕ → (List ℕ → Bool) → List ℕ → Bool
first_is d f [] = false
first_is d f (c ∷ s) = d == c && f s

-- The meaning of a pattern: a star stands for any text, every other byte for itself.
abbrev pub matches : List ℕ → List ℕ → Bool
matches [] [] = true
matches [] (c ∷ s) = false
matches (d ∷ p) s = if d == star then some_end (matches p) s else first_is d (matches p) s

abbrev has_star : List ℕ → Bool
has_star [] = false
has_star (c ∷ s) = c == star || has_star s

-- The ends that are left when the match of the star grows.
abbrev later : (List ℕ → Bool) → List ℕ → Bool
later f [] = false
later f (c ∷ t) = some_end f t

only_stars-matches : (p : List ℕ) → only_stars p ≡ matches p []
unfolding only_stars
only_stars-matches [] = refl
only_stars-matches (d ∷ p) = ground (arith, only_stars-matches p)

some_end-later : (f : List ℕ → Bool) (s : List ℕ) → some_end f s ≡ (f s || later f s)
some_end-later f [] = ground arith
some_end-later f (c ∷ s) = refl

some_end_twice : (f : List ℕ → Bool) (s : List ℕ) → some_end (some_end f) s ≡ some_end f s
some_end_twice f [] = refl
some_end_twice f (c ∷ s) = ground (arith, some_end_twice f s)

later_first :
    (d : ℕ) (f : List ℕ → Bool) (s : List ℕ) → some_end (first_is d f) s ≡ true → later f s ≡ true
later_first d f [] h = cc
later_first d f (c ∷ s) h = ground (arith, later_first d f s, some_end-later f s)

some_first :
    (d : ℕ) (p s : List ℕ)
    → (d == star) ≡ false
    → some_end (matches (d ∷ p)) s ≡ true
    → some_end (first_is d (matches p)) s ≡ true
some_first d p [] e h = ground arith
some_first d p (c ∷ s) e h = ground (arith, some_first d p s e)

abbrev answer : List ℕ → List ℕ → Saved → Bool
answer p s none = matches p s
answer p s (some (q, t)) = matches p s || later (matches q) t

-- `limit` is more than a pattern and a text have bytes.
module _ (limit size : ℕ) where
  abbrev IsSaved : List ℕ → List ℕ → Saved → Type 0
  IsSaved p s none = length s ≤ size
  IsSaved p s (some (q, t)) =
      (later (matches q) t ≡ true → later (matches p) s ≡ true)
      × (length s ≤ length t)
      × (length t ≤ size)
      × (has_star t ≡ false)
      × (length q + length t < limit)

  abbrev IsRight : ℕ → List ℕ → List ℕ → Saved → Type 0
  IsRight fuel p s saved =
      IsSaved p s saved
      → has_star s ≡ false
      → length p + length s < limit
      → rounds limit size p s saved < fuel
      → glob_loop fuel p s saved ≡ some (answer p s saved)

  retry-IsRight :
      (fuel : ℕ) (p : List ℕ) (c : ℕ) (s : List ℕ) (saved : Saved)
      → ((q t : List ℕ) → IsRight fuel q t (some (q, t)))
      → matches p (c ∷ s) ≡ false
      → IsSaved p (c ∷ s) saved
      → rounds limit size p (c ∷ s) saved < suc fuel
      → retry (glob_loop fuel) saved ≡ some (answer p (c ∷ s) saved)
  unfolding retry
  retry-IsRight fuel p c s none next no_match h lt = rw no_match
  retry-IsRight fuel p c s (some (q, [])) next no_match h lt = absurd (omega (arith, h.1))
  retry-IsRight fuel p c s (some (q, d ∷ t)) next no_match h lt =
      next q t (λ k. k, omega arith, omega (arith, h.2), ground (arith, h.3), omega (arith, h.4))
        (ground (arith, h.3)) (omega (arith, h.4)) (grind (arith, h.4))
      ∙ rw no_match (rw (some_end-later (matches q) t))

  end_ok : (p : List ℕ) (saved : Saved) → IsSaved p [] saved → only_stars p ≡ answer p [] saved
  end_ok p none h = only_stars-matches p
  end_ok p (some (q, t)) h = ground (arith, only_stars-matches p, h.0)

  -- A byte that is matched by itself leaves the saved star as it is.
  byte-IsSaved :
      (d : ℕ) (p s : List ℕ) (saved : Saved)
      → (d == star) ≡ false
      → IsSaved (d ∷ p) (d ∷ s) saved
      → IsSaved p s saved
  byte-IsSaved d p s none e h = omega (arith, h)
  byte-IsSaved d p s (some (q, t)) e h = (
    λ k. later_first d (matches p) s (some_first d p s e (h.0 k)),
    omega (arith, h.1),
    h.2,
    h.3,
    h.4,
  )

  byte-answer :
      (d : ℕ) (p s : List ℕ) (saved : Saved)
      → (d == star) ≡ false
      → answer (d ∷ p) (d ∷ s) saved ≡ answer p s saved
  byte-answer d p s none e = ground arith
  byte-answer d p s (some (q, t)) e = ground arith

  -- What is found from an older star is found from the new one.
  star-answer :
      (p : List ℕ) (c : ℕ) (s : List ℕ) (saved : Saved)
      → IsSaved (star ∷ p) (c ∷ s) saved
      → answer p (c ∷ s) (some (p, c ∷ s)) ≡ answer (star ∷ p) (c ∷ s) saved
  star-answer p c s none h = refl
  star-answer p c s (some (q, t)) h =
      ground (arith, h.0, some_end_twice (matches p) s, some_end_twice (matches p) (c ∷ s))

  saved-IsBounded :
      (p s : List ℕ) (saved : Saved) → IsSaved p s saved → IsBounded limit size p s saved
  saved-IsBounded p s none h = h
  saved-IsBounded p s (some (q, t)) h = (h.1, h.2, h.4)

  new-IsSaved :
      (d c : ℕ) (p s : List ℕ) (saved : Saved)
      → IsSaved (d ∷ p) (c ∷ s) saved
      → has_star (c ∷ s) ≡ false
      → length (d ∷ p) + length (c ∷ s) < limit
      → IsSaved p (c ∷ s) (some (p, c ∷ s))
  new-IsSaved d c p s none h no_star lt = (λ k. k, omega arith, h, no_star, omega arith)
  new-IsSaved d c p s (some (q, t)) h no_star lt =
      (λ k. k, omega arith, omega (arith, h.1, h.2), no_star, omega arith)

  glob_loop-IsRight : (fuel : ℕ) (p s : List ℕ) (saved : Saved) → IsRight fuel p s saved
  unfolding glob_loop glob_round
  glob_loop-IsRight zero p s saved h no_star small lt = elim lt [ ]
  glob_loop-IsRight (suc fuel) p [] saved h no_star small lt = ap some (end_ok p saved h)
  glob_loop-IsRight (suc fuel) [] (c ∷ s) saved h no_star small lt =
      retry-IsRight fuel [] c s saved (λ q t. glob_loop-IsRight fuel q t (some (q, t))) refl h lt
  glob_loop-IsRight (suc fuel) (d ∷ p) (c ∷ s) saved h no_star small lt =
      elim (Bool-cases (d == c)) [
        | inl e ↦
            let same : c ≡ d = ground arith in
            let plain : (d == star) ≡ false = ground arith in
            rw e (
              glob_loop-IsRight fuel p s saved
                (byte-IsSaved d p s saved plain (subst (λ x. IsSaved (d ∷ p) (x ∷ s) saved) same h))
                (ground arith) (omega arith) (byte-rounds limit size d c p s saved fuel lt)
              ∙ ap some (
                  sym (byte-answer d p s saved plain)
                  ∙ ap (λ x. answer (d ∷ p) (x ∷ s) saved) (sym same)))
        | inr e ↦ elim (Bool-cases (d == star)) [
          | inl is_star ↦
              let same : d ≡ star = ground arith in
              rw (e, is_star)
                (glob_loop-IsRight fuel p (c ∷ s) (some (p, c ∷ s))
                    (new-IsSaved d c p s saved h no_star small) no_star (omega arith)
                    (star-rounds limit size d c p s saved fuel
                      (saved-IsBounded (d ∷ p) (c ∷ s) saved h) lt)
                  ∙ ap some (
                      star-answer p c s saved (subst (λ x. IsSaved (x ∷ p) (c ∷ s) saved) same h)
                      ∙ ap (λ x. answer (x ∷ p) (c ∷ s) saved) (sym same)))
          | inr plain ↦
              rw (e, plain)
                (retry-IsRight fuel (d ∷ p) c s saved
                  (λ q t. glob_loop-IsRight fuel q t (some (q, t))) (ground arith) h lt)
        ]
      ]

-- For every text without a star, globMatch ends and answers whether the whole text has the form
-- of the pattern.
pub glob_match-eq-matches :
    (pattern s : List ℕ) → has_star s ≡ false → glob_match pattern s ≡ some (matches pattern s)
unfolding glob_match
glob_match-eq-matches p s h =
    glob_loop-IsRight (length p + length s + 1) (length s) _ p s none (omega arith) h (omega arith)
      (grind arith)
