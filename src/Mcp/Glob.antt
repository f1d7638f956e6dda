-- ===== src/Mcp/Glob.antt =====
-- platform/workflow/runtime/workflow_mcp_runtime.go: globMatch and wildcardMatch. An index into a
-- text is the rest of the text from there on.
pub mod Laws
pub mod Ends
use runfabric.Prelude.{
  ℕ, zero, suc, String, ◌=?=◌, ◌+◌, ◌*◌, Bool, true, false, ◌||◌, ◌&&◌, ◌==◌, Option, none, some,
  List, [], ◌∷◌, if◌then◌else◌, length,
}
use runfabric.Prelude.Text.{codes, trim_space}

abbrev pub star : ℕ
star = 42

-- The loop after the text.
unfoldable pub only_stars : List ℕ → Bool
only_stars [] = true
only_stars (d ∷ p) = d == star && only_stars p

-- `starIdx` and `sTmp`: what stands behind the last star, and where its match began.
abbrev pub Saved : Type 0
Saved = Option (List ℕ × List ℕ)

-- The case of the loop that goes back to the last star: one more byte belongs to the star.
unfoldable pub retry : (List ℕ → List ℕ → Saved → Option Bool) → Saved → Option Bool
retry next none = some false
retry next (some (q, [])) = next q [] (some (q, []))
retry next (some (q, c ∷ t)) = next q t (some (q, t))

-- One round reads a byte; `none` is that the fuel ran out.
unfoldable pub glob_round :
    (List ℕ → List ℕ → Saved → Option Bool) → List ℕ → List ℕ → Saved → Option Bool
glob_round next p [] saved = some (only_stars p)
glob_round next [] (c ∷ s) saved = retry next saved
glob_round next (d ∷ p) (c ∷ s) saved =
    if d == c
    then next p s saved
    else if d == star
    then next p (c ∷ s) (some (p, c ∷ s))
    else retry next saved

unfoldable pub glob_loop : ℕ → List ℕ → List ℕ → Saved → Option Bool
glob_loop zero p s saved = none
glob_loop (suc fuel) p s saved = glob_round (glob_loop fuel) p s saved

unfoldable pub glob_match : List ℕ → List ℕ → Option Bool
unfolding glob_loop glob_round retry only_stars
glob_match pattern s = glob_loop ((length s + 2) * (length pattern + length s + 1)) pattern s none

unfoldable pub wildcard_match : String → String → Option Bool
unfolding glob_match trim_space
wildcard_match pattern value =
    if trim_space pattern =?= ""
    then some false
    else glob_match (codes (trim_space pattern)) (codes (trim_space value))
