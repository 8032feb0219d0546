-- ===== src/Common/Text.antt =====
-- C strings as lists of their characters, and the loop by which the code tests two for equality.
use Prim.Native.Nat.{ℕ}
use mathlib.Core.Path.{◌≡◌, refl, ap₂}
use mathlib.Core.Logic.{◌↔◌}
use mathlib.Core.Bool.{Bool, true, false, ◌&&◌}
use mathlib.Core.List.{List, [], ◌∷◌}
use native.Mathlib.Omega.{arith}
use shadow_box_os.Common.Tests.{◌==◌}

-- The loop that compares two strings character by character.
unfoldable pub matches : List ℕ → List ℕ → Bool
matches [] [] = true
matches [] (d ∷ ds) = false
matches (c ∷ cs) [] = false
matches (c ∷ cs) (d ∷ ds) = (c == d) && matches cs ds

matches-eq : (cs ds : List ℕ) → matches cs ds ≡ true → cs ≡ ds
unfolding matches
matches-eq [] [] h = refl
matches-eq [] (d ∷ ds) h = cc
matches-eq (c ∷ cs) [] h = cc
matches-eq (c ∷ cs) (d ∷ ds) h = ap₂ ◌∷◌ (ground arith) (matches-eq cs ds (ground arith))

pub matches_self : (cs : List ℕ) → matches cs cs ≡ true
unfolding matches
matches_self [] = refl
matches_self (c ∷ cs) = ground (arith, matches_self cs)

pub matches_iff : (cs ds : List ℕ) → (matches cs ds ≡ true) ↔ (cs ≡ ds)
matches_iff cs ds = (matches-eq cs ds, λ e. rw (← e) (matches_self cs))
