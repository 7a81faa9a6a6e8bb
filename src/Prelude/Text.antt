-- ===== src/Prelude/Text.antt =====
-- Rust's `str::starts_with` and `str::contains`.
use Prim.Native.Char.{code}
use Prim.Native.String.{String, [], ◌∷◌}
use mathlib.Core.Bool.{Bool, true, false}
use mathlib.Core.Path.{◌≡◌, refl}
use hotgraph.Prelude.Tests.{if◌then◌else◌}
use hotgraph.Prelude.Order.{◌==◌, nat_ord}

-- The text begins with the pattern.
unfoldable pub starts_with : String → String → Bool
starts_with [] text = true
starts_with (c ∷ pattern) [] = false
starts_with (c ∷ pattern) (d ∷ text) =
    let rest = starts_with pattern text in if code c == code d then rest else false

-- The pattern stands somewhere in the text.
unfoldable pub text_contains : String → String → Bool
unfolding starts_with
text_contains pattern [] = starts_with pattern []
text_contains pattern (d ∷ text) =
    let rest = text_contains pattern text in if starts_with pattern (d ∷ text) then true else rest

plan_found : text_contains "PLAN" "HAS_PLAN_B" ≡ true
unfolding text_contains
plan_found = refl
