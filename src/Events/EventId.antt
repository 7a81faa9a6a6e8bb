-- ===== src/Events/EventId.antt =====
-- crates/rg-events/src/lib.rs: `deterministic_event_id`, that is
-- `format!("evt-{sequence:018}-{kind_slug}")`, with Rust's decimal print written out.
use Prim.Native.String.{◌++◌ as append}
use hotgraph.Prelude.{
  ℕ, zero, suc, ◌-◌, ◌/◌, ◌%◌, String, List, [], ◌∷◌, ◌++◌, ◌==◌, nat_ord, if◌then◌else◌, ◌≡◌, refl,
}
use hotgraph.Prelude.Lists.{length}
use hotgraph.Core.Types.{EventId}

-- the digits of a number, the last digit first; a `u64` has at most 20
unfoldable pub digits : ℕ → ℕ → List ℕ
digits zero n = []
digits (suc fuel) n = let rest = digits fuel (n / 10) in n % 10 ∷ (if n / 10 == 0 then [] else rest)

unfoldable pub zeros : ℕ → List ℕ
zeros zero = []
zeros (suc n) = 0 ∷ zeros n

-- `{sequence:018}`: zeros fill the width
unfoldable pub padded : ℕ → List ℕ
unfolding digits zeros
padded n = let ds = digits 20 n in ds ++ zeros (18 - length ds)

unfoldable pub digit_text : ℕ → String
digit_text zero = "0"
digit_text (suc zero) = "1"
digit_text (suc (suc zero)) = "2"
digit_text (suc (suc (suc zero))) = "3"
digit_text (suc (suc (suc (suc zero)))) = "4"
digit_text (suc (suc (suc (suc (suc zero))))) = "5"
digit_text (suc (suc (suc (suc (suc (suc zero)))))) = "6"
digit_text (suc (suc (suc (suc (suc (suc (suc zero))))))) = "7"
digit_text (suc (suc (suc (suc (suc (suc (suc (suc zero)))))))) = "8"
digit_text _ = "9"

unfoldable pub print_digits : List ℕ → String → String
unfolding digit_text
print_digits [] text = text
print_digits (d ∷ ds) text = print_digits ds (append (digit_text d) text)

unfoldable pub deterministic_event_id : ℕ → String → EventId
unfolding padded print_digits
deterministic_event_id sequence kind_slug =
    append "evt-" (print_digits (padded sequence) (append "-" kind_slug))

first_id : deterministic_event_id 1 "source-added" ≡ "evt-000000000000000001-source-added"
unfolding deterministic_event_id
first_id = refl

long_id : deterministic_event_id 12345678901234567890 "x" ≡ "evt-12345678901234567890-x"
unfolding deterministic_event_id
long_id = refl
