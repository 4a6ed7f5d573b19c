-- ===== src/Quality/Numbers.antt =====
-- What the rule engine asks of Python's numbers and times. They are a parameter: a float is a value
-- of `W`, of which nothing is assumed but where a lemma says so.
use mathlib.Core.Option
use datagenie.Prelude.Json.{Value, int, text, negative, fraction}
use datagenie.Prelude.Text.{Codes, codes}
use datagenie.Prelude.{
  Option, Bool, ◌∷◌, some, ℕ, if◌then◌else◌, String, true, eqb, none, [], false,
}
use datagenie.Catalog.Models.{Instant}

pub record Numbers (W : Type 0) : Type 0 where
  pub of_value : Value → Option W  -- `float(value)`; `none`: it raises
  pub to_value : W → Value
  pub zero : W
  pub infinite : W
  pub sub : W → W → W
  pub div : W → W → W
  pub abs : W → W
  pub le : W → W → Bool
  pub lt : W → W → Bool
  pub is_close : W → W → Bool  -- `math.isclose`
  pub fixed : ℕ → W → String  -- `f"{value:.2f}"` with the number of decimals
  pub from_iso : Codes → Option Instant  -- `datetime.fromisoformat`, in UTC; `none`: a `ValueError`
  pub iso : Instant → String
  pub minutes : Instant → Instant → W  -- `(until - from).total_seconds() / 60`
  pub non_negative : String → Bool  -- `0 <= value` of a number that is no integer
  pub at_most_one : String → Bool

abbrev pub is_number : Value → Bool
is_number (int n) = true
is_number (negative n) = true
is_number (fraction s) = true
is_number _ = false

-- `value.replace("Z", "+00:00")`
abbrev pub replace_z : Codes → Codes
replace_z [] = []
replace_z (c ∷ cs) =
    if eqb c b'Z' then b'+' ∷ b'0' ∷ b'0' ∷ b':' ∷ b'0' ∷ b'0' ∷ replace_z cs else c ∷ replace_z cs

module _ {W : Type 0} (nums : Numbers W) where
  -- `_as_number`: a Boolean is no number. The outer `none` is an exception of `float`.
  unfoldable pub as_number : Option Value → Option (Option W)
  as_number none = some none
  as_number (some v) = if is_number v then Option.map (λ w. some w) (nums.of_value v) else some none

  -- `_parse_timestamp`
  unfoldable pub parse_timestamp : Option Value → Option Instant
  parse_timestamp (some (text s)) = nums.from_iso (replace_z (codes s))
  parse_timestamp _ = none
