-- ===== src/Models/Values.antt =====
-- Tests and defaults on the mixed values of a dictionary.
use compliance_pulse.Prelude.{
  zero, pos, Text, Bool, true, false, Option, none, some, not, is_empty, lookup, if◌then◌else◌,
}
use compliance_pulse.Models.Scanning.{Value, null, text, number, flag, other, Metadata}

-- The truth value of a dictionary's value, a missing one included.
unfoldable pub truthy : Option Value → Bool
truthy none = false
truthy (some null) = false
truthy (some (text t)) = not (is_empty t)
truthy (some (number (pos zero))) = false
truthy (some (number _)) = true
truthy (some (flag b)) = b
truthy (some (other _)) = true

abbrev pub or_value : Value → Option Value → Value
or_value default none = default
or_value default (some v) = if truthy (some v) then v else default

-- `metadata.get(key) or default`
unfoldable pub value_or : Text → Metadata → Value → Value
unfolding truthy
value_or key metadata default = or_value default (lookup key metadata)
