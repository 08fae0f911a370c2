-- ===== src/Model/Severity.antt =====
-- `Severity` of src/model.rs: how urgent an event is
use beacon_alerts.Prelude.{String, ◌≡◌, refl, Bool, true, false, arith, ◌==◌, eq_iff, if◌then◌else◌}
use beacon_alerts.Fallible.{Result, ok, err, invalid_severity}

pub data Severity : Type 0 where
  critical warning info : Severity

abbrev pub as_str : Severity → String
as_str critical = "critical"
as_str warning = "warning"
as_str info = "info"

unfoldable pub from_str : String → Result Severity
from_str value =
    if value == "critical"
    then ok critical
    else if value == "warning"
    then ok warning
    else if value == "info"
    then ok info
    else err (invalid_severity value)

-- the derived `PartialEq`
abbrev pub eq : Severity → Severity → Bool
eq critical critical = true
eq warning warning = true
eq info info = true
eq _ _ = false

pub eq_of_eq : (a b : Severity) → eq a b ≡ true → a ≡ b
eq_of_eq critical critical h = refl
eq_of_eq critical warning h = cc
eq_of_eq critical info h = cc
eq_of_eq warning critical h = cc
eq_of_eq warning warning h = refl
eq_of_eq warning info h = cc
eq_of_eq info critical h = cc
eq_of_eq info warning h = cc
eq_of_eq info info h = refl

-- Printing and then parsing gives the value back.
pub from_str-as_str : (s : Severity) → from_str (as_str s) ≡ ok s
unfolding from_str
from_str-as_str critical = refl
from_str-as_str warning = refl
from_str-as_str info = refl

-- Only the printed form of a value parses to it.
pub as_str_of_from_str : (value : String) (s : Severity) → from_str value ≡ ok s → value ≡ as_str s
unfolding from_str
as_str_of_from_str value critical h =
    ground (arith, eq_iff value "critical", eq_iff value "warning", eq_iff value "info")
as_str_of_from_str value warning h =
    ground (arith, eq_iff value "critical", eq_iff value "warning", eq_iff value "info")
as_str_of_from_str value info h =
    ground (arith, eq_iff value "critical", eq_iff value "warning", eq_iff value "info")
