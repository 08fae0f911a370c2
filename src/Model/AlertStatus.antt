-- ===== src/Model/AlertStatus.antt =====
-- `AlertStatus` of src/model.rs: the status of an alert record
use beacon_alerts.Prelude.{String, ◌≡◌, refl, Bool, true, false, arith, ◌==◌, eq_iff, if◌then◌else◌}
use beacon_alerts.Fallible.{Result, ok, err, invalid_status}

pub data AlertStatus : Type 0 where
  firing resolved info : AlertStatus

abbrev pub as_str : AlertStatus → String
as_str firing = "firing"
as_str resolved = "resolved"
as_str info = "info"

unfoldable pub from_str : String → Result AlertStatus
from_str value =
    if value == "firing"
    then ok firing
    else if value == "resolved"
    then ok resolved
    else if value == "info"
    then ok info
    else err (invalid_status value)

-- the derived `PartialEq`
abbrev pub eq : AlertStatus → AlertStatus → Bool
eq firing firing = true
eq resolved resolved = true
eq info info = true
eq _ _ = false

pub eq_of_eq : (a b : AlertStatus) → eq a b ≡ true → a ≡ b
eq_of_eq firing firing h = refl
eq_of_eq firing resolved h = cc
eq_of_eq firing info h = cc
eq_of_eq resolved firing h = cc
eq_of_eq resolved resolved h = refl
eq_of_eq resolved info h = cc
eq_of_eq info firing h = cc
eq_of_eq info resolved h = cc
eq_of_eq info info h = refl

-- Printing and then parsing gives the value back.
pub from_str-as_str : (s : AlertStatus) → from_str (as_str s) ≡ ok s
unfolding from_str
from_str-as_str firing = refl
from_str-as_str resolved = refl
from_str-as_str info = refl

-- Only the printed form of a value parses to it.
pub as_str_of_from_str :
    (value : String) (s : AlertStatus) → from_str value ≡ ok s → value ≡ as_str s
unfolding from_str
as_str_of_from_str value firing h =
    ground (arith, eq_iff value "firing", eq_iff value "resolved", eq_iff value "info")
as_str_of_from_str value resolved h =
    ground (arith, eq_iff value "firing", eq_iff value "resolved", eq_iff value "info")
as_str_of_from_str value info h =
    ground (arith, eq_iff value "firing", eq_iff value "resolved", eq_iff value "info")
