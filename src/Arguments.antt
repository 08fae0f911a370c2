-- ===== src/Arguments.antt =====
-- The arguments of the programs under src/bin/, by `clap`: options with their defaults, and flags.
use beacon_alerts.Prelude.{ℕ, String, Bool, Option, none, some, List, leb}
use beacon_alerts.Fallible.{
  Result, ok, ◌>>=◌, ◌>>◌, guard, or_fail, missing_argument, invalid_argument,
}

-- What `clap` finds for a command: the text of an option, and whether a flag is there.
pub record Matches : Type 0 where
  pub value : String → Option String
  pub flag : String → Bool

-- What the programs ask of `clap`: the names of the commands with their options, as they are found
-- on a command line, and the number that a text is.
pub record Clap : Type 0 where
  pub matches : List String → Result (List String × Matches)
  pub number : String → Option ℕ

abbrev pub u32_max : ℕ
u32_max = 4294967295

-- an option of the type `String` or `PathBuf`
abbrev pub required : Matches → String → Result String
required m name = or_fail (m.value name) (missing_argument name)

abbrev text_or_default : Option String → String → String
text_or_default none default = default
text_or_default (some text) default = text

-- `default_value`
abbrev pub value_or : Matches → String → String → String
value_or m name default = text_or_default (m.value name) default

abbrev number_or_default : Clap → String → ℕ → ℕ → Option String → Result ℕ
number_or_default clap name default bound none = ok default
number_or_default clap name default bound (some text) = do
  n ← or_fail (clap.number text) (invalid_argument name)
  guard (leb n bound) (invalid_argument name)
  ok n

-- `default_value_t`, for a number up to a bound
unfoldable pub number_or : Clap → Matches → String → ℕ → ℕ → Result ℕ
number_or clap m name default bound = number_or_default clap name default bound (m.value name)
