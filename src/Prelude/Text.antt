-- ===== src/Prelude/Text.antt =====
-- `str::trim`, by characters. `len` of the library counts the bytes of the UTF-8, as Rust's does.
use Prim.Native.Nat.{ℕ}
use Prim.Native.Char.{Char, code}
use Prim.Native.String.{String, [], ◌∷◌, ◌++◌ as append}
use text.Mathlib.TextLemmas.{cons-append}
use mathlib.Core.Path.{◌≡◌, refl, ap, ◌∙◌}
use mathlib.Core.Logic.{inl, inr}
use mathlib.Core.Bool.{Bool, true, false, ◌&&◌, ◌||◌}
use beacon_alerts.Prelude.Tests.{leb, eqb, if◌then◌else◌, Bool-cases}

-- `char::is_whitespace`: the code points with the property White_Space
unfoldable pub is_whitespace : ℕ → Bool
is_whitespace c =
    (leb 0x9 c && leb c 0xd)
    || (eqb c 0x20
        || (eqb c 0x85
            || (eqb c 0xa0
                || (eqb c 0x1680
                    || ((leb 0x2000 c && leb c 0x200a)
                        || (eqb c 0x2028
                            || (eqb c 0x2029
                                || (eqb c 0x202f || (eqb c 0x205f || eqb c 0x3000)))))))))

trim_start : String → String
trim_start [] = []
trim_start (c ∷ s) = if is_whitespace (code c) then trim_start s else c ∷ s

cons_unless_blank : Char → String → String
cons_unless_blank c [] = if is_whitespace (code c) then [] else c ∷ []
cons_unless_blank c (d ∷ s) = c ∷ d ∷ s

trim_end : String → String
unfolding cons_unless_blank
trim_end [] = []
trim_end (c ∷ s) = cons_unless_blank c (trim_end s)

unfoldable pub trim : String → String
unfolding trim_start trim_end is_whitespace
trim s = trim_end (trim_start s)

abbrev pub is_empty : String → Bool
is_empty [] = true
is_empty (c ∷ s) = false

-- `trim().is_empty()`
unfoldable pub is_blank : String → Bool
unfolding trim
is_blank s = is_empty (trim s)

abbrev pub all_whitespace : String → Bool
all_whitespace [] = true
all_whitespace (c ∷ s) = is_whitespace (code c) && all_whitespace s

is_empty-cons_unless_blank :
    (c : Char) (s : String)
    → is_empty (cons_unless_blank c s) ≡ (is_whitespace (code c) && is_empty s)
unfolding cons_unless_blank
is_empty-cons_unless_blank c [] = elim (Bool-cases (is_whitespace (code c))) [
  | inl e ↦ rw e refl
  | inr e ↦ rw e refl
]
is_empty-cons_unless_blank c (d ∷ s) = elim (Bool-cases (is_whitespace (code c))) [
  | inl e ↦ rw e refl
  | inr e ↦ rw e refl
]

is_empty-trim_end : (s : String) → is_empty (trim_end s) ≡ all_whitespace s
unfolding trim_end
is_empty-trim_end [] = refl
is_empty-trim_end (c ∷ s) =
    is_empty-cons_unless_blank c (trim_end s)
    ∙ ap (λ b. is_whitespace (code c) && b) (is_empty-trim_end s)

all_whitespace-trim_start : (s : String) → all_whitespace (trim_start s) ≡ all_whitespace s
unfolding trim_start
all_whitespace-trim_start [] = refl
all_whitespace-trim_start (c ∷ s) = elim (Bool-cases (is_whitespace (code c))) [
  | inl e ↦ rw (e, trim_start) (all_whitespace-trim_start s)
  | inr e ↦ rw (e, trim_start) (rw e refl)
]

-- A text is blank exactly when all its characters are white space.
pub is_blank_lem : (s : String) → is_blank s ≡ all_whitespace s
unfolding is_blank
is_blank_lem s = is_empty-trim_end (trim_start s) ∙ all_whitespace-trim_start s

trim_end-newline : (s : String) → trim_end (append s "\n") ≡ trim_end s
unfolding trim_end cons_unless_blank is_whitespace
trim_end-newline [] = refl
trim_end-newline (c ∷ s) = rw cons-append (ap (cons_unless_blank c) (trim_end-newline s))

cons_unless_blank-solid :
    (c : Char) (s : String) → is_whitespace (code c) ≡ false → cons_unless_blank c s ≡ c ∷ s
unfolding cons_unless_blank
cons_unless_blank-solid c [] solid = rw solid refl
cons_unless_blank-solid c (d ∷ s) solid = refl

trim_end-cons_unless_blank :
    (c : Char) (t : String)
    → trim_end t ≡ t
    → trim_end (cons_unless_blank c t) ≡ cons_unless_blank c t
unfolding trim_end cons_unless_blank
trim_end-cons_unless_blank c [] h = elim (Bool-cases (is_whitespace (code c))) [
  | inl e ↦ rw (e, cons_unless_blank) refl
  | inr e ↦ rw (e, cons_unless_blank) (rw e refl)
]
trim_end-cons_unless_blank c (d ∷ t) h = ap (cons_unless_blank c) h

trim_end-trim_end : (s : String) → trim_end (trim_end s) ≡ trim_end s
unfolding trim_end
trim_end-trim_end [] = refl
trim_end-trim_end (c ∷ s) = trim_end-cons_unless_blank c (trim_end s) (trim_end-trim_end s)

trim_start-solid :
    (c : Char) (s : String) → is_whitespace (code c) ≡ false → trim_start (c ∷ s) ≡ c ∷ s
unfolding trim_start
trim_start-solid c s solid = rw solid refl

-- a line that begins with a character that is not blank
trim_line-solid :
    (c : Char) (s : String)
    → is_whitespace (code c) ≡ false
    → trim_end (trim_start (append (trim_end (c ∷ s)) "\n")) ≡ trim_end (c ∷ s)
unfolding trim_end
trim_line-solid c s solid =
    rw (cons_unless_blank-solid c (trim_end s) solid, cons-append)
      (rw (trim_start-solid c (append (trim_end s) "\n") solid) (
        ap (cons_unless_blank c) (trim_end-newline (trim_end s) ∙ trim_end-trim_end s)
        ∙ cons_unless_blank-solid c (trim_end s) solid))

trim_line :
    (s : String)
    → trim_end (trim_start (append (trim_end (trim_start s)) "\n")) ≡ trim_end (trim_start s)
unfolding trim_start trim_end is_whitespace cons_unless_blank
trim_line [] = refl
trim_line (c ∷ s) = elim (Bool-cases (is_whitespace (code c))) [
  | inl blank ↦ rw (blank, trim_start) (trim_line s)
  | inr solid ↦ rw (solid, trim_start) (trim_line-solid c s solid)
]

-- A trimmed text, written as a line, is trimmed to itself.
pub trim-line : (s : String) → trim (append (trim s) "\n") ≡ trim s
unfolding trim
trim-line s = trim_line s

trim_solid :
    (c : Char) (s : String)
    → is_whitespace (code c) ≡ false
    → trim_end (trim_start (trim_end (c ∷ s))) ≡ trim_end (c ∷ s)
unfolding trim_end
trim_solid c s solid = rw (cons_unless_blank-solid c (trim_end s) solid) (
    rw (trim_start-solid c (trim_end s) solid) (
      ap (cons_unless_blank c) (trim_end-trim_end s)
      ∙ cons_unless_blank-solid c (trim_end s) solid))

trim_again :
    (s : String) → trim_end (trim_start (trim_end (trim_start s))) ≡ trim_end (trim_start s)
unfolding trim_start trim_end is_whitespace cons_unless_blank
trim_again [] = refl
trim_again (c ∷ s) = elim (Bool-cases (is_whitespace (code c))) [
  | inl blank ↦ rw (blank, trim_start) (trim_again s)
  | inr solid ↦ rw (solid, trim_start) (trim_solid c s solid)
]

-- Trimming again changes nothing.
pub trim-trim : (s : String) → trim (trim s) ≡ trim s
unfolding trim
trim-trim s = trim_again s
