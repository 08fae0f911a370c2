-- ===== src/Message/Fields.antt =====
-- `render_fields` of src/notification.rs: the facts that a template maps to fields.
use Prim.Native.Char.{code}
use Prim.Native.String.{[], ◌∷◌, ◌++◌ as append}
use beacon_alerts.Prelude.{
  ℕ, zero, suc, ◌≤◌, String, ◌≡◌, refl, inl, inr, Bool, true, false, not, ◌&&◌, ◌||◌, Option, none,
  some, List, arith, leb, Bool-cases, if◌then◌else◌,
}
use beacon_alerts.Model.{Event, Value}
use beacon_alerts.Template.{FieldTemplate}
use beacon_alerts.Template.Scan.{size}
use beacon_alerts.Template.Render.{get}

-- `char::is_control`: the code points of the category Cc
unfoldable pub is_control : ℕ → Bool
is_control c = leb c 0x1f || (leb 0x7f c && leb c 0x9f)

-- `chars().filter(…)`
unfoldable pub drop_controls : String → String
unfolding is_control
drop_controls [] = []
drop_controls (c ∷ s) = let rest = drop_controls s in if is_control (code c) then rest else c ∷ rest

-- `take(n)` of a text's characters
unfoldable pub take_chars : ℕ → String → String
take_chars zero s = []
take_chars (suc n) [] = []
take_chars (suc n) (c ∷ s) = c ∷ take_chars n s

-- a fact as text; arrays, objects and null have none
abbrev pub scalar_text : Value → Option String
scalar_text (Value.text value) = some value
scalar_text (Value.number value) = some value
scalar_text (Value.bool true) = some "true"
scalar_text (Value.bool false) = some "false"
scalar_text _ = none

abbrev pub scalar_fact : Option Value → Option String
scalar_fact none = none
scalar_fact (some value) = scalar_text value

unfoldable pub clean : String → String
unfolding drop_controls take_chars
clean value = take_chars 256 (drop_controls value)

-- `format!("{}: {}", …)` of a value that there is
abbrev line_of : String → Option String → Option String
line_of label none = none
line_of label (some value) = some (append label (append ": " (clean value)))

-- one field, or nothing
unfoldable pub render_field : List (String × Value) → FieldTemplate → Option String
unfolding clean
render_field facts field = line_of field.label (scalar_fact (get facts field.fact))

abbrev pub keep_some : Option String → List String → List String
keep_some none lines = lines
keep_some (some line) lines = List.◌∷◌ line lines

-- `filter_map(…).collect()`
unfoldable pub field_lines : List (String × Value) → List FieldTemplate → List String
unfolding render_field
field_lines facts List.[] = List.[]
field_lines facts (List.◌∷◌ field fields) =
    keep_some (render_field facts field) (field_lines facts fields)

-- `join("\n")`
unfoldable pub join_lines : List String → String
join_lines List.[] = ""
join_lines (List.◌∷◌ line List.[]) = line
join_lines (List.◌∷◌ line (List.◌∷◌ next lines)) =
    append line (append "\n" (join_lines (List.◌∷◌ next lines)))

unfoldable pub render_fields : Event → List FieldTemplate → String
unfolding field_lines join_lines
render_fields event fields = join_lines (field_lines event.facts fields)

-- No character of the text is a control character.
abbrev pub no_controls : String → Bool
no_controls [] = true
no_controls (c ∷ s) = not (is_control (code c)) && no_controls s

drop_controls-no_controls : (s : String) → no_controls (drop_controls s) ≡ true
unfolding drop_controls
drop_controls-no_controls [] = refl
drop_controls-no_controls (c ∷ s) = elim (Bool-cases (is_control (code c))) [
  | inl e ↦ rw (e, drop_controls) (drop_controls-no_controls s)
  | inr e ↦ rw (e, drop_controls) (rw e (drop_controls-no_controls s))
]

take_chars-no_controls :
    (n : ℕ) (s : String) → no_controls s ≡ true → no_controls (take_chars n s) ≡ true
unfolding take_chars
take_chars-no_controls zero s h = refl
take_chars-no_controls (suc n) [] h = refl
take_chars-no_controls (suc n) (c ∷ s) h = elim (Bool-cases (is_control (code c))) [
  | inl e ↦ absurd (ground (arith, e, h))
  | inr e ↦ rw e (take_chars-no_controls n s (ground (arith, e, h)))
]

size-take_chars : (n : ℕ) (s : String) → size (take_chars n s) ≤ n
unfolding take_chars size
size-take_chars zero s = omega arith
size-take_chars (suc n) [] = omega arith
size-take_chars (suc n) (c ∷ s) = omega (arith, size-take_chars n s)

-- The value of a field has at most 256 characters and no control character.
pub clean_bounds : (s : String) → (size (clean s) ≤ 256) × (no_controls (clean s) ≡ true)
unfolding clean
clean_bounds s = (
  size-take_chars 256 (drop_controls s),
  take_chars-no_controls 256 (drop_controls s) (drop_controls-no_controls s),
)
