-- ===== src/Template/Render.antt =====
-- `render_template` of src/notification.rs.
use Prim.Native.String.{◌++◌ as append}
use text.Mathlib.TextLemmas.{nil-append, append_assoc}
use beacon_alerts.Prelude.{
  ℕ, zero, suc, ◌≤◌, ◌<◌, String, ◌≡◌, refl, ap, false, length, All, ◌∙◌, Option, none, some, List,
  [], ◌∷◌, arith, ◌==◌, if◌then◌else◌,
}
use beacon_alerts.Template.Scan.{
  size, open_brace, close_brace, has, split_at, split_at-slotted, split_at-closed, split_at_absent,
  size-slotted, closed, slotted,
}

-- `BTreeMap::get`
unfoldable pub get {ℓ} : {V : Type ℓ} → List (String × V) → String → Option V
get [] key = none
get ((k, v) ∷ entries) key = if k == key then some v else get entries key

-- the text that is pushed for a placeholder
abbrev pub value_or_empty : Option String → String
value_or_empty none = ""
value_or_empty (some value) = value

-- `find('}').unwrap_or(len)`: the placeholder, and what stands behind it
abbrev pub placeholder : String → String × String
placeholder after = elim (split_at close_brace after) [ none ↦ (after, "") | some cut ↦ cut ]

-- the loop, over `output` and `rest`
unfoldable pub render_loop : ℕ → List (String × String) → String → String → String
render_loop zero values output rest = append output rest
render_loop (suc fuel) values output rest = elim (split_at open_brace rest) [
  | none ↦ append output rest
  | some (before, after) ↦
      let (name, behind) = placeholder after in
      render_loop fuel values (append (append output before) (value_or_empty (get values name)))
        behind
]

unfoldable pub render_template : String → List (String × String) → String
unfolding render_loop
render_template template values = render_loop (suc (size template)) values "" template

-- A template as the texts before its placeholders, with the placeholders, and the text at its end.
abbrev pub Slots : Type 0
Slots = List (String × String)

unfoldable pub print_layout : Slots → String → String
print_layout [] tail = tail
print_layout ((before, name) ∷ slots) tail = slotted before name (print_layout slots tail)

abbrev pub IsLayout : Slots → String → Type 0
IsLayout slots tail =
    All (λ slot. (has open_brace slot.0 ≡ false) × (has close_brace slot.1 ≡ false)) slots
    × (has open_brace tail ≡ false)

-- Each placeholder replaced by its value, all else kept.
unfoldable pub expand : Slots → String → List (String × String) → String
expand [] tail values = tail
expand ((before, name) ∷ slots) tail values =
    append before (append (value_or_empty (get values name)) (expand slots tail values))

split_at-print_layout :
    (before name : String) (slots : Slots) (tail : String)
    → has open_brace before ≡ false
    → split_at open_brace (print_layout ((before, name) ∷ slots) tail)
      ≡ some (before, closed name (print_layout slots tail))
unfolding print_layout
split_at-print_layout before name slots tail h =
    split_at-slotted before name (print_layout slots tail) h

placeholder-append :
    (name behind : String)
    → has close_brace name ≡ false
    → placeholder (closed name behind) ≡ (name, behind)
placeholder-append name behind h = rw (split_at-closed name behind h, placeholder) refl

-- one round of the loop, at a placeholder
render_loop-slot :
    (fuel : ℕ) (values : List (String × String)) (output before name : String) (slots : Slots)
    (tail : String)
    → has open_brace before ≡ false
    → has close_brace name ≡ false
    → render_loop (suc fuel) values output (print_layout ((before, name) ∷ slots) tail)
      ≡ render_loop fuel values
          (append (append output before) (value_or_empty (get values name)))
          (print_layout slots tail)
unfolding render_loop
render_loop-slot fuel values output before name slots tail h k =
    rw (split_at-print_layout before name slots tail h, render_loop)
      (ap
        (λ (p : String × String).
          render_loop fuel values (append (append output before) (value_or_empty (get values p.0)))
            p.1)
        (placeholder-append name (print_layout slots tail) k))

-- the last round
render_loop-tail :
    (fuel : ℕ) (values : List (String × String)) (output tail : String)
    → has open_brace tail ≡ false
    → render_loop (suc fuel) values output (print_layout [] tail) ≡ append output tail
unfolding render_loop print_layout
render_loop-tail fuel values output tail h =
    rw (split_at_absent open_brace tail h, render_loop) refl

render_loop-expand :
    (fuel : ℕ) (values : List (String × String)) (output : String) (slots : Slots) (tail : String)
    → length slots < fuel
    → IsLayout slots tail
    → render_loop fuel values output (print_layout slots tail)
      ≡ append output (expand slots tail values)
unfolding expand
render_loop-expand zero values output slots tail h l = absurd (omega arith)
render_loop-expand (suc fuel) values output [] tail h l =
    render_loop-tail fuel values output tail l.1
render_loop-expand (suc fuel) values output ((before, name) ∷ slots) tail h l =
    render_loop-slot fuel values output before name slots tail l.0.0.0 l.0.0.1
    ∙ render_loop-expand fuel values _ slots tail (omega arith) (l.0.1, l.1)
    ∙ simp append_assoc

pub length-print_layout :
    (slots : Slots) (tail : String) → length slots ≤ size (print_layout slots tail)
unfolding print_layout size
length-print_layout [] tail = omega arith
length-print_layout ((before, name) ∷ slots) tail =
    omega
      (arith, size-slotted before name (print_layout slots tail), length-print_layout slots tail)

-- A template renders to its texts with each placeholder replaced by its value, and one without a
-- value by nothing. Values are not scanned again.
pub render_template-expand :
    (values : List (String × String)) (slots : Slots) (tail : String)
    → IsLayout slots tail
    → render_template (print_layout slots tail) values ≡ expand slots tail values
unfolding render_template
render_template-expand values slots tail l =
    render_loop-expand (suc (size (print_layout slots tail))) values "" slots tail
      (omega (arith, length-print_layout slots tail)) l
    ∙ nil-append (expand slots tail values)
