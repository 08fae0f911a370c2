-- ===== src/Template/Validate.antt =====
-- `validate_template` of src/notification.rs, and what a template that passes looks like.
use Prim.Native.String.{len}
use beacon_alerts.Prelude.{
  ℕ, zero, suc, ◌≤◌, ◌<◌, String, ◌≡◌, refl, ap, sym, subst, ◌∙◌, ◌↔◌, inl, inr, Bool, true, false,
  not, ◌||◌, none, some, List, [], ◌∷◌, arith, ltb, Option-cases, length, All, contains, is_empty,
}
use beacon_alerts.Fallible.{
  Result, ok, ◌>>=◌, ◌>>◌, guard, or_fail, invalid_template_length, unmatched_brace,
  unclosed_placeholder, unsupported_placeholder,
}
use beacon_alerts.Template.Scan.{
  size, open_brace, close_brace, has, split_at, split_at-size, split_at-eq-some, split_at-eq-none,
  split_at-slotted, split_at-closed, split_at_absent, slotted, opened,
}
use beacon_alerts.Template.Render.{Slots, IsLayout, print_layout, length-print_layout}

abbrev pub allowed_placeholders : List String
allowed_placeholders =
    "icon" ∷ "status" ∷ "host" ∷ "title" ∷ "detail" ∷ "action" ∷ "severity" ∷ "fields" ∷ []

-- the test of the `matches!`
unfoldable pub is_allowed : String → Bool
is_allowed placeholder = contains allowed_placeholders placeholder

-- the loop over `rest`, and the test behind it
unfoldable pub validate_loop : ℕ → String → String → Result (Unit {0})
validate_loop zero name rest = guard (not (has close_brace rest)) (unmatched_brace name)
validate_loop (suc fuel) name rest = elim (split_at open_brace rest) [
  | none ↦ guard (not (has close_brace rest)) (unmatched_brace name)
  | some (_, after) ↦ do
    (placeholder, behind) ← or_fail (split_at close_brace after) unclosed_placeholder
    guard (is_allowed placeholder) (unsupported_placeholder name placeholder)
    validate_loop fuel name behind
]

unfoldable pub validate_template : String → String → Result (Unit {0})
unfolding validate_loop
validate_template name template = do
  guard (not (is_empty template || ltb 4096 (len template))) (invalid_template_length name)
  validate_loop (suc (size template)) name template

-- A template made of allowed placeholders and of texts, the last without a closing brace.
abbrev pub IsTemplate : Slots → String → Type 0
IsTemplate slots tail =
    IsLayout slots tail
    × All (λ slot. is_allowed slot.1 ≡ true) slots
    × (has close_brace tail ≡ false)

abbrev pub Layout : String → Type 0
Layout template =
    (slots : Slots) × (tail : String) × (template ≡ print_layout slots tail) × IsTemplate slots tail

validate_loop-end :
    (name rest : String)
    → split_at open_brace rest ≡ none
    → guard (not (has close_brace rest)) (unmatched_brace name) ≡ ok tt
    → Layout rest
unfolding print_layout
validate_loop-end name rest q h =
    ([], rest, refl, ((tt, split_at-eq-none open_brace rest q), tt, ground arith))

Layout-slotted :
    (before name behind : String)
    → has open_brace before ≡ false
    → has close_brace name ≡ false
    → is_allowed name ≡ true
    → Layout behind
    → Layout (slotted before name behind)
unfolding print_layout
Layout-slotted before name behind o c a (slots, tail, e, (l, al, last)) = (
  (before, name) ∷ slots,
  tail,
  ap (slotted before name) e,
  ((((o, c), l.0), l.1), (a, al), last),
)

-- what a round that goes on has checked
validate_loop-step :
    (fuel : ℕ) (name rest before after : String)
    → split_at open_brace rest ≡ some (before, after)
    → validate_loop (suc fuel) name rest ≡ ok tt
    → (placeholder : String) × (behind : String) × (split_at close_brace after
        ≡ some (placeholder, behind))
      × (is_allowed placeholder ≡ true)
      × (validate_loop fuel name behind ≡ ok tt)
unfolding validate_loop
validate_loop-step fuel name rest before after q h =
    elim (Option-cases (split_at close_brace after)) [
      | inl u ↦ absurd (ground (arith, h, q, u))
      | inr ((placeholder, behind), u) ↦
          (placeholder, behind, u, ground (arith, h, q, u), ground (arith, h, q, u))
    ]

validate_loop-Layout :
    (fuel : ℕ) (name rest : String)
    → size rest < fuel
    → validate_loop fuel name rest ≡ ok tt
    → Layout rest
validate_loop-Layout zero name rest s h = absurd (omega arith)
validate_loop-Layout (suc fuel) name rest s h = elim (Option-cases (split_at open_brace rest)) [
  | inl q ↦ validate_loop-end name rest q (unfold validate_loop in rw (q, validate_loop) at h)
  | inr ((before, after), q) ↦
      let (placeholder, behind, u, a, r) = validate_loop-step fuel name rest before after q h in
      let (o, e) = split_at-eq-some "{" rest before after q in
      let (c, e') = split_at-eq-some "}" after placeholder behind u in
      subst Layout (sym (e ∙ ap (opened before) e')) (
        Layout-slotted before placeholder behind o c a (
          validate_loop-Layout fuel name behind
            (omega (
              arith,
              split_at-size open_brace rest before after q,
              split_at-size close_brace after placeholder behind u,
            ))
            r))
]

validate_loop-slotted :
    (fuel : ℕ) (name before slot behind : String)
    → has open_brace before ≡ false
    → has close_brace slot ≡ false
    → is_allowed slot ≡ true
    → validate_loop (suc fuel) name (slotted before slot behind) ≡ validate_loop fuel name behind
unfolding validate_loop
validate_loop-slotted fuel name before slot behind o c a =
    rw (split_at-slotted before slot behind o, validate_loop)
      (rw (split_at-closed slot behind c) (rw a refl))

validate_loop-tail :
    (fuel : ℕ) (name tail : String)
    → has open_brace tail ≡ false
    → has close_brace tail ≡ false
    → validate_loop (suc fuel) name tail ≡ ok tt
unfolding validate_loop
validate_loop-tail fuel name tail o c =
    rw (split_at_absent open_brace tail o, validate_loop) (rw c refl)

validate_loop_of_IsTemplate :
    (fuel : ℕ) (name : String) (slots : Slots) (tail : String)
    → length slots < fuel
    → IsTemplate slots tail
    → validate_loop fuel name (print_layout slots tail) ≡ ok tt
unfolding print_layout
validate_loop_of_IsTemplate zero name slots tail h t = absurd (omega arith)
validate_loop_of_IsTemplate (suc fuel) name [] tail h (l, _, last) =
    validate_loop-tail fuel name tail l.1 last
validate_loop_of_IsTemplate (suc fuel) name ((before, slot) ∷ slots) tail h (l, a, last) =
    validate_loop-slotted fuel name before slot (print_layout slots tail) l.0.0.0 l.0.0.1 a.0
    ∙ validate_loop_of_IsTemplate fuel name slots tail (omega arith) ((l.0.1, l.1), a.1, last)

validate_loop_of_Layout :
    (name template : String)
    → Layout template
    → validate_loop (suc (size template)) name template ≡ ok tt
validate_loop_of_Layout name template (slots, tail, e, t) = rw e (
    validate_loop_of_IsTemplate (suc (size (print_layout slots tail))) name slots tail
      (omega (arith, length-print_layout slots tail)) t)

validate_template-Layout :
    (name template : String) → validate_template name template ≡ ok tt → Layout template
unfolding validate_template
validate_template-Layout name template h =
    validate_loop-Layout (suc (size template)) name template (omega arith) (ground arith)

-- A template passes validation exactly when it has 1 to 4096 bytes and is a sequence of texts
-- without an opening brace and of allowed placeholders in braces, the last text having no closing
-- brace either.
pub validate_template_iff :
    (name template : String)
    → (validate_template name template ≡ ok tt)
      ↔ ((is_empty template ≡ false) × (len template ≤ 4096) × Layout template)
unfolding validate_template
validate_template_iff name template = (
  λ h. (ground arith, ground arith, validate_template-Layout name template h),
  λ p. ground (arith, p.0, p.1, validate_loop_of_Layout name template p.2),
)
