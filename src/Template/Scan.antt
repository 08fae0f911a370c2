-- ===== src/Template/Scan.antt =====
-- Texts cut at a character: `find(c)` with the slices before and behind the place that it finds.
use Prim.Native.Char.{Char, code}
use Prim.Native.String.{[], ◌∷◌, ◌++◌ as append}
use text.Mathlib.TextLemmas.{nil-append, cons-append}
use text.Mathlib.TextEquality.{Char-path}
use mathlib.Core.Path.{subst}
use mathlib.Core.Option
use beacon_alerts.Prelude.{
  ℕ, suc, ◌+◌, ◌<◌, String, ◌≡◌, refl, sym, ◌∙◌, ap, inl, inr, Bool, false, ◌||◌, Option, none,
  some, arith, eqb, Bool-cases, Option-cases, if◌then◌else◌,
}

-- the number of characters
unfoldable pub size : String → ℕ
size [] = 0
size (c ∷ s) = suc (size s)

abbrev pub open_brace : ℕ
open_brace = b'{'

abbrev pub close_brace : ℕ
close_brace = b'}'

abbrev prepend : Char → String × String → String × String
prepend c (before, behind) = (c ∷ before, behind)

unfoldable pub split_at : ℕ → String → Option (String × String)
split_at c [] = none
split_at c (d ∷ s) = if eqb (code d) c then some ("", s) else Option.map (prepend d) (split_at c s)

-- `contains(c)`
unfoldable pub has : ℕ → String → Bool
has c [] = false
has c (d ∷ s) = eqb (code d) c || has c s

-- What stands behind the place found is shorter.
pub split_at-size : (c : ℕ) (s a b : String) → split_at c s ≡ some (a, b) → size b < size s
unfolding split_at size
split_at-size c [] a b h = cc
split_at-size c (d ∷ s) a b h = elim (Bool-cases (eqb (code d) c)) [
  | inl e ↦ ground (arith, e, h)
  | inr e ↦ elim (Option-cases (split_at c s)) [
    | inl q ↦ ground (arith, e, h, q)
    | inr ((a', b'), q) ↦ ground (arith, e, h, q, split_at-size c s a' b' q)
  ]
]

-- A text is cut where the character first stands.
pub split_at-append :
    (c : ℕ) (a : String) (d : Char) (b : String)
    → has c a ≡ false
    → code d ≡ c
    → split_at c (append a (d ∷ b)) ≡ some (a, b)
unfolding split_at has
split_at-append c [] d b h e = rw nil-append (ground (arith, e))
split_at-append c (x ∷ a) d b h e =
    rw cons-append (ground (arith, h, split_at-append c a d b (ground (arith, h)) e))

-- Without the character there is nothing to cut.
pub split_at_absent : (c : ℕ) (s : String) → has c s ≡ false → split_at c s ≡ none
unfolding split_at has
split_at_absent c [] h = refl
split_at_absent c (x ∷ s) h = ground (arith, h, split_at_absent c s (ground (arith, h)))

-- What is cut is the text before the character, the character and the text behind it.
abbrev pub Parts : ℕ → String → Option (String × String) → Type 0
Parts c s none = has c s ≡ false
Parts c s (some (a, b)) = (has c a ≡ false) × ((d : Char) × (code d ≡ c) × (s ≡ append a (d ∷ b)))

Parts-cons :
    (c : ℕ) (x : Char) (s : String) (o : Option (String × String))
    → eqb (code x) c ≡ false
    → Parts c s o
    → Parts c (x ∷ s) (Option.map (prepend x) o)
unfolding has
Parts-cons c x s none e h = ground (arith, e, h)
Parts-cons c x s (some (a, b)) e (h, (d, q, p)) =
    (ground (arith, e, h), (d, q, ap (◌∷◌ x) p ∙ sym (cons-append x a (d ∷ b))))

pub split_at-Parts : (c : ℕ) (s : String) → Parts c s (split_at c s)
unfolding split_at has
split_at-Parts c [] = refl
split_at-Parts c (x ∷ s) = elim (Bool-cases (eqb (code x) c)) [
  | inl e ↦ rw e (refl, (x, ground (arith, e), sym (nil-append (x ∷ s))))
  | inr e ↦ rw e (Parts-cons c x s (split_at c s) e (split_at-Parts c s))
]

size-cons : (c : Char) (s : String) → size (c ∷ s) ≡ suc (size s)
unfolding size
size-cons c s = refl

pub size-append : (s t : String) → size (append s t) ≡ size s + size t
unfolding size
size-append [] t = rw nil-append (omega arith)
size-append (c ∷ s) t = rw cons-append (omega (arith, size-append s t))

-- the name of a placeholder, its closing brace and what stands behind it
abbrev pub closed : String → String → String
closed name behind = append name ("}" ∷ behind)

-- a text, an opening brace and what stands behind it
abbrev pub opened : String → String → String
opened before after = append before ("{" ∷ after)

-- a text, and then a placeholder
abbrev pub slotted : String → String → String → String
slotted before name behind = opened before (closed name behind)

pub split_at-closed :
    (name behind : String)
    → has close_brace name ≡ false
    → split_at close_brace (closed name behind) ≡ some (name, behind)
split_at-closed name behind h = split_at-append close_brace name "}" behind h refl

pub split_at-slotted :
    (before name behind : String)
    → has open_brace before ≡ false
    → split_at open_brace (slotted before name behind) ≡ some (before, closed name behind)
split_at-slotted before name behind h =
    split_at-append open_brace before "{" (closed name behind) h refl

pub size-slotted :
    (before name behind : String)
    → size (slotted before name behind) ≡ size before + size name + size behind + 2
size-slotted before name behind = omega (
  arith,
  size-append before ("{" ∷ closed name behind),
  size-cons "{" (closed name behind),
  size-append name ("}" ∷ behind),
  size-cons "}" behind,
)

Parts-eq :
    (c : Char) (s : String) (o : Option (String × String)) (a b : String)
    → Parts (code c) s o
    → o ≡ some (a, b)
    → (has (code c) a ≡ false) × (s ≡ append a (c ∷ b))
Parts-eq c s none a b p e = absurd (cc)
Parts-eq c s (some (a', b')) a b (h, (d, k, p)) e =
    let ea : a' ≡ a = ground arith in
    let eb : b' ≡ b = ground arith in (rw (← ea) h, p ∙ cc (ea, eb, Char-path d c k))

-- A text that was cut at `c` is the two parts with `c` between them.
pub split_at-eq-some :
    (c : Char) (s a b : String)
    → split_at (code c) s ≡ some (a, b)
    → (has (code c) a ≡ false) × (s ≡ append a (c ∷ b))
split_at-eq-some c s a b e = Parts-eq c s (split_at (code c) s) a b (split_at-Parts (code c) s) e

pub split_at-eq-none : (c : ℕ) (s : String) → split_at c s ≡ none → has c s ≡ false
split_at-eq-none c s e = subst (Parts c s) e (split_at-Parts c s)
