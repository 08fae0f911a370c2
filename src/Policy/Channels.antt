-- ===== src/Policy/Channels.antt =====
-- The channels that a catalog gives an event: which ones, and each once.
use beacon_alerts.Prelude.{
  String, ◌≡◌, ap, inl, inr, Bool, ◌&&◌, ◌||◌, List, [], ◌∷◌, ◌++◌, arith, Bool-cases, text-cases,
  any, contains, contains-append, IsDistinct, append-IsDistinct, if◌then◌else◌, ◌==◌,
}
use beacon_alerts.Model.{Event}
use beacon_alerts.Policy.{PolicyRule, PolicyCatalog, matches, push_new, collect, channels_for}

-- The rule is enabled, matches the event and names the channel.
abbrev pub routes : Event → String → PolicyRule → Bool
routes event channel rule = rule.enabled && matches rule event && contains rule.channels channel

abbrev add_one : List String → String → List String
add_one xs y = if contains xs y then xs else xs ++ y ∷ []

contains-add_one :
    (xs : List String) (y c : String) → contains (add_one xs y) c ≡ (contains xs c || y == c)
contains-add_one xs y c = elim (text-cases y c) [
  | inl e ↦ elim (Bool-cases (contains xs y)) [
    | inl old ↦ rw old (ground (arith, old, ap (contains xs) e))
    | inr new ↦ rw new (ground (arith, contains-append xs (y ∷ []) c))
  ]
  | inr e ↦ elim (Bool-cases (contains xs y)) [
    | inl old ↦ rw old (ground (arith, e))
    | inr new ↦ rw new (ground (arith, contains-append xs (y ∷ []) c))
  ]
]

add_one-IsDistinct : (xs : List String) (y : String) → IsDistinct xs → IsDistinct (add_one xs y)
add_one-IsDistinct xs y d = elim (Bool-cases (contains xs y)) [
  | inl old ↦ rw old d
  | inr new ↦ rw new (append-IsDistinct xs y d new)
]

contains-push_new :
    (xs ys : List String) (c : String)
    → contains (push_new xs ys) c ≡ (contains xs c || contains ys c)
unfolding push_new
contains-push_new xs [] c = ground arith
contains-push_new xs (y ∷ ys) c =
    ground (arith, contains-push_new (add_one xs y) ys c, contains-add_one xs y c)

push_new-IsDistinct : (xs ys : List String) → IsDistinct xs → IsDistinct (push_new xs ys)
unfolding push_new
push_new-IsDistinct xs [] d = d
push_new-IsDistinct xs (y ∷ ys) d =
    push_new-IsDistinct (add_one xs y) ys (add_one-IsDistinct xs y d)

contains-collect :
    (e : Event) (xs : List String) (rs : List PolicyRule) (c : String)
    → contains (collect e xs rs) c ≡ (contains xs c || any (routes e c) rs)
unfolding collect
contains-collect e xs [] c = ground arith
contains-collect e xs (r ∷ rs) c = elim (Bool-cases (r.enabled && matches r e)) [
  | inl on ↦ rw on (
      ground (
        arith,
        on,
        contains-collect e (push_new xs r.channels) rs c,
        contains-push_new xs r.channels c,
      ))
  | inr off ↦ rw off (ground (arith, off, contains-collect e xs rs c))
]

collect-IsDistinct :
    (e : Event) (xs : List String) (rs : List PolicyRule)
    → IsDistinct xs
    → IsDistinct (collect e xs rs)
unfolding collect
collect-IsDistinct e xs [] d = d
collect-IsDistinct e xs (r ∷ rs) d = elim (Bool-cases (r.enabled && matches r e)) [
  | inl on ↦
      rw on (collect-IsDistinct e (push_new xs r.channels) rs (push_new-IsDistinct xs r.channels d))
  | inr off ↦ rw off (collect-IsDistinct e xs rs d)
]

-- An event goes to a channel exactly when an enabled rule that matches the event names it.
pub contains-channels_for :
    (cat : PolicyCatalog) (e : Event) (c : String)
    → contains (channels_for cat e) c ≡ any (routes e c) cat.rules
unfolding channels_for
contains-channels_for cat e c = contains-collect e [] cat.rules c

-- However many rules name a channel, an event goes to it once.
pub channels_for-IsDistinct : (cat : PolicyCatalog) (e : Event) → IsDistinct (channels_for cat e)
unfolding channels_for
channels_for-IsDistinct cat e = collect-IsDistinct e [] cat.rules tt
