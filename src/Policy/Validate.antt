-- ===== src/Policy/Validate.antt =====
-- `PolicyCatalog::validate` of src/policy.rs.
use Prim.Native.String.{len}
use beacon_alerts.Prelude.{
  ℕ, ◌≤◌, String, ◌≡◌, refl, ◌↔◌, false, not, ◌||◌, List, [], ◌∷◌, arith, ltb, length, is_nil, All,
  is_blank,
}
use beacon_alerts.Fallible.{
  Result, ok, ◌>>◌, >>=-eq-ok, guard, too_many_rules, invalid_rule_name, invalid_channel,
  invalid_channel_count,
}
use beacon_alerts.Policy.{PolicyRule, PolicyCatalog}

unfoldable pub validate_channels : List String → Result (Unit {0})
validate_channels [] = ok tt
validate_channels (channel ∷ channels) = do
  guard (not (is_blank channel || ltb 64 (len channel))) invalid_channel
  validate_channels channels

-- the body of the loop over the rules
unfoldable pub validate_rule : PolicyRule → Result (Unit {0})
validate_rule rule = do
  guard (not (is_blank rule.name || ltb 128 (len rule.name))) invalid_rule_name
  guard (not (is_nil rule.channels || ltb 16 (length rule.channels)))
      (invalid_channel_count rule.name)
  validate_channels rule.channels

unfoldable pub validate_rules : List PolicyRule → Result (Unit {0})
unfolding validate_rule
validate_rules [] = ok tt
validate_rules (rule ∷ rules) = do validate_rule rule; validate_rules rules

unfoldable pub validate : PolicyCatalog → Result (Unit {0})
unfolding validate_rules
validate catalog = do
  guard (not (ltb 256 (length catalog.rules))) too_many_rules
  validate_rules catalog.rules

abbrev pub IsName : ℕ → String → Type 0
IsName n s = (is_blank s ≡ false) × (len s ≤ n)

pub record IsRule (r : PolicyRule) : Type 0 where
  pub named : IsName 128 r.name
  pub some_channel : 1 ≤ length r.channels
  pub few_channels : length r.channels ≤ 16
  pub each_channel : All (IsName 64) r.channels

abbrev pub IsCatalog : PolicyCatalog → Type 0
IsCatalog c = (length c.rules ≤ 256) × All IsRule c.rules

validate_channels-All : (cs : List String) → validate_channels cs ≡ ok tt → All (IsName 64) cs
unfolding validate_channels
validate_channels-All [] h = tt
validate_channels-All (c ∷ cs) h =
    let rest = validate_channels-All cs in (ground arith, rest (ground arith))

validate_channels_of_All : (cs : List String) → All (IsName 64) cs → validate_channels cs ≡ ok tt
unfolding validate_channels
validate_channels_of_All [] h = refl
validate_channels_of_All (c ∷ cs) h = ground (arith, validate_channels_of_All cs h.1)

some_channel_lem : (cs : List String) → is_nil cs ≡ false → 1 ≤ length cs
some_channel_lem [] h = cc
some_channel_lem (c ∷ cs) h = omega arith

not_nil_lem : (cs : List String) → 1 ≤ length cs → is_nil cs ≡ false
not_nil_lem [] h = absurd (omega arith)
not_nil_lem (c ∷ cs) h = refl

validate_rule-IsRule : (r : PolicyRule) → validate_rule r ≡ ok tt → IsRule r
unfolding validate_rule
validate_rule-IsRule r h = record {
  named = ground arith;
  some_channel = some_channel_lem r.channels (ground arith);
  few_channels = ground arith;
  each_channel = validate_channels-All r.channels (ground arith);
}

validate_rule_of_IsRule : (r : PolicyRule) → IsRule r → validate_rule r ≡ ok tt
unfolding validate_rule
validate_rule_of_IsRule r h = ground (
  arith,
  not_nil_lem r.channels h.some_channel,
  validate_channels_of_All r.channels h.each_channel,
)

validate_rules-All : (rs : List PolicyRule) → validate_rules rs ≡ ok tt → All IsRule rs
unfolding validate_rules
validate_rules-All [] h = tt
validate_rules-All (r ∷ rs) h =
    let (_, p, q) = >>=-eq-ok (validate_rule r) (λ _. validate_rules rs) h in
    (validate_rule-IsRule r p, validate_rules-All rs q)

validate_rules_of_All : (rs : List PolicyRule) → All IsRule rs → validate_rules rs ≡ ok tt
unfolding validate_rules
validate_rules_of_All [] h = refl
validate_rules_of_All (r ∷ rs) h = rw (validate_rule_of_IsRule r h.0) (validate_rules_of_All rs h.1)

-- A catalog passes validation exactly when it has at most 256 rules, each with a name of 1 to 128
-- bytes and 1 to 16 channels, each channel of 1 to 64 bytes, no name or channel being blank.
pub validate_rules_iff : (c : PolicyCatalog) → (validate c ≡ ok tt) ↔ IsCatalog c
unfolding validate
validate_rules_iff c = (
  λ h. (ground arith, validate_rules-All c.rules (ground arith)),
  λ h. ground (arith, validate_rules_of_All c.rules h.1),
)
