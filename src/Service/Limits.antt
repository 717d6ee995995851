-- ===== src/Service/Limits.antt =====
-- The limits on claim values of service/service.py: `_claims_within_limits` and `_within_structure`,
-- whose counter of members is passed on as an argument and a result.
use aep_python.Common.{
  ℕ, ◌+◌, String, Bool, true, false, ◌&&◌, ◌||◌, Option, none, some, [], ◌∷◌, nat_eq, string_eq,
  pair_eq, list_eq, ltb, leb, if◌then◌else◌, length,
}
use aep_python.Common.Text.{codes}
use aep_python.Core.Json.{
  Json, Items, Members, null, bool, number, text, array, object, nil, cons, end, entry,
}
use aep_python.Service.Types.{ClaimValues}

pub record ClaimValueLimits : Type 0 where
  pub maximum_encoded_bytes : ℕ
  pub maximum_member_count : ℕ
  pub maximum_object_depth : ℕ
  pub maximum_string_length : ℕ

-- `len(value)` of a text
abbrev pub text_length : String → ℕ
text_length s = length (codes s)

unfoldable mutual
  pub within_structure : ClaimValueLimits → ℕ → Json → ℕ → Bool × ℕ
  within_structure l depth null members = (true, members)
  within_structure l depth (bool b) members = (true, members)
  within_structure l depth (number n) members = (true, members)
  within_structure l depth (text s) members = (leb (text_length s) l.maximum_string_length, members)
  within_structure l depth (array xs) members =
      let rest = within_items l (depth + 1) xs members in
      if leb depth l.maximum_object_depth then rest else (false, members)
  within_structure l depth (object ms) members =
      let rest = within_members l (depth + 1) ms members in
      if ltb l.maximum_object_depth depth then (false, members) else rest

  -- `all(…)` over the items, at the depth of the items
  pub within_items : ClaimValueLimits → ℕ → Items → ℕ → Bool × ℕ
  within_items l depth nil members = (true, members)
  within_items l depth (cons x xs) members =
      let (good, members') = within_structure l depth x members in
      let rest = within_items l depth xs members' in if good then rest else (false, members')

  -- the loop over the members, at the depth of the members
  pub within_members : ClaimValueLimits → ℕ → Members → ℕ → Bool × ℕ
  within_members l depth end members = (true, members)
  within_members l depth (entry key value ms) members =
      let (good, members') = within_structure l depth value (members + 1) in
      let rest = within_members l depth ms members' in
      if ltb l.maximum_member_count (members + 1) || ltb l.maximum_string_length (text_length key)
      then (false, members + 1)
      else if good
      then rest
      else (false, members')

-- a dictionary as a JSON object
abbrev pub to_members : ClaimValues → Members
to_members [] = end
to_members ((k, v) ∷ d) = entry k v (to_members d)

-- `encoded_bytes` is the length of `json.dumps(value, separators=(",", ":")).encode()`
unfoldable pub claims_within_limits :
    (ClaimValues → ℕ) → ClaimValueLimits → Option ClaimValues → Bool
unfolding within_structure
claims_within_limits encoded_bytes l none = true
claims_within_limits encoded_bytes l (some value) =
    leb (encoded_bytes value) l.maximum_encoded_bytes
    && (within_structure l 1 (object (to_members value)) 0).0
