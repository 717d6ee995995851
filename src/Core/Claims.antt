-- ===== src/Core/Claims.antt =====
-- core/claims.py: which requested claims an Agent can give, and which required ones are missing.
use aep_python.Common.{
  String, ◌≡◌, refl, ◌↔◌, Bool, true, false, not, Option, none, some, List, [], ◌∷◌, arith, nat_eq,
  string_eq, pair_eq, list_eq, member, select, is_empty, or_empty,
}
use aep_python.Common.Dict.{Dict, has}

-- `InspectClaims` of core/models.py
pub record InspectClaims : Type 0 where
  pub required : Option (List String)
  pub preferred : Option (List String)
  pub optional : Option (List String)

pub record ClaimSupportEvaluation : Type 0 where
  pub can_satisfy_required : Bool
  pub supported_optional : List String
  pub supported_preferred : List String
  pub unsupported_required : List String

-- `requested.field or () if requested is not None else ()`
abbrev pub names_of : (InspectClaims → Option (List String)) → Option InspectClaims → List String
names_of field none = []
names_of field (some claims) = or_empty (field claims)

unfoldable pub evaluate_claim_support : Option InspectClaims → List String → ClaimSupportEvaluation
evaluate_claim_support requested supported =
    let unsupported =
      select (λ name. not (member name supported)) (names_of (λ c. c.required) requested) in
    record {
      can_satisfy_required = is_empty unsupported;
      supported_optional =
          select (λ name. member name supported) (names_of (λ c. c.optional) requested);
      supported_preferred =
          select (λ name. member name supported) (names_of (λ c. c.preferred) requested);
      unsupported_required = unsupported;
    }

-- `values.to_wire()`, or no members
abbrev pub supplied {ℓ} : {V : Type ℓ} → Option (Dict String V) → Dict String V
supplied none = []
supplied (some values) = values

unfoldable pub missing_required_claim_names {ℓ} :
    {V : Type ℓ} → List String → Option (Dict String V) → List String
missing_required_claim_names required values =
    select (λ name. not (has name (supplied values))) required

abbrev pub All {ℓ κ} : {A : Type ℓ} → (A → Type κ) → List A → Type κ
All P [] = Unit
All P (x ∷ xs) = P x × All P xs

selected-All {ℓ} :
    {A : Type ℓ} (p : A → Bool) (xs : List A)
    → is_empty (select p xs) ≡ true
    → All (λ x. p x ≡ false) xs
selected-All p [] h = tt
selected-All p (x ∷ xs) h = (ground arith, selected-All p xs (ground arith))

refused-All {ℓ} :
    {A : Type ℓ} (p : A → Bool) (xs : List A)
    → All (λ x. p x ≡ false) xs
    → is_empty (select p xs) ≡ true
refused-All p [] h = refl
refused-All p (x ∷ xs) h = ground (arith, refused-All p xs h.1)

-- No required claim is missing exactly when each of them is among the supplied members.
pub nothing_missing_iff {ℓ} :
    {V : Type ℓ} (required : List String) (values : Option (Dict String V))
    → (is_empty (missing_required_claim_names required values) ≡ true)
      ↔ All (λ name. not (has name (supplied values)) ≡ false) required
unfolding missing_required_claim_names
nothing_missing_iff required values = (
  selected-All (λ name. not (has name (supplied values))) required,
  refused-All (λ name. not (has name (supplied values))) required,
)
