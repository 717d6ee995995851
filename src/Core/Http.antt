-- ===== src/Core/Http.antt =====
-- The authorization presentations of core/http.py, over code points. The patterns are matched as
-- Python's `re` does, where IGNORECASE on a `str` pattern also takes four letters outside ASCII.
mod Examples
pub mod RoundTrip
pub mod Outcomes
pub mod Paths
use aep_python.Common.{
  ℕ, ◌+◌, String, Bool, true, false, not, ◌&&◌, ◌||◌, Option, none, some, [], ◌∷◌, ◌++◌, ◌==◌,
  nat_eq, string_eq, pair_eq, list_eq, member, leb, if◌then◌else◌, all, is_empty,
}
use aep_python.Common.Exec.{authorization_error, key_error, Result, ok, raised}
use aep_python.Common.Text.{Text, codes, lower, span}

pub data AuthorizationCarrier : Type 0 where
  standard dedicated : AuthorizationCarrier

pub data AuthorizationScheme : Type 0 where
  aep bearer basic : AuthorizationScheme

abbrev pub is_dedicated : AuthorizationCarrier → Bool
is_dedicated dedicated = true
is_dedicated standard = false

abbrev pub carrier_value : AuthorizationCarrier → String
carrier_value standard = "Authorization"
carrier_value dedicated = "AEP-Authorization"

abbrev pub scheme_value : AuthorizationScheme → Text
scheme_value aep = codes "AEP"
scheme_value bearer = codes "Bearer"
scheme_value basic = codes "Basic"

pub record Presentation : Type 0 where
  pub carrier : AuthorizationCarrier
  pub credentials : Text
  pub scheme : AuthorizationScheme

-- `[\x21-\x7e]`
abbrev pub visible : ℕ → Bool
visible c = leb 0x21 c && leb c 0x7e

-- the letters outside ASCII that a range with all ASCII letters matches under IGNORECASE
abbrev pub folded : ℕ → Bool
folded c = c == 0x130 || (c == 0x131 || (c == 0x17f || c == 0x212a))

abbrev pub visible_ignoring_case : ℕ → Bool
visible_ignoring_case c = visible c || folded c

-- `[ \t]`
abbrev pub blank : ℕ → Bool
blank c = c == b' ' || c == 9

-- the code points that a small letter of the pattern matches under IGNORECASE
abbrev pub matches_letter : ℕ → ℕ → Bool
matches_letter l c =
    c == l
    || (c + 32 == l || ((l == b'i' && (c == 0x130 || c == 0x131)) || (l == b's' && c == 0x17f)))

-- what a literal word of the pattern takes, and what follows it
unfoldable pub match_word : Text → Text → Option (Text × Text)
match_word [] t = some ([], t)
match_word (l ∷ ls) [] = none
match_word (l ∷ ls) (c ∷ t) = elim (match_word ls t) [
  | none ↦ none
  | some (taken, rest) ↦ if matches_letter l c then some (c ∷ taken, rest) else none
]

-- `(AEP|Bearer|Basic)`
unfoldable pub match_scheme : Text → Option (Text × Text)
match_scheme t = elim (match_word (codes "aep") t) [
  | some m ↦ some m
  | none ↦ elim (match_word (codes "bearer") t) [
    | some m ↦ some m
    | none ↦ match_word (codes "basic") t
  ]
]

-- `[ \t]+([\x21-\x7e]+)[ \t]*\Z`, behind the scheme
unfoldable pub match_credentials : Text → Option Text
match_credentials t =
    let (gap, rest) = span blank t in
    let (credentials, tail) = span visible_ignoring_case rest in
    if is_empty gap || (is_empty credentials || not (all blank tail))
    then none
    else some credentials

-- `schemes[match.group(1).lower()]`
unfoldable pub scheme_named : Text → Option AuthorizationScheme
scheme_named name =
    if lower name == codes "aep"
    then some aep
    else if lower name == codes "bearer"
    then some bearer
    else if lower name == codes "basic"
    then some basic
    else none

abbrev pub not_recognized : {A : Type 0} → Result A
not_recognized =
    raised
      (authorization_error "The authorization presentation was not recognized." "not_recognized")

unfoldable pub parse_authorization : Text → AuthorizationCarrier → Result Presentation
parse_authorization value carrier =
    if is_dedicated carrier && member b',' value
    then raised
        (authorization_error "The dedicated authorization field is ambiguous." "not_recognized")
    else elim (match_scheme value) [
      | none ↦ not_recognized
      | some (name, rest) ↦ elim (match_credentials rest) [
        | none ↦ not_recognized
        | some credentials ↦ elim (scheme_named name) [
          | none ↦ raised key_error
          | some scheme ↦
              ok (record { carrier = carrier; credentials = credentials; scheme = scheme })
        ]
      ]
    ]

-- `_CREDENTIALS_PATTERN` has no flag, so it takes visible ASCII alone
unfoldable pub render_authorization : Presentation → Result (String × Text)
render_authorization v =
    if is_empty v.credentials
    then raised
        (authorization_error "Authorization credentials must not be empty." "invalid_request")
    else if not (all visible v.credentials)
    then raised (
        authorization_error
          "Authorization credentials must not contain whitespace or control characters."
          "invalid_request")
    else ok (carrier_value v.carrier, scheme_value v.scheme ++ (b' ' ∷ v.credentials))
