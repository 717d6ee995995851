-- ===== src/Core/Http/Outcomes.antt =====
-- What a parsed presentation satisfies, and when the parser raises a KeyError.
use aep_python.Common.{
  ℕ, String, ◌≡◌, refl, ap, ◌⊎◌, inl, inr, Bool, true, false, ◌&&◌, none, some, [], ◌∷◌, arith,
  ◌==◌, nat_eq, string_eq, pair_eq, list_eq, member, beq_of_ne, ltb, leb, Bool-cases, Option-cases,
  all, is_empty,
}
use aep_python.Common.Exec.{authorization_error, key_error, Result, ok, raised}
use aep_python.Common.Text.{Text, codes, lower, lower_code, span, span-all}
use aep_python.Core.Http.{
  AuthorizationCarrier, standard, AuthorizationScheme, aep, bearer, basic, Presentation,
  visible_ignoring_case, blank, matches_letter, match_word, match_scheme, match_credentials,
  scheme_named, parse_authorization, is_dedicated,
}

abbrev pub ascii : ℕ → Bool
ascii c = ltb c 128

abbrev small_letter : ℕ → Bool
small_letter l = leb b'a' l && leb l b'z'

match_credentials_sound :
    (t credentials : Text)
    → match_credentials t ≡ some credentials
    → (is_empty credentials ≡ false) × (all visible_ignoring_case credentials ≡ true)
unfolding match_credentials
match_credentials_sound t credentials h =
    ground (arith, span-all visible_ignoring_case (span blank t).1)

-- A parsed presentation has the carrier that was asked for, some credentials, each of whose code
-- points is visible ASCII or one of four letters outside ASCII, and no comma in the dedicated field.
pub parse_sound :
    (value : Text) (carrier : AuthorizationCarrier) (v : Presentation)
    → parse_authorization value carrier ≡ ok v
    → (v.carrier ≡ carrier)
      × (is_empty v.credentials ≡ false)
      × (all visible_ignoring_case v.credentials ≡ true)
      × (is_dedicated carrier && member b',' value ≡ false)
unfolding parse_authorization
parse_sound value carrier v h = elim (Option-cases (match_scheme value)) [
  | inl missed ↦ ground arith
  | inr ((name, rest), e) ↦ ground (arith, match_credentials_sound rest v.credentials)
]

lower_letter :
    (l c : ℕ)
    → small_letter l ≡ true
    → ascii c ≡ true
    → matches_letter l c ≡ true
    → lower_code c ≡ l
lower_letter l c s a m = ground arith

match_word-lower :
    (word t name rest : Text)
    → all small_letter word ≡ true
    → all ascii t ≡ true
    → match_word word t ≡ some (name, rest)
    → lower name ≡ word
unfolding match_word
match_word-lower [] t name rest s a h = ground arith
match_word-lower (l ∷ ls) [] name rest s a h = cc
match_word-lower (l ∷ ls) (c ∷ t) name rest s a h = elim (Option-cases (match_word ls t)) [
  | inl missed ↦ ground arith
  | inr ((name', rest'), e) ↦
      ground
        (arith, match_word-lower ls t name' rest' (ground arith) (ground arith) e, lower_letter l c)
]

lower_code-ascii : (c : ℕ) → ascii (lower_code c) ≡ ascii c
lower_code-ascii c = ground arith

lower-ascii : (t : Text) → all ascii (lower t) ≡ all ascii t
lower-ascii [] = refl
lower-ascii (c ∷ t) = ground (arith, lower_code-ascii c, lower-ascii t)

differs_from_word :
    (name word : Text)
    → all ascii word ≡ true
    → all ascii name ≡ false
    → (lower name == word) ≡ false
differs_from_word name word w h =
    beq_of_ne (lower name) word λ p. cc (lower-ascii name, ap (all ascii) p, w, h)

scheme_named-ascii : (name : Text) → all ascii name ≡ false → scheme_named name ≡ none
unfolding scheme_named
scheme_named-ascii name h = ground (
  arith,
  differs_from_word name (codes "aep") refl h,
  differs_from_word name (codes "bearer") refl h,
  differs_from_word name (codes "basic") refl h,
)

named_word :
    (name : Text)
    → (lower name ≡ codes "aep") ⊎ ((lower name ≡ codes "bearer") ⊎ (lower name ≡ codes "basic"))
    → (scheme : AuthorizationScheme) × (scheme_named name ≡ some scheme)
unfolding scheme_named
named_word name (inl e) = (aep, rw (e, scheme_named) refl)
named_word name (inr (inl e)) = (bearer, rw (e, scheme_named) refl)
named_word name (inr (inr e)) = (basic, rw (e, scheme_named) refl)

match_scheme_words :
    (value name rest : Text)
    → all ascii value ≡ true
    → match_scheme value ≡ some (name, rest)
    → (lower name ≡ codes "aep") ⊎ ((lower name ≡ codes "bearer") ⊎ (lower name ≡ codes "basic"))
unfolding match_scheme
match_scheme_words value name rest a h = ground (
  arith,
  match_word-lower (codes "aep") value name rest refl a,
  match_word-lower (codes "bearer") value name rest refl a,
  match_word-lower (codes "basic") value name rest refl a,
)

abbrev Expected : Result Presentation → Type 0
Expected r =
    ((v : Presentation) × (r ≡ ok v))
    ⊎ ((message : String) × (r ≡ raised (authorization_error message "not_recognized")))

parsed_Expected :
    (carrier : AuthorizationCarrier) (value name rest : Text)
    → all ascii value ≡ true
    → is_dedicated carrier && member b',' value ≡ false
    → match_scheme value ≡ some (name, rest)
    → Expected (parse_authorization value carrier)
unfolding parse_authorization
parsed_Expected carrier value name rest a clear e =
    let (scheme, named) = named_word name (match_scheme_words value name rest a e) in
    elim (Option-cases (match_credentials rest)) [
      | inl missed ↦ inr ("The authorization presentation was not recognized.", ground arith)
      | inr (credentials, c) ↦
          inl
            (record { carrier = carrier; credentials = credentials; scheme = scheme }, ground arith)
    ]

-- On a field value within ASCII the parser never raises a KeyError: it returns a presentation or
-- raises `not_recognized`.
pub ascii_outcomes :
    (value : Text) (carrier : AuthorizationCarrier)
    → all ascii value ≡ true
    → ((v : Presentation) × (parse_authorization value carrier ≡ ok v))
      ⊎ ((message : String) × (parse_authorization value carrier
            ≡ raised (authorization_error message "not_recognized")))
unfolding parse_authorization
ascii_outcomes value carrier a = elim (Bool-cases (is_dedicated carrier && member b',' value)) [
  | inl comma ↦ inr ("The dedicated authorization field is ambiguous.", ground arith)
  | inr clear ↦ elim (Option-cases (match_scheme value)) [
    | inl missed ↦ inr ("The authorization presentation was not recognized.", ground arith)
    | inr ((name, rest), e) ↦ parsed_Expected carrier value name rest a clear e
  ]
]

-- A scheme name that is matched with a letter outside ASCII, as IGNORECASE allows, in front of good
-- credentials in the standard field: the parser raises a KeyError, and no AepAuthorizationError.
pub folded_scheme_key_error :
    (value name rest credentials : Text)
    → match_scheme value ≡ some (name, rest)
    → match_credentials rest ≡ some credentials
    → all ascii name ≡ false
    → parse_authorization value standard ≡ raised key_error
unfolding parse_authorization
folded_scheme_key_error value name rest credentials m c h =
    ground (arith, scheme_named-ascii name h)
