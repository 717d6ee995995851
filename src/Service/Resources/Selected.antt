-- ===== src/Service/Resources/Selected.antt =====
-- What `_select_presentation` may select: the only presentation of the request.
use aep_python.Common.{
  ◌≡◌, refl, ap, ◌⊎◌, inl, inr, Bool, true, false, some, List, [], ◌∷◌, arith, nat_eq, string_eq,
  pair_eq, list_eq, if◌then◌else◌, is_empty, or_empty,
}
use aep_python.Common.Exec.{
  value_error, assertion_error, authorization_error, key_error, Result, ok, raised, blocked,
}
use aep_python.Common.Dict.{get}
use aep_python.Common.Text.{Text, codes}
use aep_python.Core.Http.{AuthorizationCarrier, Presentation, parse_authorization}
use aep_python.Service.Resources.{
  Headers, parses, recognized, any_result, filter_result, unrivalled, dedicated_parsed,
  select_dedicated, select_recognized, filtered, select_standard, select_presentation,
}

-- no value of the standard field is a presentation
abbrev pub NoneParses : List Text → Type 0
NoneParses [] = Unit
NoneParses (v ∷ vs) =
    ((p : Presentation) → ¬ (parse_authorization v AuthorizationCarrier.standard ≡ ok p))
    × NoneParses vs

abbrev pub values_of : Text → Headers → List Text
values_of name headers = or_empty (get name headers)

-- the presentation comes from the only dedicated value, and no standard value is a presentation; or
-- there is no dedicated value, and it comes from the only standard one
abbrev pub Alone : Presentation → List Text → List Text → Type 0
Alone p dedicated standard =
    ((v : Text) × (dedicated ≡ v ∷ [])
      × (parse_authorization v AuthorizationCarrier.dedicated ≡ ok p)
      × NoneParses standard)
    ⊎ ((v : Text) × (dedicated ≡ [])
        × (standard ≡ v ∷ [])
        × (parse_authorization v AuthorizationCarrier.standard ≡ ok p))

unrivalled-ok :
    (q p : Presentation) (x : Result Bool)
    → unrivalled q x ≡ ok (some p, true)
    → (q ≡ p) × (x ≡ ok false)
unrivalled-ok q p (ok true) h = absurd ground arith
unrivalled-ok q p (ok false) h = (ground arith, refl)
unrivalled-ok q p (raised e) h = absurd ground arith
unrivalled-ok q p blocked h = absurd ground arith

dedicated_parsed-ok :
    (r : Result Presentation) (standard : List Text) (p : Presentation)
    → dedicated_parsed r standard ≡ ok (some p, true)
    → (r ≡ ok p) × (any_result recognized standard ≡ ok false)
dedicated_parsed-ok (ok q) standard p h =
    let (same, none_of) = unrivalled-ok q p (any_result recognized standard) h in
    (ap ok same, none_of)
dedicated_parsed-ok (raised (authorization_error m c)) standard p h = absurd ground arith
dedicated_parsed-ok (raised (value_error m)) standard p h = absurd ground arith
dedicated_parsed-ok (raised (assertion_error m)) standard p h = absurd ground arith
dedicated_parsed-ok (raised key_error) standard p h = absurd ground arith
dedicated_parsed-ok blocked standard p h = absurd ground arith

parses-false : (r : Result Presentation) (p : Presentation) → parses r ≡ ok false → ¬ (r ≡ ok p)
parses-false r p h e = ground arith

any_result-NoneParses : (vs : List Text) → any_result recognized vs ≡ ok false → NoneParses vs
unfolding recognized
any_result-NoneParses [] h = tt
any_result-NoneParses (v ∷ vs) h = (
  λ p. parses-false (parse_authorization v AuthorizationCarrier.standard) p (ground arith),
  any_result-NoneParses vs (ground arith),
)

filter-one : (w v : Text) → filter_result recognized (w ∷ []) ≡ ok (v ∷ []) → w ≡ v
filter-one w v h = ground arith

select_recognized-one :
    (standard values : List Text) (p : Presentation)
    → filter_result recognized standard ≡ ok values
    → select_recognized standard values ≡ ok (some p, true)
    → (v : Text) × (standard ≡ v ∷ [])
      × (parse_authorization v AuthorizationCarrier.standard ≡ ok p)
select_recognized-one standard [] p f h = absurd ground arith
select_recognized-one [] (v ∷ []) p f h = absurd ground arith
select_recognized-one (w ∷ []) (v ∷ []) p f h = (w, refl, rw (filter-one w v f) (ground arith))
select_recognized-one (w ∷ w' ∷ ws) (v ∷ []) p f h = absurd ground arith
select_recognized-one [] (v ∷ v' ∷ vs) p f h = absurd ground arith
select_recognized-one (w ∷ []) (v ∷ v' ∷ vs) p f h = absurd ground arith
select_recognized-one (w ∷ w' ∷ ws) (v ∷ v' ∷ vs) p f h = absurd ground arith

filtered-one :
    (standard : List Text) (x : Result (List Text)) (p : Presentation)
    → filter_result recognized standard ≡ x
    → filtered standard x ≡ ok (some p, true)
    → (v : Text) × (standard ≡ v ∷ [])
      × (parse_authorization v AuthorizationCarrier.standard ≡ ok p)
filtered-one standard (ok values) p f h = select_recognized-one standard values p f h
filtered-one standard (raised e) p f h = absurd ground arith
filtered-one standard blocked p f h = absurd ground arith

select_standard-one :
    (standard : List Text) (p : Presentation)
    → select_standard standard ≡ ok (some p, true)
    → (v : Text) × (standard ≡ v ∷ [])
      × (parse_authorization v AuthorizationCarrier.standard ≡ ok p)
unfolding select_standard
select_standard-one standard p h =
    filtered-one standard (filter_result recognized standard) p refl (ground arith)

only_one :
    (dedicated standard : List Text) (p : Presentation)
    → (if is_empty dedicated then select_standard standard else select_dedicated dedicated standard)
      ≡ ok (some p, true)
    → Alone p dedicated standard
unfolding select_dedicated
only_one [] standard p h =
    let (v, only, parsed) = select_standard-one standard p h in inr (v, refl, only, parsed)
only_one (v ∷ []) standard p h =
    let (parsed, none_of) =
      dedicated_parsed-ok (parse_authorization v AuthorizationCarrier.dedicated) standard p h in
    inl (v, refl, parsed, any_result-NoneParses standard none_of)
only_one (v ∷ w ∷ vs) standard p h = absurd ground arith

-- A presentation that is selected is the only one in the authorization fields of the request:
-- either it is read from the only dedicated value while no standard value is a presentation, or
-- there is no dedicated value and it is read from the only standard one.
pub selected-Alone :
    (headers : Headers) (p : Presentation)
    → select_presentation headers ≡ ok (some p, true)
    → Alone p
        (values_of (codes "aep-authorization") headers)
        (values_of (codes "authorization") headers)
unfolding select_presentation
selected-Alone headers p h = only_one _ _ p h
