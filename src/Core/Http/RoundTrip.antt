-- ===== src/Core/Http/RoundTrip.antt =====
-- A rendered presentation parses back, but for a comma in the dedicated field.
use aep_python.Common.{
  ℕ, String, ◌≡◌, refl, inl, inr, true, false, ◌&&◌, some, [], ◌∷◌, ◌++◌, arith, nat_eq, string_eq,
  pair_eq, list_eq, member, if◌then◌else◌, Bool-cases, all, is_empty,
}
use aep_python.Common.Exec.{authorization_error, ok, raised}
use aep_python.Common.Text.{Text, span, span_whole}
use aep_python.Core.Http.{
  AuthorizationScheme, aep, bearer, basic, Presentation, scheme_value, visible,
  visible_ignoring_case, blank, match_word, match_scheme, match_credentials, scheme_named,
  parse_authorization, render_authorization, is_dedicated,
}

match_scheme_value :
    (scheme : AuthorizationScheme) (t : Text)
    → match_scheme (scheme_value scheme ++ (b' ' ∷ t)) ≡ some (scheme_value scheme, b' ' ∷ t)
unfolding match_scheme match_word
match_scheme_value aep t = refl
match_scheme_value bearer t = refl
match_scheme_value basic t = refl

scheme_named_value :
    (scheme : AuthorizationScheme) → scheme_named (scheme_value scheme) ≡ some scheme
unfolding scheme_named
scheme_named_value aep = refl
scheme_named_value bearer = refl
scheme_named_value basic = refl

visible_wider : (t : Text) → all visible t ≡ true → all visible_ignoring_case t ≡ true
visible_wider [] h = refl
visible_wider (c ∷ t) h = ground (arith, visible_wider t)

span-blank : (c : ℕ) (t : Text) → visible c ≡ true → span blank (c ∷ t) ≡ ([], c ∷ t)
span-blank c t h = ground arith

match_credentials_one :
    (t : Text) → is_empty t ≡ false → all visible t ≡ true → match_credentials (b' ' ∷ t) ≡ some t
unfolding match_credentials
match_credentials_one [] e h = cc
match_credentials_one (c ∷ t) e h =
    ground (arith, span-blank c t, span_whole visible_ignoring_case (c ∷ t), visible_wider (c ∷ t))

scheme_has_no_comma :
    (scheme : AuthorizationScheme) (t : Text)
    → member b',' (scheme_value scheme ++ (b' ' ∷ t)) ≡ member b',' t
scheme_has_no_comma aep t = refl
scheme_has_no_comma bearer t = refl
scheme_has_no_comma basic t = refl

-- what `render_authorization` returned, and under which conditions
render_returns :
    (v : Presentation) (name : String) (value : Text)
    → render_authorization v ≡ ok (name, value)
    → (is_empty v.credentials ≡ false)
      × (all visible v.credentials ≡ true)
      × (value ≡ scheme_value v.scheme ++ (b' ' ∷ v.credentials))
unfolding render_authorization
render_returns v name value h = (ground arith, ground arith, ground arith)

parse_rendered :
    (v : Presentation)
    → is_empty v.credentials ≡ false
    → all visible v.credentials ≡ true
    → is_dedicated v.carrier && member b',' v.credentials ≡ false
    → parse_authorization (scheme_value v.scheme ++ (b' ' ∷ v.credentials)) v.carrier ≡ ok v
unfolding parse_authorization
parse_rendered v filled plain clear = simp (
  scheme_has_no_comma,
  clear,
  match_scheme_value,
  match_credentials_one v.credentials filled plain,
  scheme_named_value,
)

-- A presentation that renders is parsed back from its field value under its own carrier, unless it
-- uses the dedicated field and its credentials hold a comma: then the field value that was rendered
-- is refused as ambiguous.
pub parse-render :
    (v : Presentation) (name : String) (value : Text)
    → render_authorization v ≡ ok (name, value)
    → parse_authorization value v.carrier ≡ (
        if is_dedicated v.carrier && member b',' v.credentials
        then raised
            (authorization_error "The dedicated authorization field is ambiguous." "not_recognized")
        else ok v)
parse-render v name value h =
    let (filled, plain, same) = render_returns v name value h in
    elim (Bool-cases (is_dedicated v.carrier && member b',' v.credentials)) [
      | inl comma ↦ rw (same, comma) (unfold parse_authorization in rw (scheme_has_no_comma, comma))
      | inr clear ↦ rw (same, clear) (parse_rendered v filled plain clear)
    ]
