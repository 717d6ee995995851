-- ===== src/Core/Http/Examples.antt =====
-- The authorization parser at small inputs.
use aep_python.Common.{
  String, ◌≡◌, refl, ◌⊎◌, true, false, ◌&&◌, nat_eq, string_eq, pair_eq, list_eq, member, all,
  is_empty,
}
use aep_python.Common.Exec.{authorization_error, key_error, ok, raised}
use aep_python.Common.Text.{codes}
use aep_python.Core.Http.{
  standard, dedicated, bearer, Presentation, visible_ignoring_case, match_word, match_scheme,
  match_credentials, scheme_named, parse_authorization, render_authorization, is_dedicated,
}
use aep_python.Core.Http.RoundTrip.{parse-render}
use aep_python.Core.Http.Outcomes.{parse_sound, ascii_outcomes, folded_scheme_key_error}

abbrev token : Presentation
token = record { carrier = dedicated; credentials = codes "abc"; scheme = bearer }

parse-render_example : parse_authorization (codes "Bearer abc") dedicated ≡ ok token
unfolding render_authorization
parse-render_example = parse-render token "AEP-Authorization" (codes "Bearer abc") refl

parse_spaces : parse_authorization (codes "bEARER   abc ") dedicated ≡ ok token
unfolding parse_authorization match_scheme match_word match_credentials scheme_named
parse_spaces = refl

parse_sound_example :
    (dedicated ≡ dedicated)
    × (is_empty (codes "abc") ≡ false)
    × (all visible_ignoring_case (codes "abc") ≡ true)
    × (is_dedicated dedicated && member b',' (codes "bEARER   abc ") ≡ false)
parse_sound_example = parse_sound (codes "bEARER   abc ") dedicated token parse_spaces

ascii_outcomes_example :
    ((v : Presentation) × (parse_authorization (codes "Digest x") standard ≡ ok v))
    ⊎ ((message : String) × (parse_authorization (codes "Digest x") standard
          ≡ raised (authorization_error message "not_recognized")))
ascii_outcomes_example = ascii_outcomes (codes "Digest x") standard refl

folded_scheme_key_error_example : parse_authorization (codes "Baſic x") standard ≡ raised key_error
unfolding match_scheme match_word match_credentials
folded_scheme_key_error_example =
    folded_scheme_key_error (codes "Baſic x") (codes "Baſic") (codes " x") (codes "x") refl refl
      refl
