-- ===== src/Core/Assertions/Verified.antt =====
-- Which assertions are verified, and how the others fail.
use aep_python.Common.{
  ℕ, ◌+◌, ◌≤◌, ◌<◌, String, ◌≡◌, refl, ap, ◌∙◌, ◌↔◌, inl, inr, true, false, not, ◌||◌, some, map,
  arith, nat_eq, string_eq, pair_eq, list_eq, ==_iff, ltb, leb, if◌then◌else◌, Option-cases,
  or_else,
}
use aep_python.Common.Exec.{Result, ok}
use aep_python.Service.Settings.{AssertionClaims}
use aep_python.Service.Assertions.{partition_front}
use aep_python.Core.Assertions.{
  NotBefore, Jwt, VerifyClientAssertionOptions, algorithm_text, key_bound, premature, key_id_of,
  allowed_algorithm, resource_matches, check_claims, decoded, verify_client_assertion, refused,
}
use aep_python.Core.Assertions.Rules.{
  Met, NotEarly, IsVerified, differs-Met, Met-differs, other-Met, Met-other, premature-NotEarly,
  NotEarly-premature, resource-ok, refuse-ok, key_id-some, some-key_id, alg-some, claims-some,
}

module _ (normalize : String → Result String) (options : VerifyClientAssertionOptions) where
  checked :
      (key_id : String) (nbf : NotBefore) (c d : AssertionClaims) (now : ℕ)
      → check_claims normalize options key_id nbf c now ≡ ok d
      → (c ≡ d)
        × (partition_front b'#' key_id ≡ c.iss)
        × (c.iss ≡ c.sub)
        × NotEarly nbf (now + options.clock_tolerance_seconds)
        × (c.iat ≤ now + options.clock_tolerance_seconds)
        × (now < c.exp + options.clock_tolerance_seconds)
        × Met options.audience c.aud
        × Met options.issuer c.iss
        × Met options.subject c.sub
        × Met options.operation c.op
        × (resource_matches normalize options.resource c.resource ≡ ok true)
  unfolding check_claims key_bound
  checked key_id nbf c d now h =
      let (bound, h1) = refuse-ok _ _ _ d h in
      let (early, h2) = refuse-ok _ _ _ d h1 in
      let (window, h3) = refuse-ok _ _ _ d h2 in
      let (aud, h4) = refuse-ok _ _ _ d h3 in
      let (iss, h5) = refuse-ok _ _ _ d h4 in
      let (sub, h6) = refuse-ok _ _ _ d h5 in
      let (op, h7) = refuse-ok _ _ _ d h6 in
      let (resource, same) =
        resource-ok (resource_matches normalize options.resource c.resource) c d h7 in
      (
        same,
        ground (arith, ==_iff (partition_front b'#' key_id) c.iss),
        ground (arith, ==_iff c.iss c.sub),
        premature-NotEarly nbf (now + options.clock_tolerance_seconds) early,
        ground arith,
        ground arith,
        differs-Met options.audience c.aud aud,
        differs-Met options.issuer c.iss iss,
        differs-Met options.subject c.sub sub,
        other-Met options.operation c.op op,
        resource,
      )

  module _ (jwt : Jwt) (assertion key : String) (time : ℕ) (c : AssertionClaims) where
    pub verify_sound :
        verify_client_assertion normalize options jwt assertion key time ≡ ok c
        → IsVerified normalize options jwt assertion key (or_else options.current_time time) c
    unfolding verify_client_assertion
    verify_sound h = elim (Option-cases (jwt.header assertion)) [
      | inl n ↦ absurd ground arith
      | inr (header, e) ↦ elim (Option-cases (key_id_of header)) [
        | inl n ↦ absurd ground arith
        | inr (k, f) ↦
            let h' : (if not (allowed_algorithm header.alg (map algorithm_text options.algorithms))
                  then refused "AEP client assertion signing algorithm is not allowed."
                  else decoded normalize options k
                      (jwt.decode assertion key (map algorithm_text options.algorithms))
                      (or_else options.current_time time))
                ≡ ok c =
              ground arith in
            let (allowed, h'') = refuse-ok _ _ _ c h' in
            let (alg, has_alg, is_allowed) =
              alg-some header.alg (map algorithm_text options.algorithms) (ground arith) in
            let (q, d, is_signed, has_claims, good) =
              claims-some normalize options k
                (jwt.decode assertion key (map algorithm_text options.algorithms))
                (or_else options.current_time time) c h'' in
            let (same, bound, one, early, issued, lives, aud, iss, sub, op, resource) =
              checked k q.nbf d c (or_else options.current_time time) good in
            let (typ, kid) = key_id-some header k f in
            record {
              header = header;
              payload = q;
              key_id = k;
              alg = alg;
              has_header = e;
              is_jwt = typ;
              has_kid = kid;
              has_alg = has_alg;
              is_allowed = is_allowed;
              is_signed = is_signed;
              has_claims = has_claims ∙ ap some same;
              bound_key = rw (← same) bound;
              one_agent = rw (← same) one;
              not_early = early;
              issued = rw (← same) issued;
              lives = rw (← same) lives;
              audience_met = rw (← same) aud;
              issuer_met = rw (← same) iss;
              subject_met = rw (← same) sub;
              operation_met = rw (← same) op;
              resource_met = rw (← same) resource;
            }
      ]
    ]

    all_checks :
        (v : IsVerified normalize options jwt assertion key (or_else options.current_time time) c)
        → check_claims normalize options v.key_id v.payload.nbf c
            (or_else options.current_time time)
          ≡ ok c
    unfolding check_claims
    all_checks v =
        let now = or_else options.current_time time in
        let bound : key_bound v.key_id c ≡ true =
          unfold key_bound in
          ground (arith, ==_iff (partition_front b'#' v.key_id) c.iss, ==_iff c.iss c.sub) in
        let early : premature v.payload.nbf (now + options.clock_tolerance_seconds) ≡ false =
          NotEarly-premature v.payload.nbf (now + options.clock_tolerance_seconds) v.not_early in
        let window : (ltb (now + options.clock_tolerance_seconds) c.iat
              || leb (c.exp + options.clock_tolerance_seconds) now)
            ≡ false =
          ground (arith, v.issued, v.lives) in
        rw
          (
            bound,
            early,
            window,
            Met-differs options.audience c.aud v.audience_met,
            Met-differs options.issuer c.iss v.issuer_met,
            Met-differs options.subject c.sub v.subject_met,
            Met-other options.operation c.op v.operation_met,
            v.resource_met,
          )
          refl

    verify_complete :
        IsVerified normalize options jwt assertion key (or_else options.current_time time) c
        → verify_client_assertion normalize options jwt assertion key time ≡ ok c
    unfolding verify_client_assertion
    verify_complete v =
        let kid : key_id_of v.header ≡ some v.key_id =
          some-key_id v.header v.key_id v.is_jwt v.has_kid in
        ground
          (arith, v.has_header, v.has_alg, v.is_allowed, v.is_signed, v.has_claims, all_checks v)

    -- An assertion is verified exactly when it meets every rule of `IsVerified`: a JWT header with a
    -- key of the Agent who is both issuer and subject, an allowed algorithm, a good signature, a
    -- time within the window, and every expectation that the options name.
    pub verify_iff :
        (verify_client_assertion normalize options jwt assertion key time ≡ ok c)
        ↔ IsVerified normalize options jwt assertion key (or_else options.current_time time) c
    verify_iff = (verify_sound, verify_complete)
