-- ===== src/Platform/Directory.antt =====
-- The `list` request of platform/platform.py, and who sees what in it.
use aep_python.Common.{
  ℕ, zero, String, Bool, true, false, not, ◌&&◌, ◌||◌, Option, none, some, List, [], ◌∷◌, map, ◌==◌,
  nat_eq, string_eq, pair_eq, list_eq, member, nonempty, ltb, leb, if◌then◌else◌, length, any,
  is_empty,
}
use aep_python.Common.Exec.{
  value_error, Result, ok, raised, blocked, Exec, pure, lift, ◌>>=◌, raise_if,
}
use aep_python.Common.Text.{Text, codes, before}
use aep_python.Service.Problem.{ErrorCode, distinct}
use aep_python.Platform.Types.{
  IdentityRecord, ℤ, pos, negsuc, is_negative, IdentityListQuery, IdentityListResult,
  RequestContext,
}
use aep_python.Platform.Identities.{invalid_identity}
use aep_python.Platform.Listing.{list_identities, listed}
use aep_python.Platform.Settings.{
  PlatformResult, success, problem, PlatformAgentIdentity, AuthorizationRequest, PlatformPorts,
  identity_response, PlatformState, on_world,
}
use aep_python.Platform.Requests.{not_recognized}

-- `str.isspace` of one character
abbrev pub space_code : ℕ → Bool
space_code c =
    (leb 9 c && leb c 13)
    || ((leb 28 c && leb c 32)
        || (member c (0x85 ∷ 0xa0 ∷ 0x1680 ∷ 0x2028 ∷ 0x2029 ∷ 0x202f ∷ 0x205f ∷ 0x3000 ∷ [])
            || (leb 0x2000 c && leb c 0x200a)))

-- something follows the first colon
abbrev pub named_after : ℕ → Text → Bool
named_after sep [] = false
named_after sep (c ∷ t) = if c == sep then not (is_empty t) else named_after sep t

-- `_is_did`
unfoldable pub is_did : String → Bool
is_did value =
    before b':' (codes value) == codes "did"
    && (named_after b':' (codes value) && not (any space_code (codes value)))

abbrev pub over_limit : ℤ → Bool
over_limit (pos n) = ltb 100 n
over_limit (negsuc n) = false

abbrev pub is_zero : ℤ → Bool
is_zero (pos zero) = true
is_zero _ = false

abbrev pub bad_filter : Option String → Bool
bad_filter none = false
bad_filter (some did) = not (is_did did)

unfoldable pub invalid_query : IdentityListQuery → Bool
invalid_query q =
    is_negative q.limit
    || (over_limit q.limit || (is_negative q.offset || bad_filter q.service_did))

-- a limit of 0 stands for 100
unfoldable pub effective : IdentityListQuery → IdentityListQuery
effective q = if is_zero q.limit then record q { limit = pos 100 } else q

-- `_valid_listed_identity`
unfoldable pub valid_listed : String → IdentityListQuery → IdentityRecord → Bool
valid_listed principal q r = not (invalid_identity r) && listed principal q r

-- `PlatformAgentIdentityListResponse`: the data, whose length is the count, and the total
pub record PlatformAgentIdentityListResponse : Type 0 where
  pub identities : List PlatformAgentIdentity
  pub total : ℕ

-- `list_response`, each identity checked by its model
abbrev pub responses :
    (PlatformAgentIdentity → Result PlatformAgentIdentity)
    → List IdentityRecord
    → Result (List PlatformAgentIdentity)
responses model [] = ok []
responses model (r ∷ rs) =
    let rest = responses model rs in
    elim (model (identity_response r)) [
      | ok x ↦ (elim rest [ ok xs ↦ ok (x ∷ xs) | raised e ↦ raised e | blocked ↦ blocked ])
      | raised e ↦ raised e
      | blocked ↦ blocked
    ]

module _ {W : Type 0} (ports : PlatformPorts W) where
  -- the checks of what the store answers
  unfoldable pub checked_list :
      String
      → IdentityListQuery
      → IdentityListResult
      → Exec (PlatformState W) (PlatformResult PlatformAgentIdentityListResponse)
  checked_list principal q x = do
    _ ←
        raise_if (any (λ r. not (valid_listed principal q r)) x.identities)
          (value_error "AEP Platform identity store returned an unauthorized record")
    _ ←
        raise_if
          (ltb x.total (length x.identities)
            || not (distinct (map (λ r. r.agent_identity_id) x.identities)))
          (value_error "AEP Platform identity store returned an invalid list result")
    data' ← lift (responses ports.identity_model x.identities)
    pure (success 200 (record { identities = data'; total = x.total }))

  unfoldable pub list_authorized :
      IdentityListQuery
      → RequestContext
      → Bool
      → Exec (PlatformState W) (PlatformResult PlatformAgentIdentityListResponse)
  list_authorized q context authorized s =
      if not authorized || not (nonempty context.principal)
      then not_recognized s
      else (lift (list_identities context.principal q s.identities)
            >>= checked_list context.principal q)
          s

  unfoldable pub list :
      IdentityListQuery
      → RequestContext
      → Exec (PlatformState W) (PlatformResult PlatformAgentIdentityListResponse)
  list q context = if invalid_query q then pure (problem 400 ErrorCode.invalid_request) else do
    authorized ←
        on_world (ports.authorize (AuthorizationRequest.list_identities (effective q)) context)
    list_authorized (effective q) context authorized
