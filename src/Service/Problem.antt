-- ===== src/Service/Problem.antt =====
-- The problem responses of service/service.py and the checks that `ProblemDetails`, `EnrollResponse`
-- and `_document_ids` of core/models.py make on them. An error code stands for its text; type URN
-- and title are functions of it and are left out.
use aep_python.Common.{
  ℕ, String, Bool, true, false, not, ◌&&◌, ◌||◌, Option, none, some, List, [], ◌∷◌, ◌++◌, ◌==◌,
  nat_eq, string_eq, pair_eq, list_eq, member, nonempty, leb, if◌then◌else◌, length, all, is_empty,
}
use aep_python.Common.Exec.{value_error, Result, ok, raised}
use aep_python.Common.Dict.{Dict}
use aep_python.Common.Text.{Text, codes}

pub data ErrorCode : Type 0 where
  not_recognized invalid_request unsupported_grant_type idempotency_conflict : ErrorCode
  requirements_unmet enrollment_failed verification_pending identity_suspended : ErrorCode
  identity_terminated identity_unavailable unsupported_authentication_method : ErrorCode
  authentication_required : ErrorCode

-- An empty tuple is a member that is left out.
pub record Problem : Type 0 where
  pub status : ℕ
  pub code : ErrorCode
  pub owner_action_required : Bool
  pub requirements_pending : List String
  pub verification_pending : List String
  pub required_document_ids : List String

pub record ServiceResult (B : Type 0) : Type 0 where
  pub status : ℕ
  pub body : Option B
  pub content_type : String
  pub headers : Dict String String
  pub problem : Option Problem

abbrev pub code_text : ErrorCode → String
code_text not_recognized = "not_recognized"
code_text invalid_request = "invalid_request"
code_text unsupported_grant_type = "unsupported_grant_type"
code_text idempotency_conflict = "idempotency_conflict"
code_text requirements_unmet = "requirements_unmet"
code_text enrollment_failed = "enrollment_failed"
code_text verification_pending = "verification_pending"
code_text identity_suspended = "identity_suspended"
code_text identity_terminated = "identity_terminated"
code_text identity_unavailable = "identity_unavailable"
code_text unsupported_authentication_method = "unsupported_authentication_method"
code_text authentication_required = "authentication_required"

abbrev pub is_not_recognized : ErrorCode → Bool
is_not_recognized not_recognized = true
is_not_recognized _ = false

abbrev pub is_requirements_unmet : ErrorCode → Bool
is_requirements_unmet requirements_unmet = true
is_requirements_unmet _ = false

-- `len(set(values)) == len(values)`
unfoldable pub distinct : List String → Bool
distinct [] = true
distinct (x ∷ xs) = not (member x xs) && distinct xs

-- `values` are unique and none is empty
unfoldable pub pending_values : List String → Bool
unfolding distinct
pending_values xs = all nonempty xs && distinct xs

abbrev pub id_start : ℕ → Bool
id_start c =
    (leb b'A' c && leb c b'Z') || ((leb b'a' c && leb c b'z') || (leb b'0' c && leb c b'9'))

-- `[A-Za-z0-9][A-Za-z0-9._-]{0,31}`
unfoldable pub document_id : Text → Bool
document_id [] = false
document_id (c ∷ t) =
    id_start c
    && (leb (length t) 31 && all (λ x. id_start x || (x == b'.' || (x == b'_' || x == b'-'))) t)

-- `_document_ids`
unfoldable pub document_ids : List String → Bool
unfolding distinct document_id
document_ids xs = leb (length xs) 7 && (distinct xs && all (λ x. document_id (codes x)) xs)

-- what makes `validate_problem` raise
unfoldable pub invalid_problem : Problem → Bool
unfolding pending_values document_ids
invalid_problem p =
    let documents_pending = member "service_documents" p.requirements_pending in
    ((not (is_empty p.required_document_ids) || documents_pending)
      && (is_empty p.required_document_ids
          || (not documents_pending
              || (not (is_requirements_unmet p.code) || not (p.status == 422)))))
    || (not (document_ids p.required_document_ids)
        || (not (pending_values p.verification_pending)
            || (not (pending_values p.requirements_pending)
                || (is_not_recognized p.code
                    && (p.owner_action_required
                        || (not (is_empty p.verification_pending)
                            || not (is_empty p.requirements_pending)))))))

abbrev pub problem_media_type : String
problem_media_type = "application/problem+json"

-- `f'AEP reason="{code}"'`, by the code
abbrev pub challenge : ErrorCode → ℕ → Dict String String
challenge code status = if status == 401 then ("WWW-Authenticate", code_text code) ∷ [] else []

-- `_problem`
unfoldable pub problem_result : {B : Type 0} → Problem → Result (ServiceResult B)
problem_result p =
    if invalid_problem p
    then raised (value_error "invalid problem details")
    else ok (record {
      status = p.status;
      body = none;
      content_type = problem_media_type;
      headers = challenge p.code p.status;
      problem = some p;
    })

-- `_problem(code, title, status)`
abbrev pub plain_problem : ErrorCode → ℕ → Problem
plain_problem code status = record {
  status = status;
  code = code;
  owner_action_required = false;
  requirements_pending = [];
  verification_pending = [];
  required_document_ids = [];
}

-- `_document_requirements`
unfoldable pub document_requirements :
    {B : Type 0} → List String → List String → Result (ServiceResult B)
document_requirements claims documents = problem_result (record {
  status = 422;
  code = requirements_unmet;
  owner_action_required = not (is_empty documents);
  requirements_pending =
      if is_empty documents then claims else claims ++ ("service_documents" ∷ []);
  verification_pending = [];
  required_document_ids = documents;
})
