-- ===== src/Platform/Requests/Documents.antt =====
-- What `did_document` of platform/platform.py publishes.
use aep_python.Common.{
  String, ◌≡◌, ap, ◌∙◌, inl, inr, Bool, true, false, none, some, List, [], ◌∷◌, arith, ◌==◌, nat_eq,
  string_eq, pair_eq, list_eq, ==_iff, member, eq_of_beq, if◌then◌else◌, Bool-cases, Option-cases,
  any,
}
use aep_python.Common.Exec.{Result, ok, Exec, pure, lift, ◌>>=◌, ◌>>◌}
use aep_python.Common.Dict.{Dict, get, has}
use aep_python.Common.Exec.{bind_ok, check_ok, pure_ok, lift_ok}
use aep_python.Core.Json.{Json}
use aep_python.Platform.Types.{active, managed_eq, managed_beq, managed_beq_iff, IdentityRecord}
use aep_python.Platform.Identities.{validate_identity_record, find_by_agent_did_id}
use aep_python.Platform.Settings.{
  PlatformResult, DidVerificationMethod, PlatformSettings, PlatformPorts, PlatformState, on_world,
}
use aep_python.Platform.Requests.{
  mismatched, is_text, private_jwk, DidDocument, create_did_document, did_media_type, published,
  did_document,
}
use aep_python.Platform.Requests.Owner.{named_if}

-- the members that hold secret parameters of a key, in the registry of JSON Web Key parameters
abbrev pub secret_members : List String
secret_members = "d" ∷ "p" ∷ "q" ∷ "dp" ∷ "dq" ∷ "qi" ∷ "oth" ∷ "k" ∷ []

-- a document of the stored active identity, over public key material
pub record IsPublished {W : Type 0} (did_id : String) (s : PlatformState W) (d : DidDocument)
    : Type 0 where
  pub identity : IdentityRecord
  pub stored : find_by_agent_did_id did_id s.identities ≡ some identity
  pub is_active : identity.status ≡ active
  pub is_named : identity.agent_did_id ≡ did_id
  pub is_agent : d.id ≡ identity.agent_did
  pub is_key : d.verification_method.id ≡ identity.key_id
  pub is_controller : d.verification_method.controller ≡ identity.agent_did
  pub not_symmetric : is_text (get "kty" d.verification_method.public_key_jwk) "oct" ≡ false
  pub no_private :
      (m : String)
      → member m secret_members ≡ true
      → has m d.verification_method.public_key_jwk ≡ false

any-false :
    (p : String → Bool) (xs : List String)
    → any p xs ≡ false
    → (x : String) → member x xs ≡ true
    → p x ≡ false
any-false p [] h x m = absurd ground arith
any-false p (y ∷ ys) h x m = elim (Bool-cases (y == x)) [
  | inl e ↦ let same : y ≡ x = eq_of_beq y x e in ground arith
  | inr e ↦ any-false p ys (ground arith) x (ground arith)
]

create-Public :
    (r : IdentityRecord) (m : DidVerificationMethod) (d : DidDocument)
    → create_did_document r m ≡ ok d
    → (d ≡ record { id = r.agent_did; verification_method = m })
      × (m.id ≡ r.key_id)
      × (m.controller ≡ r.agent_did)
      × (private_jwk m.public_key_jwk ≡ false)
unfolding create_did_document
create-Public r m d h = (
  ground arith,
  ground (arith, ==_iff m.id r.key_id),
  ground (arith, ==_iff m.controller r.agent_did),
  ground arith,
)

public_members :
    (jwk : Dict String Json)
    → private_jwk jwk ≡ false
    → (is_text (get "kty" jwk) "oct" ≡ false)
      × ((m : String) → member m secret_members ≡ true → has m jwk ≡ false)
unfolding private_jwk
public_members jwk h = (ground arith, any-false (λ m. has m jwk) secret_members (ground arith))

module _ {W : Type 0} (settings : PlatformSettings) (ports : PlatformPorts W) (did_id : String)
    (s t : PlatformState W) where
  -- the reply with a document
  abbrev pub document_reply : DidDocument → PlatformResult DidDocument
  document_reply d = record {
    status = 200;
    body = some d;
    content_type = did_media_type;
    headers = ("Cache-Control", "max-age=300") ∷ [];
    problem = none;
  }

  published-Public :
      (r : IdentityRecord) (x : PlatformResult DidDocument) (d : DidDocument)
      → find_by_agent_did_id did_id s.identities ≡ some r
      → published settings ports did_id (some r) s ≡ (ok x, t)
      → x.body ≡ some d
      → IsPublished did_id s d
  published-Public r x d e h b = elim (Bool-cases (managed_beq r.status active)) [
    | inl is ↦
        let named : Result (Unit {0}) = if r.agent_did_id == did_id then ok tt else mismatched in
        let render : DidVerificationMethod → Exec (PlatformState W) (PlatformResult DidDocument) =
          λ m. lift (create_did_document r m) >>= (λ d'. pure (document_reply d')) in
        let body : Exec (PlatformState W) (PlatformResult DidDocument) =
          on_world (ports.did_verification_method r) >>= render in
        let (valid, h2) =
          check_ok (validate_identity_record r) (lift named >> body) s {b = x} {t = t}
            (ground arith) in
        let (is_named, h3) = check_ok named body s h2 in
        let (m, u, asked, h4) = bind_ok (on_world (ports.did_verification_method r)) render s h3 in
        let (d', v, made, h5) =
          bind_ok (lift (create_did_document r m)) (λ d'. pure (document_reply d')) u h4 in
        let (is_made, same_v) = lift_ok (create_did_document r m) u {x = d'} {t = v} made in
        let (is_reply, same_t) = pure_ok (document_reply d') v {b = x} {t = t} h5 in
        let (shape, key, controller, public) = create-Public r m d' is_made in
        let given : some d' ≡ some d = ap (λ y. y.body) is_reply ∙ b in
        let same : d ≡ record { id = r.agent_did; verification_method = m } =
          ground (arith, given, shape) in
        let jwk : private_jwk d.verification_method.public_key_jwk ≡ false =
          ap (λ y. private_jwk y.verification_method.public_key_jwk) same ∙ public in
        let (not_symmetric, no_private) = public_members d.verification_method.public_key_jwk jwk in
        record {
          identity = r;
          stored = e;
          is_active = (managed_beq_iff r.status active).0 is;
          is_named = named_if r.agent_did_id did_id is_named;
          is_agent = ap (λ y. y.id) same;
          is_key = ap (λ y. y.verification_method.id) same ∙ key;
          is_controller = ap (λ y. y.verification_method.controller) same ∙ controller;
          not_symmetric = not_symmetric;
          no_private = no_private;
        }
    | inr is ↦ absurd ground arith
  ]

  -- A document that `did_document` publishes is that of the active identity stored under the
  -- identifier: its one method is named by the key of that identity and controlled by its Agent DID,
  -- and its JWK is no symmetric key and has none of the private members.
  pub did_document-Public :
      (x : PlatformResult DidDocument) (d : DidDocument)
      → did_document settings ports did_id s ≡ (ok x, t)
      → x.body ≡ some d
      → IsPublished did_id s d
  unfolding did_document
  did_document-Public x d h b = elim (Option-cases (find_by_agent_did_id did_id s.identities)) [
    | inl n ↦ absurd ground arith
    | inr (r, e) ↦ published-Public r x d e (ground arith) b
  ]
