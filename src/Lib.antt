-- ===== src/Lib.antt =====
-- Agent Enrollment Protocol for Python: a model of the Service and the Platform roles, and of the
-- core that they use.
--
-- An Agent authenticates with a signed assertion and enrolls at a Service, which stores an enrollment
-- record and later grants and revokes credentials. The enroll, grant and revoke commands run through
-- an idempotency store, and every assertion through a replay store. A granted credential, or an
-- assertion, lets an Agent into protected resources. A Platform manages identities for principals: it
-- provisions one for each principal and Service, publishes its DID document, signs assertions for it
-- and verifies them for a trusted Service, through stores of its own. Paths below are from the
-- repository's root, under src/agent_enrollment_protocol.
--
-- Common holds what the modules share: lists and tests over the native numbers, equality by instance,
-- Python's dict in order of insertion (Dict), state with exceptions (Exec), ownership of pending
-- events by tasks (Flight), texts as code points (Text).
--
-- Core.Json       JSON values
-- Core.Claims     core/claims.py: evaluate_claim_support, missing_required_claim_names
-- Core.Http       core/http.py: parse_authorization, render_authorization, with Python's IGNORECASE
-- Core.Http.Paths core/http.py: media types, endpoint bases (Base), command paths
-- Core.Assertions core/assertions.py: verify_client_assertion, sign_client_assertion; Rules holds what a
--                 verified assertion is
-- Service.Time    datetime, an instant in microseconds and whether it has an offset
-- Service.Types   service/types.py: records that the stores keep
-- Service.Replay        MemoryReplayStore of service/stores.py
-- Service.Enrollments   MemoryEnrollmentStore of service/stores.py; Ownership of its events, Creation and
--                       Enrolled for steps without a save
-- Service.Idempotency   MemoryIdempotencyStore of service/stores.py
-- Service.Limits        _claims_within_limits and _within_structure of service/service.py
-- Service.Problem       _problem and _document_requirements, with the checks of ProblemDetails
-- Service.Settings      what Service.__init__ keeps, the requests, and the ports to the application
-- Service.Assertions    _authenticate_assertion, _valid_assertion
-- Service.Responses     _enrollment_result, _validate_enrollment_record, _grant_lifecycle_problem and others
-- Service.Lifecycle     _update_enrollment, the creation of a record; Runs interleaves creations and updates
-- Service.Idempotent    _idempotent
-- Service.Commands      enroll, status, grant; Grants is about the body of a grant, Gate about the command
-- Service.Revocation    revoke
-- Service.Resources     _select_presentation; authenticate_protected_resource (Access)
-- Service.Credentials   service/credentials.py: built-in credentials, MemoryServiceCredentialStore (Store),
--                       _StoredCredentialHandler (Handler)
-- Platform.Types        platform/types.py: the records of the stores
-- Platform.Identities   MemoryIdentityStore of platform/stores.py; Tasks interleaves its calls, Index and
--                       Indexed say how its indexes stand to the records
-- Platform.Listing      list of MemoryIdentityStore, its order (Order) and pages (Pages)
-- Platform.Idempotency  MemoryPlatformIdempotencyStore; Agreement compares it with Service.Idempotency
-- Platform.Settings     the requests and results, the ports, MemoryReplayStore; Steps inverts its steps
-- Platform.Requests     get_identity, update_identity, did_document, _provision, _authorized_identity
-- Platform.Directory    list of platform/platform.py
-- Platform.Signing      _sign, _validate_sign_result
-- Platform.Verification _verify, and the first half of verify
-- Platform.Commands     provision, sign and verify, with _idempotent, _store_result, _restore_result
--
-- State and exceptions: a method is a function from a state to a result and a state, so that what
-- was written before a raise stays written. The stores of service/stores.py and platform/stores.py
-- stand behind asyncio locks: a region under the lock is one function (enter, commit, release). The
-- Tasks modules let any number of tasks take such steps in any order; a step is a constructor of
-- Step, and a state of the system is reached from an empty store. The commands are modelled one at a
-- time, on the same functions; a call that would wait for another task's event has the result
-- blocked.
--
-- Parameters: the application's verifier, policy, handlers, clock and identifiers, and JSON, pydantic,
-- urlsplit, jwt and digests, are the records Ports, Wire, Codec, CredentialPorts, Resources, Jwt,
-- PlatformPorts, PlatformWire and PlatformCodec, most of them over a state W of the outside world.
-- Times are whole microseconds or seconds after the epoch, as natural numbers. Error codes stand for
-- their texts; titles and type URNs, which are functions of the code, are left out. No definition
-- takes fuel: every loop of the modelled code is over a collection.
--
-- Not modelled: the Agent role, which shares the core with the others; the ASGI adapter; what
-- Service.__init__ and Platform.__init__ check of their options; the discovery documents; JSON and
-- pydantic parsing.
pub mod Common
pub mod Core
pub mod Service
pub mod Platform
