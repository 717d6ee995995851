-- ===== src/Service/Examples.antt =====
-- A small Service, and its theorems at it.
use aep_python.Common.{
  ℕ, ◌+◌, ◌*◌, String, ◌≡◌, refl, ◌≢◌, true, false, none, some, [], ◌∷◌, nat_eq, string_eq, pair_eq,
  list_eq, nonempty,
}
use aep_python.Common.Exec.{key_error, ok, raised}
use aep_python.Common.Dict.{get, put, retain}
use aep_python.Service.Time.{DateTime}
use aep_python.Service.Types.{AgentStatus, EnrollmentRecord}
use aep_python.Service.Replay.SingleUse.{consume_all}
use aep_python.Service.Replay.{consume}
use aep_python.Service.Enrollments.{find}
use aep_python.Service.Settings.{
  AssertionOperation, AssertionClaims, CommandOptions, EnrollRequest, GrantRequest, DecisionStatus,
  Settings, Ports, State, now_of,
}
use aep_python.Core.Json.{null}
use aep_python.Service.Replay.{live_at}
use aep_python.Service.Assertions.{
  authenticate_assertion, verified, accepted, consumed, valid_assertion, well_formed,
  bound_to_agent, in_window, identity_method,
}
use aep_python.Service.Assertions.OneUse.{accepted_at_most_once}
use aep_python.Service.Lifecycle.{update_enrollment}
use aep_python.Service.Lifecycle.Identity.{SameEnrollment, update_keeps_status}
use aep_python.Service.Idempotent.{Wire}
use aep_python.Service.Commands.{grant}
use aep_python.Service.Commands.Outcomes.{IsGated, authenticated}
use aep_python.Service.Commands.Gate.{grant-Gated}
use aep_python.Service.Idempotent.{Codec, Full}
use aep_python.Core.Json.{Json}
use aep_python.Common.Flight.{set_task}
use aep_python.Service.Settings.{EnrollmentDecision}
use aep_python.Service.Lifecycle.{updated_record}
use aep_python.Service.Lifecycle.Runs.{
  Run, idle_run, here, next, creates, reads, updates, enrollment_stable,
}
use aep_python.Service.Enrollments
use aep_python.Service.Enrollments.{save}
use aep_python.Service.Enrollments.Enrolled.{Enrolled}
use aep_python.Service.Enrollments.Tasks.{
  start, step_task, asking, creating, leaving, call, admit, finish,
}

abbrev pub did : String
did = "did:web:agent.example"

abbrev pub settings : Settings
settings = record {
  service_did = "did:web:service.example";
  signing_algorithms = "EdDSA" ∷ "ES256" ∷ [];
  identity_methods = "did:web" ∷ [];
  claims =
      some (record { required = some ("contact.email" ∷ []); preferred = none; optional = none });
  extensions = [];
  service_documents = record { id = "terms"; required = true } ∷ [];
  clock_tolerance = 30;
  maximum_assertion_lifetime = 300;
  claim_limits = record {
    maximum_encoded_bytes = 65536;
    maximum_member_count = 128;
    maximum_object_depth = 8;
    maximum_string_length = 4096;
  };
  grant_types = ("api-key", true) ∷ [];
}

abbrev assertion : AssertionClaims
assertion = record {
  aud = "did:web:service.example";
  exp = 400;
  iat = 200;
  iss = did;
  jti = "j1";
  op = AssertionOperation.status;
  resource = none;
  sub = did;
}

-- the world is the second that the clock gives
abbrev pub ports : Ports ℕ
ports = record {
  clock = λ w. (ok (record { micros = w * 1_000_000; aware = true }), w);
  verify = λ a context w. (ok assertion, w);
  decode_header = λ a. ok (record { typ = some "JWT"; kid = some did; alg = some "EdDSA" });
  normalize_resource = λ r. ok r;
  decide = λ request now w. (
    ok (record {
      status = DecisionStatus.active;
      owner_action_required = none;
      requirements_pending = none;
      verification_pending = none;
      update_existing = true;
    }),
    w,
  );
  identifier = λ w. (ok "e1", w);
  encoded_bytes = λ v. 2;
  claim_values = λ v. ok v;
  grant_handler = λ grant_type request context w. (ok "{}", w + 1);
  revoke_handler = λ grant_type request context w. (ok tt, w + 1);
  credential_object = λ raw. ok null;
}

abbrev wire : Wire
wire = record {
  enroll_request = λ body. none;
  grant_request = λ body. none;
  revoke_request = λ body. none;
  not_blank = nonempty;
  enroll_hash = λ r. "sha256:0";
  grant_hash = λ r. "sha256:1";
  revoke_hash = λ r. "sha256:2";
  problem_text = λ p. "{}";
  problem_of = λ s. raised key_error;
  sorted = λ names. names;
}

abbrev early : DateTime
early = record { micros = 100_000_000; aware = true }

abbrev pub suspended : EnrollmentRecord
suspended = record {
  agent_did = did;
  claims = some (("contact.email", null) ∷ []);
  created_at = early;
  enrollment_id = "e1";
  owner_action_required = false;
  requirements_pending = [];
  since = early;
  status = AgentStatus.suspended;
  updated_at = early;
  verification_pending = [];
  acknowledged_document_ids = "terms" ∷ [];
  required_document_ids = [];
}

abbrev state : State ℕ
state = record {
  world = 300;
  replay = [];
  enrollments = record { pending = []; records = (did, suspended) ∷ [] };
}

abbrev options : CommandOptions
options = record { client_assertion = "a.b.c"; idempotency_key = none }

abbrev after_use : State ℕ
after_use = (authenticate_assertion settings ports options AssertionOperation.status none state).1

accepted_at_most_once_example : ¬ (
    (authenticate_assertion settings ports options AssertionOperation.status none after_use).0
    ≡ ok (some assertion))
unfolding consume_all authenticate_assertion verified accepted consumed valid_assertion well_formed
    bound_to_agent in_window identity_method now_of consume live_at get put retain
accepted_at_most_once_example =
    accepted_at_most_once settings ports options options AssertionOperation.status
      AssertionOperation.status none none state after_use assertion assertion []
      (record { micros = 300_000_000; aware = true }) tt refl refl refl tt refl

abbrev request : EnrollRequest
request = record {
  agent_did = did;
  claims = none;
  idempotency_key = none;
  acknowledged_document_ids = none;
}

update_keeps_status_example :
    (r' : EnrollmentRecord) × (find did
        (update_enrollment settings ports request suspended state).1.enrollments
      ≡ some r')
    × SameEnrollment suspended r'
    × (did ≢ did → r' ≡ suspended)
unfolding find get
update_keeps_status_example =
    update_keeps_status settings ports request suspended state did suspended refl refl

abbrev key_request : GrantRequest
key_request = record { grant_type = "api-key"; requested_scopes = none }

abbrev grant_wire : Wire
grant_wire = record wire { grant_request = λ body. some key_request }

abbrev codec : Codec Json
codec = record { body_text = λ body. "{}"; body_of = λ text. ok null }

abbrev grant_options : CommandOptions
grant_options = record { client_assertion = "a.b.c"; idempotency_key = some "k" }

-- the world of a Service whose verifier answers with an assertion for a grant
abbrev grant_ports : Ports ℕ
grant_ports = record ports {
  verify = λ a context w. (ok (record assertion { op = AssertionOperation.grant }), w);
}

abbrev active_state : State ℕ
active_state = record state {
  enrollments = record {
    pending = [];
    records = (did, record suspended { status = AgentStatus.active }) ∷ [];
  };
}

abbrev full : Full ℕ
full = (active_state, record { pending = []; records = [] })

grant-Gated_example :
    IsGated settings grant_ports grant_wire codec "{}" grant_options full
      (authenticated settings grant_ports grant_wire codec "{}" grant_options full).1
      (grant settings grant_ports grant_wire codec "{}" grant_options full)
grant-Gated_example = grant-Gated settings grant_ports grant_wire codec "{}" grant_options full

-- one enrollment is created, read by an update, and saved by it
abbrev asking_run : Run
asking_run = record idle_run { system = step_task start 0 (asking did) start.store }

abbrev making_run : Run
making_run = record idle_run {
  system =
      step_task asking_run.system 0 (creating did)
        (Enrollments.enter did asking_run.system.store).1;
}

abbrev made_run : Run
made_run = record idle_run {
  system =
      step_task making_run.system 0 (leaving did)
        (Enrollments.commit did suspended making_run.system.store).1;
}

abbrev reading_run : Run
reading_run = record made_run { reading = set_task 1 (some suspended) made_run.reading }

abbrev decision : EnrollmentDecision
decision = record {
  status = DecisionStatus.active;
  owner_action_required = none;
  requirements_pending = none;
  verification_pending = none;
  update_existing = true;
}

abbrev saved_run : Run
saved_run = record {
  system = record made_run.system {
    store =
        save (updated_record settings ports request suspended decision [] early)
          made_run.system.store;
  };
  reading = set_task 1 none reading_run.reading;
}

enrollment_stable_example : Enrolled did "e1" saved_run.system
unfolding Enrollments.enter Enrollments.commit get put find
enrollment_stable_example =
    enrollment_stable settings ports {s = made_run} {t = saved_run} did "e1"
      (next (next (next here (creates (call 0 did refl) tt)) (creates (admit 0 did refl refl) tt))
        (creates (finish 0 did suspended refl) tt))
      (next (next here (reads 1 did suspended refl))
        (updates 1 suspended request decision [] early refl))
      (suspended, refl, refl)
