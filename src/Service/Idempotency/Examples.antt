-- ===== src/Service/Idempotency/Examples.antt =====
-- The theorems on the stores of service/stores.py, at small runs.
use aep_python.Common.{ℕ, ◌≡◌, refl, true, none, [], arith, nat_eq, string_eq, pair_eq}
use aep_python.Common.Exec.{ok}
use aep_python.Common.Dict.{retain, get, put}
use aep_python.Service.Time.{DateTime}
use aep_python.Service.Types.{StoredResponse, IdempotencyInput, conflict}
use aep_python.Service.Idempotency.{answered, enter, commit}
use aep_python.Service.Idempotency.Tasks.{
  System, start, step_task, asking, running, leaving, Reach, here, next, call, enters, finish,
}
use aep_python.Service.Idempotency.Runs.{one_runner}
use aep_python.Service.Idempotency.Replays.{replayed_for_an_hour}

abbrev noon : DateTime
noon = record { micros = 43_200_000_000; aware = true }

abbrev enroll_call : IdempotencyInput
enroll_call = record {
  agent_did = "did:web:a";
  command = "enroll";
  idempotency_key = "k1";
  request_hash = "sha256:0";
}

abbrev grant_call : IdempotencyInput
grant_call = record enroll_call { command = "grant" }

abbrev response : StoredResponse
response = record {
  body = "{}";
  content_type = "application/aep+json";
  created_at = noon;
  headers = [];
  status = 200;
}

-- task 0 asks, runs the operation and stores its response
abbrev asked : System
asked = step_task start 0 (asking enroll_call) start.store

abbrev ran_one : System
ran_one = step_task asked 0 (running enroll_call) (enter enroll_call noon asked.store).1

abbrev stored_one : System
stored_one = step_task ran_one 0 (leaving enroll_call) (commit enroll_call response ran_one.store)

ran_reached : Reach 43_200_000_001 start ran_one
unfolding enter get retain
ran_reached =
    next (next here (call 0 enroll_call refl refl)) (enters 0 enroll_call noon refl (omega arith))

stored_reached : Reach 43_200_000_001 start stored_one
stored_reached = next ran_reached (finish 0 enroll_call response refl)

one_runner_example : ◌≡◌ {A = ℕ} 0 0
one_runner_example = one_runner 0 0 enroll_call enroll_call ran_reached refl refl refl

-- The same key with another command is a conflict.
replayed_for_an_hour_example :
    (enter grant_call noon stored_one.store).0
    ≡ ok (answered (record { response = none; state = conflict }))
unfolding enter commit get put retain
replayed_for_an_hour_example =
    replayed_for_an_hour enroll_call grant_call response noon stored_reached here refl (omega arith)
      (omega arith) refl refl
