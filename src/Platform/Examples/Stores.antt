-- ===== src/Platform/Examples/Stores.antt =====
-- The theorems about the stores, on one identity.
use aep_python.Common.{
  arith, ◌≤◌, String, ◌≡◌, refl, inl, true, false, none, some, List, [], ◌∷◌, nat_eq, string_eq,
  pair_eq, list_eq, length, select,
}
use aep_python.Common.Exec.{ok, pure}
use aep_python.Common.Dict.{get, put, remove}
use aep_python.Platform.Types.{suspended, IdentityRecord}
use aep_python.Platform.Identities.{IdentityStore, empty_store, insert_identity, scope_of}
use aep_python.Platform.Examples.Data.{noon, agent, stored}
use aep_python.Platform.Identities
use aep_python.Platform.Identities.{
  Scope, find_by_agent_did, find_by_agent_did_id, enter, commit, release, find_or_create,
  invalid_identity, validate_identity_record, taken, update_status, existing,
}
use aep_python.Platform.Identities.Tasks.{
  System, start, step_task, after_entry, asking, leaving, Reach, here, next, call, enters, finish,
  updates,
}
use aep_python.Platform.Identities.Unique.{identities_unique, lookups_agree}
use aep_python.Platform.Identities.Stable.{identity_stable}
use aep_python.Platform.Identities.Again.{find_or_create-again}
use aep_python.Platform.Types.{IdentityListQuery, pos}
use aep_python.Platform.Listing.{
  list_identities, matching, listed, sort_by, sort_insert, ordering, take, drop, values,
}
use aep_python.Platform.Listing.Order.{IsSorted}
use mathlib.Core.List.{Perm}
use aep_python.Platform.Listing.Pages.{paging_complete, paged_through, list_sound, All}
use aep_python.Service.Idempotency
use aep_python.Service.Types.{StoredResponse}
use aep_python.Platform.Idempotency.{IdempotentOperation, PlatformIdempotencyInput, execute}
use aep_python.Platform.Idempotency.Agreement.{as_input, as_store, as_state, execute_agrees}

abbrev scope : Scope
scope = ("ann", "did:web:s")

abbrev asked : System
asked = step_task start 0 (asking scope) start.store

abbrev admitted : System
admitted =
    step_task asked 0 (after_entry scope (enter scope asked.store).0) (enter scope asked.store).1

abbrev finished : System
finished = step_task admitted 0 (leaving scope) (commit scope agent admitted.store).1

reached : Reach start finished
unfolding enter get
reached =
    next (next (next here (call 0 scope refl)) (enters 0 scope refl)) (finish 0 scope agent refl)

identities_unique_example : ◌≡◌ {A = String} "pai_a" "pai_a" × (agent ≡ agent)
unfolding enter commit invalid_identity taken insert_identity Identities.get_identity get put
identities_unique_example =
    identities_unique {s = finished} "pai_a" "pai_a" agent agent reached refl refl (inl refl)

lookups_agree_example :
    ((did : String)
      → find_by_agent_did did finished.store ≡ some agent
      → (agent.agent_did ≡ did)
        × (Identities.get_identity agent.agent_identity_id finished.store ≡ some agent))
    × ((did_id : String)
        → find_by_agent_did_id did_id finished.store ≡ some agent
        → (agent.agent_did_id ≡ did_id)
          × (Identities.get_identity agent.agent_identity_id finished.store ≡ some agent))
    × ((id : String)
        → Identities.get_identity id finished.store ≡ some agent
        → (agent.agent_identity_id ≡ id)
          × (find_by_agent_did agent.agent_did finished.store ≡ some agent)
          × (find_by_agent_did_id agent.agent_did_id finished.store ≡ some agent))
lookups_agree_example = lookups_agree {s = finished} agent reached

abbrev suspended_later : System
suspended_later = record finished {
  store = (update_status "pai_a" suspended noon finished.store).1;
}

identity_stable_example :
    (q : IdentityRecord) × (enter scope suspended_later.store
      ≡ (ok (existing q), suspended_later.store))
    × (q ≡ record agent { status = q.status; updated_at = q.updated_at })
unfolding enter commit invalid_identity taken insert_identity get put
identity_stable_example =
    identity_stable {s = finished} {t = suspended_later} "pai_a" agent reached refl
      (next here (updates "pai_a" suspended noon))

find_or_create-again_example :
    find_or_create scope
      (pure agent)
      (tt, (find_or_create scope (pure agent) (tt, empty_store)).1.1)
    ≡ (ok (agent, false), (tt, (find_or_create scope (pure agent) (tt, empty_store)).1.1))
unfolding find_or_create enter commit release invalid_identity taken insert_identity get put remove
find_or_create-again_example =
    find_or_create-again {V = Unit} {W = Unit} scope (pure agent) (pure agent) tt tt empty_store
      agent true refl

abbrev query : IdentityListQuery
query = record {
  descending = false;
  limit = pos 5;
  offset = pos 0;
  service_did = none;
  status = none;
}

paging_complete_example :
    Perm
      (paged_through "ann" query 1 2 0 stored)
      (select (listed "ann" query) (values stored.records))
    × IsSorted (ordering false) (paged_through "ann" query 1 2 0 stored)
unfolding list_identities matching listed sort_by sort_insert
paging_complete_example =
    paging_complete "ann" query 1 2 0 stored (record { identities = agent ∷ []; total = 1 }) refl
      refl (omega arith)

list_sound_example :
    (All (listed "ann" query) (agent ∷ []))
    × (IsSorted (ordering false) (agent ∷ []))
    × (1 ≤ 5)
    × (1 ≤ 1)
    × ((l : List IdentityRecord) × (Perm l (select (listed "ann" query) (values stored.records)))
        × (length l ≡ 1)
        × (agent ∷ [] ≡ take 5 (drop 0 l)))
unfolding list_identities matching listed sort_by sort_insert
list_sound_example =
    list_sound "ann" query stored (record { identities = agent ∷ []; total = 1 }) refl

abbrev input : PlatformIdempotencyInput
input = record {
  idempotency_key = "k";
  operation = IdempotentOperation.provision;
  principal = "ann";
  request_hash = "h";
}

abbrev response : StoredResponse
response = record {
  body = "{}";
  content_type = "application/aep+json";
  created_at = noon;
  headers = [];
  status = 200;
}

execute_agrees_example :
    Idempotency.execute
      (as_input input)
      noon
      (pure {S = Unit} response)
      (tt, as_store (record { pending = []; records = [] }))
    ≡ as_state (execute input noon (pure response) (tt, record { pending = []; records = [] }))
execute_agrees_example =
    execute_agrees input noon (pure response) tt (record { pending = []; records = [] }) refl refl
