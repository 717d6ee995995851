-- ===== src/Service/Replay/Examples.antt =====
-- The replay store at a small run.
use aep_python.Common.{◌≡◌, refl, true, [], ◌∷◌, arith, nat_eq, string_eq, pair_eq}
use aep_python.Common.Exec.{ok}
use aep_python.Common.Dict.{get, put, retain}
use aep_python.Service.Replay.{ReplayRecord, consume, live_at}
use aep_python.Service.Replay.SingleUse.{accepted_once, consume_all}

abbrev first_use : ReplayRecord
first_use = record { expires_at = 330; jwt_id = "j1"; subject = "did:web:a" }

abbrev later_use : ReplayRecord
later_use = record first_use { expires_at = 900 }

accepted_once_example : ¬ (
    (consume later_use 320 (consume_all ((first_use, 300) ∷ []) (consume first_use 100 []).1)).0
    ≡ ok true)
unfolding consume live_at get put retain
accepted_once_example =
    accepted_once [] first_use later_use 100 320 ((first_use, 300) ∷ []) tt refl (omega arith) refl
      (omega arith)
