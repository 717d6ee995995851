-- ===== src/Service/Replay/SingleUse.antt =====
-- An identifier that was accepted is refused until its record may be forgotten.
use aep_python.Common.{
  Bool, ℕ, ◌<◌, String, ◌≡◌, true, some, List, [], ◌∷◌, arith, nat_eq, string_eq, pair_eq, ==_iff,
  if_cases, ltb,
}
use aep_python.Common.Exec.{Result, ok}
use aep_python.Common.Dict.{
  get, has, IsDict, get-put, get-put_self, get-retain, put-IsDict, retain-IsDict,
}
use aep_python.Service.Replay.{
  ReplayRecord, ReplayStore, replay_key, invalid_record, live_at, consume,
}

-- the state after a sequence of calls, each a record and the second at which it was made
unfoldable pub consume_all : List (ReplayRecord × ℕ) → ReplayStore → ReplayStore
consume_all [] s = s
consume_all ((r, now) ∷ calls) s = consume_all calls (consume r now s).1

-- every call was made before the second `t`
abbrev pub Before : ℕ → List (ReplayRecord × ℕ) → Type 0
Before t [] = Unit
Before t ((r, now) ∷ calls) = (now < t) × Before t calls

module _ (r : ReplayRecord) (now : ℕ) (s : ReplayStore) (u : IsDict s) where
  live-IsDict : IsDict (live_at now s)
  unfolding live_at
  live-IsDict = retain-IsDict (λ expiry. ltb now expiry) s u

  pub consume-IsDict : IsDict (consume r now s).1
  unfolding consume
  consume-IsDict =
      if_cases {A = Result Bool × ReplayStore} (λ x. IsDict x.1) (invalid_record r now)
        (λ _. live-IsDict)
        λ _.
          if_cases {A = Result Bool × ReplayStore} (λ x. IsDict x.1)
            (has (replay_key r) (live_at now s)) (λ _. live-IsDict)
            λ _. put-IsDict (replay_key r) r.expires_at (live_at now s) live-IsDict

  get-live :
      (key : String × String) (expiry : ℕ)
      → now < expiry
      → get key s ≡ some expiry
      → get key (live_at now s) ≡ some expiry
  unfolding live_at
  get-live key expiry h e = ground (arith, get-retain (λ expiry. ltb now expiry) key s u)

  -- an entry with time left is there after any call
  pub consume_keeps :
      (key : String × String) (expiry : ℕ)
      → now < expiry
      → get key s ≡ some expiry
      → get key (consume r now s).1 ≡ some expiry
  unfolding consume
  consume_keeps key expiry h e = ground (
    arith,
    get-live key expiry,
    get-put (replay_key r) key r.expires_at (live_at now s),
    ==_iff (replay_key r) key,
  )

  -- an accepted record is stored
  pub consume_stores :
      (consume r now s).0 ≡ ok true → get (replay_key r) (consume r now s).1 ≡ some r.expires_at
  unfolding consume
  consume_stores h = ground (arith, get-put_self (replay_key r) r.expires_at (live_at now s))

  -- a known identifier with time left is not accepted
  pub consume_refuses :
      (expiry : ℕ)
      → now < expiry
      → get (replay_key r) s ≡ some expiry
      → ¬ ((consume r now s).0 ≡ ok true)
  unfolding consume
  consume_refuses expiry h e = ground (arith, get-live (replay_key r) expiry)

consume_all_keeps :
    (calls : List (ReplayRecord × ℕ)) (s : ReplayStore) (key : String × String) (expiry : ℕ)
    → IsDict s
    → Before expiry calls
    → get key s ≡ some expiry
    → (get key (consume_all calls s) ≡ some expiry) × IsDict (consume_all calls s)
unfolding consume_all
consume_all_keeps [] s key expiry u b e = (e, u)
consume_all_keeps ((r, now) ∷ calls) s key expiry u (early, b) e =
    consume_all_keeps calls (consume r now s).1 key expiry (consume-IsDict r now s u) b
      (consume_keeps r now s u key expiry early e)

-- From a store with one entry for each key: if a record is accepted, then after any further calls
-- at seconds before its expiry, the same subject and identifier are not accepted again at a second
-- before that expiry, whatever expiry the later record names.
pub accepted_once :
    (s : ReplayStore) (r r' : ReplayRecord) (now later : ℕ) (calls : List (ReplayRecord × ℕ))
    → IsDict s
    → (consume r now s).0 ≡ ok true
    → Before r.expires_at calls
    → replay_key r' ≡ replay_key r
    → later < r.expires_at
    → ¬ ((consume r' later (consume_all calls (consume r now s).1)).0 ≡ ok true)
accepted_once s r r' now later calls u first b same early =
    let (kept, unique) =
      consume_all_keeps calls (consume r now s).1 (replay_key r) r.expires_at
        (consume-IsDict r now s u) b (consume_stores r now s u first) in
    consume_refuses r' later _ unique r.expires_at early (rw same kept)
