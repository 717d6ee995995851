-- ===== src/Platform/Verification/Once.antt =====
-- Which keys `consume` of the replay store of platform/stores.py accepts.
use aep_python.Common.{
  ℕ, ◌<◌, ◌≡◌, ap, ◌∙◌, inl, inr, Bool, true, false, some, List, [], ◌∷◌, arith, ◌==◌, nat_eq,
  string_eq, pair_eq, list_eq, ==_iff, ltb, lt→ltb, Bool-cases, is_empty,
}
use aep_python.Common.Exec.{ok}
use aep_python.Common.Dict.{get, put, retain, get-put, get-put_self}
use aep_python.Common.Text.{Text}
use aep_python.Service.Time.{DateTime}
use aep_python.Platform.Settings.{consume, ReplayStore}

kept_get :
    (p : DateTime → Bool) (k : Text) (d : ReplayStore) (v : DateTime)
    → get k d ≡ some v
    → p v ≡ true
    → get k (retain p d) ≡ some v
unfolding get retain
kept_get p k [] v h q = h
kept_get p k ((j, w) ∷ d) v h q = elim (Bool-cases (j == k)) [
  | inl e ↦ ground arith
  | inr e ↦ ground (arith, kept_get p k d v)
]

accepted :
    (key : Text) (expires_at now : DateTime) (s t : ReplayStore)
    → consume key expires_at now s ≡ (ok true, t)
    → (is_empty key ≡ false) × (get key t ≡ some expires_at)
unfolding consume
accepted key expires_at now s t h =
    let live : ReplayStore = retain (λ expiry. ltb now.micros expiry.micros) s in
    let wrote : t ≡ put key expires_at live = ground arith in
    (ground arith, ap (get key) wrote ∙ get-put_self key expires_at live)

-- a call of `consume`: the key, its expiry and the clock
abbrev pub Use : Type 0
Use = Text × DateTime × DateTime

-- the store after calls of `consume`, whatever they return
abbrev pub uses : List Use → ReplayStore → ReplayStore
uses [] s = s
uses ((key, expires_at, now) ∷ us) s = uses us (consume key expires_at now s).1

-- every call reads the clock before this time
abbrev pub AllBefore : ℕ → List Use → Type 0
AllBefore limit [] = Unit
AllBefore limit ((key, expires_at, now) ∷ us) = (now.micros < limit) × AllBefore limit us

consume-get :
    (key other : Text) (expires_at again now : DateTime) (s : ReplayStore)
    → get key s ≡ some expires_at
    → now.micros < expires_at.micros
    → get key (consume other again now s).1 ≡ some expires_at
unfolding consume
consume-get key other expires_at again now s h bound =
    let p : DateTime → Bool = λ expiry. ltb now.micros expiry.micros in
    let live : get key (retain p s) ≡ some expires_at =
      kept_get p key s expires_at h (lt→ltb now.micros expires_at.micros bound) in
    ground (arith, get-put other key again (retain p s), ==_iff other key)

uses-get :
    (key : Text) (expires_at : DateTime) (us : List Use) (s : ReplayStore)
    → get key s ≡ some expires_at
    → AllBefore expires_at.micros us
    → get key (uses us s) ≡ some expires_at
uses-get key expires_at [] s h b = h
uses-get key expires_at ((k, e, now) ∷ us) s h (b, bs) =
    uses-get key expires_at us (consume k e now s).1 (consume-get key k expires_at e now s h b) bs

-- A key that the replay store has accepted is not accepted again before the expiry of that use: not
-- with another expiry, and not after any other calls in between, accepted or refused, as long as
-- every clock reading is before the expiry.
pub consume_once :
    (key : Text) (expires_at again now later : DateTime) (us : List Use) (s t : ReplayStore)
    → consume key expires_at now s ≡ (ok true, t)
    → AllBefore expires_at.micros us
    → later.aware ≡ true
    → again.aware ≡ true
    → later.micros < expires_at.micros
    → (consume key again later (uses us t)).0 ≡ ok false
unfolding consume
consume_once key expires_at again now later us s t h before a b bound =
    let (named, wrote) = accepted key expires_at now s t h in
    let p : DateTime → Bool = λ expiry. ltb later.micros expiry.micros in
    let live : get key (retain p (uses us t)) ≡ some expires_at =
      kept_get p key (uses us t) expires_at (uses-get key expires_at us t wrote before)
        (lt→ltb later.micros expires_at.micros bound) in
    ground arith
