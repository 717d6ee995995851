-- ===== src/Platform/Identities/Again.antt =====
-- A second `find_or_create` of platform/stores.py for the same principal and Service.
use aep_python.Common.{
  String, ◌≡◌, refl, sym, ap, ◌∙◌, inl, inr, Bool, true, false, not, ◌||◌, some, arith, nat_eq,
  string_eq, pair_eq, list_eq, nonempty, Bool-cases, Option-cases,
}
use aep_python.Common.Exec.{Result, ok, raised, blocked, Exec, pure, continue}
use aep_python.Common.Dict.{get, has, get-put_self}
use mathlib.Core.Path.{subst}
use aep_python.Platform.Types.{IdentityRecord}
use aep_python.Platform.Identities.{
  Scope, IdentityStore, insert_identity, Entry, existing, waits, admitted, enter, commit, release,
  finally, made, entered, find_or_create,
}

finally-records :
    {A : Type 0} (scope : Scope) (x : Result A) (s : IdentityStore)
    → ((finally scope (x, s)).1.by_scope ≡ s.by_scope)
      × ((finally scope (x, s)).1.records ≡ s.records)
unfolding release
finally-records scope x s = (ground arith, ground arith)

-- the scope has this identity
abbrev pub IsFound : Scope → IdentityRecord → IdentityStore → Type 0
IsFound scope r s = (id : String) × (get scope s.by_scope ≡ some id) × (get id s.records ≡ some r)

found_enter :
    (scope : Scope) (r : IdentityRecord) (s : IdentityStore)
    → IsFound scope r s
    → enter scope s ≡ (ok (existing r), s)
unfolding enter
found_enter scope r s (id, e, f) = ground arith

inserted-Found :
    (scope : Scope) (r : IdentityRecord) (s : IdentityStore)
    → IsFound scope r (insert_identity scope r s)
unfolding insert_identity
inserted-Found scope r s = (
  r.agent_identity_id,
  get-put_self scope r.agent_identity_id s.by_scope,
  get-put_self r.agent_identity_id r s.records,
)

commit_ok :
    (scope : Scope) (r q : IdentityRecord) (s : IdentityStore)
    → (commit scope r s).0 ≡ ok q
    → (r ≡ q) × ((commit scope r s).1 ≡ insert_identity scope r s)
unfolding commit
commit_ok scope r q s h = (ground arith, ground arith)

kept_ok :
    {A : Type 0} (scope : Scope) (x : Result A) (s : IdentityStore) (a : A)
    → (finally scope (x, s)).0 ≡ ok a
    → x ≡ ok a
unfolding release
kept_ok scope x s a h = elim (Bool-cases (has scope s.pending)) [
  | inl e ↦ ground arith
  | inr e ↦ absurd ground arith
]

same-Found :
    (scope : Scope) (r : IdentityRecord) (s t : IdentityStore)
    → (t.by_scope ≡ s.by_scope) × (t.records ≡ s.records)
    → IsFound scope r s
    → IsFound scope r t
same-Found scope r s t (p, q) (id, e, f) = (id, ap (get scope) p ∙ e, ap (get id) q ∙ f)

module _ {W : Type 0} where
  new_pair :
      (y : Result IdentityRecord × IdentityStore) (w : W) (r : IdentityRecord) (b : Bool)
      → (continue {S = W × IdentityStore} {B = IdentityRecord × Bool} y.0
          (λ q. pure (q, true))
          (w, y.1)).0
        ≡ ok (r, b)
      → (y.0 ≡ ok r)
        × ((continue {S = W × IdentityStore} {B = IdentityRecord × Bool} y.0
              (λ q. pure (q, true))
              (w, y.1)).1.1
            ≡ y.1)
  new_pair (ok q, s) w r b h = (cc, refl)
  new_pair (raised e, s) w r b h = absurd ground arith
  new_pair (blocked, s) w r b h = absurd ground arith

  made-Found :
      (scope : Scope) (x : Result IdentityRecord × W) (s : IdentityStore) (r : IdentityRecord)
      (b : Bool)
      → (made scope x s).0 ≡ ok (r, b)
      → IsFound scope r (made scope x s).1.1
  made-Found scope (ok q, w) s r b h =
      let y : Result IdentityRecord × IdentityStore = finally scope (commit scope q s) in
      let (done, same) = new_pair y w r b h in
      let (is, wrote) =
        commit_ok scope q r s (kept_ok scope (commit scope q s).0 (commit scope q s).1 r done) in
      let found : IsFound scope r (commit scope q s).1 =
        subst (λ t. IsFound scope r t) (sym wrote) (rw is (inserted-Found scope r s)) in
      subst (λ t. IsFound scope r t) (sym same)
        (same-Found scope r (commit scope q s).1 y.1
          (finally-records scope (commit scope q s).0 (commit scope q s).1) found)
  made-Found scope (raised e, w) s r b h =
      let k = kept_ok {A = IdentityRecord × Bool} scope (raised e) s (r, b) h in absurd ground arith
  made-Found scope (blocked, w) s r b h = absurd ground arith

  entered-Found :
      (scope : Scope) (factory : Exec W IdentityRecord) (w : W) (x : Result Entry × IdentityStore)
      (r : IdentityRecord) (b : Bool)
      → ((q : IdentityRecord) → x.0 ≡ ok (existing q) → IsFound scope q x.1)
      → (entered scope factory w x).0 ≡ ok (r, b)
      → IsFound scope r (entered scope factory w x).1.1
  entered-Found scope factory w (ok (existing q), s) r b old h =
      let same : q ≡ r = cc in rw (← same) (old q refl)
  entered-Found scope factory w (ok waits, s) r b old h = absurd ground arith
  entered-Found scope factory w (ok admitted, s) r b old h = made-Found scope (factory w) s r b h
  entered-Found scope factory w (raised e, s) r b old h = absurd ground arith
  entered-Found scope factory w (blocked, s) r b old h = absurd ground arith

enter-Found :
    (scope : Scope) (s : IdentityStore) (q : IdentityRecord)
    → (enter scope s).0 ≡ ok (existing q)
    → IsFound scope q (enter scope s).1
unfolding enter
enter-Found scope s q h = elim (Option-cases (get scope s.by_scope)) [
  | inr (id, e) ↦ elim (Option-cases (get id s.records)) [
    | inr (r, f) ↦
        let same : r ≡ q = ground arith in
        let found : IsFound scope q s = (id, e, f ∙ ap some same) in
        subst (λ x. IsFound scope q x.1) (sym (found_enter scope q s found)) found
    | inl n ↦ absurd ground arith
  ]
  | inl n ↦ absurd ground arith
]

-- An identity that `find_or_create` returned, old or new, is what the next call for the same
-- principal and Service returns at once: the factory is not called, nothing changes, and the second
-- component says that it is not new.
pub find_or_create-again :
    {V W : Type 0} (scope : Scope) (f : Exec W IdentityRecord) (g : Exec V IdentityRecord) (w : W)
    (v : V) (s : IdentityStore) (r : IdentityRecord) (b : Bool)
    → (find_or_create scope f (w, s)).0 ≡ ok (r, b)
    → find_or_create scope g (v, (find_or_create scope f (w, s)).1.1)
      ≡ (ok (r, false), (v, (find_or_create scope f (w, s)).1.1))
unfolding find_or_create
find_or_create-again scope f g w v s r b h =
    elim (Bool-cases (not (nonempty scope.0) || not (nonempty scope.1))) [
      | inl empty ↦ absurd ground arith
      | inr named ↦
          let found : IsFound scope r (entered scope f w (enter scope s)).1.1 =
            entered-Found scope f w (enter scope s) r b (enter-Found scope s) (ground arith) in
          rw
            (
              named,
              ap (entered scope g v)
                  (found_enter scope r (entered scope f w (enter scope s)).1.1 found),
            )
            refl
    ]
