-- ===== src/Platform/Identities/Index.antt =====
-- An index of the identity store agrees with the records, and stays so when a record is added or
-- updated.
use aep_python.Common.{
  String, ◌≡◌, ap, ◌∙◌, inl, inr, none, some, arith, Eq, ◌==◌, nat_eq, string_eq, pair_eq, list_eq,
  ==_iff, eq_of_beq, Bool-cases,
}
use aep_python.Common.Dict.{Dict, get, put, get-put, get-put_self}
use aep_python.Platform.Types.{IdentityRecord}

abbrev Records : Type 0
Records = Dict String IdentityRecord

-- every entry points at a record with its key, and every record is pointed at
pub record Index {K : Type 0} ⦃e : Eq K⦄ (key : IdentityRecord → K) (index : Dict K String)
    (records : Dict String IdentityRecord) : Type 0 where
  pub sound :
      (k : K) (id : String)
      → get k index ≡ some id
      → (r : IdentityRecord) × (get id records ≡ some r) × (key r ≡ k)
  pub complete :
      (id : String) (r : IdentityRecord) → get id records ≡ some r → get (key r) index ≡ some id

module _ {K : Type 0} ⦃e : Eq K⦄ (key : IdentityRecord → K) (index : Dict K String)
    (records : Dict String IdentityRecord) (v : Index key index records) (id : String)
    (r : IdentityRecord) where
  pub add_sound :
      get id records ≡ none
      → (k : K) (j : String) → get k (put (key r) id index) ≡ some j
      → (q : IdentityRecord) × (get j (put id r records) ≡ some q) × (key q ≡ k)
  add_sound free k j h = elim (Bool-cases (key r == k)) [
    | inl same ↦ (
      r,
      ground (arith, get-put (key r) k id index, get-put id j r records, ==_iff id j),
      eq_of_beq (key r) k same,
    )
    | inr other ↦
        let (q, stored, is) = v.sound k j (ground (arith, get-put (key r) k id index)) in
        (q, ground (arith, get-put id j r records, ==_iff id j), is)
  ]

  pub add_complete :
      get id records ≡ none
      → get (key r) index ≡ none
      → (j : String) (q : IdentityRecord) → get j (put id r records) ≡ some q
      → get (key q) (put (key r) id index) ≡ some j
  add_complete free new j q h = elim (Bool-cases (id == j)) [
    | inl same ↦
        let is : r ≡ q = ground (arith, get-put id j r records) in
        rw (← is) (get-put_self (key r) id index ∙ ap some (eq_of_beq id j same))
    | inr other ↦
        let old : get (key q) index ≡ some j =
          v.complete j q (ground (arith, get-put id j r records)) in
        ground (arith, get-put (key r) (key q) id index, ==_iff (key r) (key q))
  ]

  -- a record with an unused identifier and an unused key
  pub add-Index :
      get id records ≡ none
      → get (key r) index ≡ none
      → Index key (put (key r) id index) (put id r records)
  add-Index free new = record { sound = add_sound free; complete = add_complete free new }

  -- a record changed under its identifier, but not in its key
  pub change-Index :
      (old : IdentityRecord)
      → get id records ≡ some old
      → key r ≡ key old
      → Index key index (put id r records)
  change-Index old h same = record {
    sound = λ k j p. change_sound k j p;
    complete = λ j q p. change_complete j q p;
  }
    where
      change_sound :
          (k : K) (j : String)
          → get k index ≡ some j
          → (q : IdentityRecord) × (get j (put id r records) ≡ some q) × (key q ≡ k)
      change_sound k j p = elim (Bool-cases (id == j)) [
        | inl is ↦
            let (q, stored, key_is) = v.sound k j p in
            let here : id ≡ j = eq_of_beq id j is in
            let was : old ≡ q = cc in
            (r, ground (arith, get-put id j r records), same ∙ ap key was ∙ key_is)
        | inr other ↦
            let (q, stored, key_is) = v.sound k j p in
            (q, ground (arith, get-put id j r records), key_is)
      ]

      change_complete :
          (j : String) (q : IdentityRecord)
          → get j (put id r records) ≡ some q
          → get (key q) index ≡ some j
      change_complete j q p = elim (Bool-cases (id == j)) [
        | inl is ↦
            let here : id ≡ j = eq_of_beq id j is in
            let now : r ≡ q = ground (arith, get-put id j r records) in
            let at : get (key old) index ≡ some id = v.complete id old h in
            rw (← now) (rw same (at ∙ ap some here))
        | inr other ↦ v.complete j q (ground (arith, get-put id j r records))
      ]
