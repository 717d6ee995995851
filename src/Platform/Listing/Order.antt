-- ===== src/Platform/Listing/Order.antt =====
-- The order of a listing: sorting puts every record behind those that come before it, and loses none.
use aep_python.Common.{
  ◌≡◌, refl, inl, inr, Bool, true, false, List, [], ◌∷◌, arith, nat_eq, string_eq, pair_eq, list_eq,
  Bool-cases,
}
use mathlib.Core.List.{Perm}
use mathlib.Core.List.Perm
use aep_python.Common.Text.{Text, codes}
use aep_python.Platform.Types.{IdentityRecord}
use aep_python.Platform.Listing.{text_lt, earlier, sort_insert, sort_by, ordering}

text_lt_asymm : (s t : Text) → text_lt s t ≡ true → text_lt t s ≡ false
unfolding text_lt
text_lt_asymm [] [] h = cc
text_lt_asymm [] (d ∷ t) h = refl
text_lt_asymm (c ∷ s) [] h = cc
text_lt_asymm (c ∷ s) (d ∷ t) h = ground (arith, text_lt_asymm s t)

text_lt_trans : (s t u : Text) → text_lt s t ≡ false → text_lt t u ≡ false → text_lt s u ≡ false
unfolding text_lt
text_lt_trans [] [] [] h k = refl
text_lt_trans [] [] (e ∷ u) h k = cc
text_lt_trans [] (d ∷ t) u h k = cc
text_lt_trans (c ∷ s) [] [] h k = refl
text_lt_trans (c ∷ s) [] (e ∷ u) h k = cc
text_lt_trans (c ∷ s) (d ∷ t) [] h k = refl
text_lt_trans (c ∷ s) (d ∷ t) (e ∷ u) h k = ground (arith, text_lt_trans s t u)

-- what sorting needs of a comparison
pub record IsOrder {A : Type 0} (before : A → A → Bool) : Type 0 where
  pub asymm : (a b : A) → before a b ≡ true → before b a ≡ false
  pub negtrans : (a b c : A) → before a b ≡ false → before b c ≡ false → before a c ≡ false

earlier-IsOrder : IsOrder earlier
unfolding earlier
earlier-IsOrder = record {
  asymm = λ a b h.
      ground (arith, text_lt_asymm (codes a.agent_identity_id) (codes b.agent_identity_id));
  negtrans = λ a b c h k. ground (
    arith,
    text_lt_trans (codes a.agent_identity_id) (codes b.agent_identity_id)
        (codes c.agent_identity_id),
  );
}

pub ordering-IsOrder : (descending : Bool) → IsOrder (ordering descending)
ordering-IsOrder false = earlier-IsOrder
ordering-IsOrder true = record {
  asymm = λ a b h. earlier-IsOrder.asymm b a h;
  negtrans = λ a b c h k. earlier-IsOrder.negtrans c b a k h;
}

module _ (before : IdentityRecord → IdentityRecord → Bool) where
  -- none of the list comes before the record
  abbrev pub NoneBefore : IdentityRecord → List IdentityRecord → Type 0
  NoneBefore x [] = Unit
  NoneBefore x (y ∷ ys) = (before y x ≡ false) × NoneBefore x ys

  abbrev pub IsSorted : List IdentityRecord → Type 0
  IsSorted [] = Unit
  IsSorted (x ∷ xs) = NoneBefore x xs × IsSorted xs

  module _ (o : IsOrder before) where
    NoneBefore-trans :
        (x y : IdentityRecord) (ys : List IdentityRecord)
        → before y x ≡ false
        → NoneBefore y ys
        → NoneBefore x ys
    NoneBefore-trans x y [] h n = tt
    NoneBefore-trans x y (z ∷ zs) h (first, n) =
        (o.negtrans z y x first h, NoneBefore-trans x y zs h n)

    insert-NoneBefore :
        (x y : IdentityRecord) (ys : List IdentityRecord)
        → before x y ≡ false
        → NoneBefore y ys
        → NoneBefore y (sort_insert before x ys)
    unfolding sort_insert
    insert-NoneBefore x y [] h n = (h, tt)
    insert-NoneBefore x y (z ∷ zs) h (first, n) = elim (Bool-cases (before z x)) [
      | inl b ↦ rw b (first, insert-NoneBefore x y zs h n)
      | inr b ↦ rw b (h, (first, n))
    ]

    insert-IsSorted :
        (x : IdentityRecord) (ys : List IdentityRecord)
        → IsSorted ys
        → IsSorted (sort_insert before x ys)
    unfolding sort_insert
    insert-IsSorted x [] s = (tt, tt)
    insert-IsSorted x (y ∷ ys) (n, s) = elim (Bool-cases (before y x)) [
      | inl b ↦ rw b (insert-NoneBefore x y ys (o.asymm y x b) n, insert-IsSorted x ys s)
      | inr b ↦ rw b ((b, NoneBefore-trans x y ys b n), (n, s))
    ]

    pub sort_by-IsSorted : (xs : List IdentityRecord) → IsSorted (sort_by before xs)
    unfolding sort_by
    sort_by-IsSorted [] = tt
    sort_by-IsSorted (x ∷ xs) = insert-IsSorted x (sort_by before xs) (sort_by-IsSorted xs)

  insert_perm :
      (x : IdentityRecord) (ys : List IdentityRecord) → Perm (sort_insert before x ys) (x ∷ ys)
  unfolding sort_insert
  insert_perm x [] = Perm.refl (x ∷ [])
  insert_perm x (y ∷ ys) = elim (Bool-cases (before y x)) [
    | inl b ↦ rw b (Perm.trans (Perm.cons y (insert_perm x ys)) (Perm.swap x y ys))
    | inr b ↦ rw b (Perm.refl (x ∷ y ∷ ys))
  ]

  pub sort_by_perm : (xs : List IdentityRecord) → Perm (sort_by before xs) xs
  unfolding sort_by
  sort_by_perm [] = Perm.refl []
  sort_by_perm (x ∷ xs) =
      Perm.trans (insert_perm x (sort_by before xs)) (Perm.cons x (sort_by_perm xs))
