-- ===== src/Platform/Listing/Pages.antt =====
-- The pages of a listing: what is on them, and how they fit together.
use aep_python.Common.{
  ℕ, zero, suc, ◌+◌, ◌*◌, ◌≤◌, String, ◌≡◌, refl, sym, ap, ◌∙◌, inl, inr, Bool, true, List, [], ◌∷◌,
  ◌++◌, arith, nat_eq, string_eq, pair_eq, list_eq, nonempty, Bool-cases, length, select,
}
use aep_python.Common.Exec.{Result, ok}
use mathlib.Core.List.{Perm}
use native.Mathlib.Nat.{zero-add, suc-add, zero-mul, suc-mul, add_comm}
use aep_python.Platform.Types.{IdentityRecord, pos, pos_part, IdentityListQuery, IdentityListResult}
use aep_python.Platform.Identities.{IdentityStore}
use aep_python.Platform.Listing.{
  ordering, drop, take, values, listed, matching, sort_insert, sort_by, list_identities,
}
use aep_python.Platform.Listing.Order.{
  NoneBefore, IsSorted, ordering-IsOrder, sort_by-IsSorted, sort_by_perm,
}

-- every record of the list passes the test
abbrev pub All : (IdentityRecord → Bool) → List IdentityRecord → Type 0
All p [] = Unit
All p (x ∷ xs) = (p x ≡ true) × All p xs

select-All : (p : IdentityRecord → Bool) (xs : List IdentityRecord) → All p (select p xs)
select-All p [] = tt
select-All p (x ∷ xs) = elim (Bool-cases (p x)) [
  | inl h ↦ rw h (h, select-All p xs)
  | inr h ↦ rw h (select-All p xs)
]

insert-All :
    (before : IdentityRecord → IdentityRecord → Bool) (p : IdentityRecord → Bool)
    (x : IdentityRecord) (ys : List IdentityRecord)
    → p x ≡ true
    → All p ys
    → All p (sort_insert before x ys)
unfolding sort_insert
insert-All before p x [] h a = (h, tt)
insert-All before p x (y ∷ ys) h (k, a) = elim (Bool-cases (before y x)) [
  | inl b ↦ rw b (k, insert-All before p x ys h a)
  | inr b ↦ rw b (h, (k, a))
]

sort-All :
    (before : IdentityRecord → IdentityRecord → Bool) (p : IdentityRecord → Bool)
    (xs : List IdentityRecord)
    → All p xs
    → All p (sort_by before xs)
unfolding sort_by
sort-All before p [] a = tt
sort-All before p (x ∷ xs) (h, a) =
    insert-All before p x (sort_by before xs) h (sort-All before p xs a)

module _ (p : IdentityRecord → Bool) where
  take-All : (n : ℕ) (xs : List IdentityRecord) → All p xs → All p (take n xs)
  take-All zero xs a = tt
  take-All (suc n) [] a = tt
  take-All (suc n) (x ∷ xs) (h, a) = (h, take-All n xs a)

  drop-All : (n : ℕ) (xs : List IdentityRecord) → All p xs → All p (drop n xs)
  drop-All zero xs a = a
  drop-All (suc n) [] a = tt
  drop-All (suc n) (x ∷ xs) (h, a) = drop-All n xs a

module _ (before : IdentityRecord → IdentityRecord → Bool) where
  take-NoneBefore :
      (x : IdentityRecord) (n : ℕ) (ys : List IdentityRecord)
      → NoneBefore before x ys
      → NoneBefore before x (take n ys)
  take-NoneBefore x zero ys h = tt
  take-NoneBefore x (suc n) [] h = tt
  take-NoneBefore x (suc n) (y ∷ ys) (h, k) = (h, take-NoneBefore x n ys k)

  take-IsSorted :
      (n : ℕ) (xs : List IdentityRecord) → IsSorted before xs → IsSorted before (take n xs)
  take-IsSorted zero xs s = tt
  take-IsSorted (suc n) [] s = tt
  take-IsSorted (suc n) (x ∷ xs) (h, s) = (take-NoneBefore x n xs h, take-IsSorted n xs s)

  drop-IsSorted :
      (n : ℕ) (xs : List IdentityRecord) → IsSorted before xs → IsSorted before (drop n xs)
  drop-IsSorted zero xs s = s
  drop-IsSorted (suc n) [] s = tt
  drop-IsSorted (suc n) (x ∷ xs) (h, s) = drop-IsSorted n xs s

module _ {A : Type 0} where
  take_bound : (n : ℕ) (xs : List A) → length (take n xs) ≤ n
  take_bound zero xs = omega arith
  take_bound (suc n) [] = omega arith
  take_bound (suc n) (x ∷ xs) = omega (arith, take_bound n xs)

  take-le : (n : ℕ) (xs : List A) → length (take n xs) ≤ length xs
  take-le zero xs = omega arith
  take-le (suc n) [] = omega arith
  take-le (suc n) (x ∷ xs) = omega (arith, take-le n xs)

  drop-le : (n : ℕ) (xs : List A) → length (drop n xs) ≤ length xs
  drop-le zero xs = omega arith
  drop-le (suc n) [] = omega arith
  drop-le (suc n) (x ∷ xs) = omega (arith, drop-le n xs)

  take-nil : (n : ℕ) → take {A = A} n [] ≡ []
  take-nil zero = refl
  take-nil (suc n) = refl

  drop-nil : (n : ℕ) → drop {A = A} n [] ≡ []
  drop-nil zero = refl
  drop-nil (suc n) = refl

  take-append : (a b : ℕ) (xs : List A) → take a xs ++ take b (drop a xs) ≡ take (a + b) xs
  take-append zero b xs = rw zero-add
  take-append (suc a) b [] = rw (take-nil b, take-nil (suc a + b))
  take-append (suc a) b (x ∷ xs) = rw (suc-add, take-append a b xs)

  drop-drop : (a b : ℕ) (xs : List A) → drop b (drop a xs) ≡ drop (a + b) xs
  drop-drop zero b xs = rw zero-add
  drop-drop (suc a) b [] = rw (drop-nil b, drop-nil (suc a + b))
  drop-drop (suc a) b (x ∷ xs) = rw (suc-add, drop-drop a b xs)

-- the query with another page
abbrev pub paged : IdentityListQuery → ℕ → ℕ → IdentityListQuery
paged q offset limit = record q { offset = pos offset; limit = pos limit }

paged-matching :
    (principal : String) (q : IdentityListQuery) (offset limit : ℕ) (s : IdentityStore)
    → matching principal (paged q offset limit) s ≡ matching principal q s
unfolding matching listed
paged-matching principal q offset limit s = refl

list_page :
    (principal : String) (q : IdentityListQuery) (offset limit : ℕ) (s : IdentityStore)
    → nonempty principal ≡ true
    → list_identities principal (paged q offset limit) s
      ≡ ok (record {
        identities = take limit (drop offset (matching principal q s));
        total = length (matching principal q s);
      })
unfolding list_identities
list_page principal q offset limit s h = ground (arith, paged-matching principal q offset limit s)

-- the records of a page that was returned
abbrev pub identities_of : Result IdentityListResult → List IdentityRecord
identities_of (ok x) = x.identities
identities_of _ = []

-- what a caller has who asks for `n` pages of this length, from the given offset on
abbrev pub paged_through :
    String → IdentityListQuery → ℕ → ℕ → ℕ → IdentityStore → List IdentityRecord
paged_through principal q limit zero offset s = []
paged_through principal q limit (suc n) offset s =
    identities_of (list_identities principal (paged q offset limit) s)
    ++ paged_through principal q limit n (offset + limit) s

paged_through-take :
    (principal : String) (q : IdentityListQuery) (limit n offset : ℕ) (s : IdentityStore)
    → nonempty principal ≡ true
    → paged_through principal q limit n offset s
      ≡ take (n * limit) (drop offset (matching principal q s))
paged_through-take principal q limit zero offset s h = rw zero-mul refl
paged_through-take principal q limit (suc n) offset s h =
    let l : List IdentityRecord = matching principal q s in
    let page : identities_of (list_identities principal (paged q offset limit) s)
        ≡ take limit (drop offset l) =
      ap identities_of (list_page principal q offset limit s h) in
    let rest : paged_through principal q limit n (offset + limit) s
        ≡ take (n * limit) (drop limit (drop offset l)) =
      paged_through-take principal q limit n (offset + limit) s h
      ∙ sym (ap (take (n * limit)) (drop-drop offset limit l)) in
    let size : limit + n * limit ≡ suc n * limit =
      add_comm limit (n * limit) ∙ sym (suc-mul n limit) in
    rw page (
      rw rest
        (take-append limit (n * limit) (drop offset l) ∙ ap (λ k. take k (drop offset l)) size))

take_all : {A : Type 0} (n : ℕ) (xs : List A) → length xs ≤ n → take n xs ≡ xs
take_all zero [] h = refl
take_all zero (x ∷ xs) h = absurd omega (arith, h)
take_all (suc n) [] h = refl
take_all (suc n) (x ∷ xs) h = ap (λ ys. x ∷ ys) (take_all n xs (omega (arith, h)))

total_is :
    (principal : String) (q : IdentityListQuery) (s : IdentityStore) (x : IdentityListResult)
    → list_identities principal q s ≡ ok x
    → x.total ≡ length (matching principal q s)
unfolding list_identities
total_is principal q s x h = ground arith

-- A caller who pages from 0 with any page length, until the pages hold at least the total that a
-- page of the same query names, has together exactly the stored records of this principal that pass
-- the filters, each as often as it is stored, and all of them in the order of the query.
pub paging_complete :
    (principal : String) (q : IdentityListQuery) (limit n offset : ℕ) (s : IdentityStore)
    (x : IdentityListResult)
    → nonempty principal ≡ true
    → list_identities principal (paged q offset limit) s ≡ ok x
    → x.total ≤ n * limit
    → Perm (paged_through principal q limit n 0 s) (select (listed principal q) (values s.records))
      × IsSorted (ordering q.descending) (paged_through principal q limit n 0 s)
unfolding matching
paging_complete principal q limit n offset s x named h enough =
    let total : x.total ≡ length (matching principal q s) =
      total_is principal (paged q offset limit) s x h
      ∙ ap length (paged-matching principal q offset limit s) in
    let all : paged_through principal q limit n 0 s ≡ matching principal q s =
      paged_through-take principal q limit n 0 s named
      ∙ take_all (n * limit) (matching principal q s) (rw (← total) enough) in
    rw all (
      sort_by_perm (ordering q.descending) (select (listed principal q) (values s.records)),
      sort_by-IsSorted (ordering q.descending) (ordering-IsOrder q.descending)
          (select (listed principal q) (values s.records)),
    )

list_is :
    (principal : String) (q : IdentityListQuery) (s : IdentityStore) (x : IdentityListResult)
    → list_identities principal q s ≡ ok x
    → x ≡ record {
      identities = take (pos_part q.limit) (drop (pos_part q.offset) (matching principal q s));
      total = length (matching principal q s);
    }
unfolding list_identities
list_is principal q s x h = ground arith

-- What a page holds: at most `limit` of the records of this principal that pass the filters, in the
-- order of the query; and the records that it is taken from are all of these, each as often as it
-- is stored, and as many as the total says.
pub list_sound :
    (principal : String) (q : IdentityListQuery) (s : IdentityStore) (x : IdentityListResult)
    → list_identities principal q s ≡ ok x
    → (All (listed principal q) x.identities)
      × (IsSorted (ordering q.descending) x.identities)
      × (length x.identities ≤ pos_part q.limit)
      × (length x.identities ≤ x.total)
      × ((l : List IdentityRecord) × (Perm l (select (listed principal q) (values s.records)))
          × (length l ≡ x.total)
          × (x.identities ≡ take (pos_part q.limit) (drop (pos_part q.offset) l)))
unfolding matching
list_sound principal q s x h =
    let l = matching principal q s in
    let is = list_is principal q s x h in
    let rest = drop (pos_part q.offset) l in
    let all : All (listed principal q) l =
      sort-All (ordering q.descending) (listed principal q)
        (select (listed principal q) (values s.records))
        (select-All (listed principal q) (values s.records)) in
    let sorted : IsSorted (ordering q.descending) l =
      sort_by-IsSorted (ordering q.descending) (ordering-IsOrder q.descending)
        (select (listed principal q) (values s.records)) in
    rw is (
      take-All (listed principal q) (pos_part q.limit) rest
          (drop-All (listed principal q) (pos_part q.offset) l all),
      take-IsSorted (ordering q.descending) (pos_part q.limit) rest
          (drop-IsSorted (ordering q.descending) (pos_part q.offset) l sorted),
      take_bound (pos_part q.limit) rest,
      omega (arith, take-le (pos_part q.limit) rest, drop-le (pos_part q.offset) l),
      (
        l,
        sort_by_perm (ordering q.descending) (select (listed principal q) (values s.records)),
        refl,
        refl,
      ),
    )
