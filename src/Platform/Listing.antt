-- ===== src/Platform/Listing.antt =====
-- `list` of the identity store of platform/stores.py: the records that match, in order, and a page of
-- them.
pub mod Order
pub mod Pages
use aep_python.Common.{
  ℕ, zero, suc, String, Bool, true, false, not, ◌&&◌, ◌||◌, Option, none, some, List, [], ◌∷◌, map,
  Eq, ◌==◌, nat_eq, string_eq, pair_eq, list_eq, nonempty, ltb, if◌then◌else◌, length, select,
}
use aep_python.Common.Exec.{value_error, Result, ok, raised}
use aep_python.Common.Dict.{Dict}
use aep_python.Common.Text.{Text, codes}
use aep_python.Platform.Types.{
  managed_eq, IdentityRecord, is_negative, pos_part, IdentityListQuery, IdentityListResult,
}
use aep_python.Platform.Identities.{IdentityStore}

-- `a < b` of texts, by code points
unfoldable pub text_lt : Text → Text → Bool
text_lt [] [] = false
text_lt [] (d ∷ t) = true
text_lt (c ∷ s) [] = false
text_lt (c ∷ s) (d ∷ t) = let rest = text_lt s t in if c == d then rest else ltb c d

-- `<` of the keys `(record.created_at, record.agent_identity_id)`
unfoldable pub earlier : IdentityRecord → IdentityRecord → Bool
earlier a b =
    if a.created_at.micros == b.created_at.micros
    then text_lt (codes a.agent_identity_id) (codes b.agent_identity_id)
    else ltb a.created_at.micros b.created_at.micros

-- `sort` keeps the order of records whose keys are equal, with `reverse` too
unfoldable pub sort_insert :
    (IdentityRecord → IdentityRecord → Bool)
    → IdentityRecord
    → List IdentityRecord
    → List IdentityRecord
sort_insert before x [] = x ∷ []
sort_insert before x (y ∷ ys) =
    let rest = sort_insert before x ys in if before y x then y ∷ rest else x ∷ y ∷ ys

unfoldable pub sort_by :
    (IdentityRecord → IdentityRecord → Bool) → List IdentityRecord → List IdentityRecord
sort_by before [] = []
sort_by before (x ∷ xs) = sort_insert before x (sort_by before xs)

-- the comparison that `reverse` asks for
abbrev pub ordering : Bool → IdentityRecord → IdentityRecord → Bool
ordering true a b = earlier b a
ordering false a b = earlier a b

-- `xs[n:]`
abbrev pub drop {ℓ} : {A : Type ℓ} → ℕ → List A → List A
drop zero xs = xs
drop (suc n) [] = []
drop (suc n) (x ∷ xs) = drop n xs

-- `xs[:n]`
abbrev pub take {ℓ} : {A : Type ℓ} → ℕ → List A → List A
take zero xs = []
take (suc n) [] = []
take (suc n) (x ∷ xs) = x ∷ take n xs

-- `a is None or b == a`
abbrev pub agrees : {A : Type 0} ⦃e : Eq A⦄ → Option A → A → Bool
agrees none b = true
agrees (some a) b = b == a

-- the record belongs to the principal and passes the filters
unfoldable pub listed : String → IdentityListQuery → IdentityRecord → Bool
listed principal q r =
    r.principal == principal && (agrees q.service_did r.service_did && agrees q.status r.status)

abbrev pub values {ℓ κ} : {K : Type ℓ} {V : Type κ} → Dict K V → List V
values = map (λ e. e.1)

-- the records that match, in the order of the query
unfoldable pub matching : String → IdentityListQuery → IdentityStore → List IdentityRecord
matching principal q s =
    sort_by (ordering q.descending) (select (listed principal q) (values s.records))

unfoldable pub list_identities :
    String → IdentityListQuery → IdentityStore → Result IdentityListResult
list_identities principal q s =
    if not (nonempty principal) || (is_negative q.limit || is_negative q.offset)
    then raised (value_error "AEP Platform identity list query is invalid")
    else let records = matching principal q s in
      ok (record {
        identities = take (pos_part q.limit) (drop (pos_part q.offset) records);
        total = length records;
      })
