-- ===== src/Core/Http/Paths/Base.antt =====
-- What `normalize_endpoint_base` of core/http.py gives.
use aep_python.Common.{
  ℕ, ◌≡◌, refl, ap, ◌∙◌, ◌⊎◌, inl, inr, Bool, true, false, ◌||◌, List, [], ◌∷◌, ◌++◌, arith, ◌==◌,
  nat_eq, string_eq, pair_eq, list_eq, member, beq_refl, Bool-cases, any,
}
use aep_python.Common.Exec.{ok}
use aep_python.Common.Text.{Text}
use aep_python.Core.Http.Paths.{
  split, dots, rooted, is_endpoint_path, ends_with, normalize_endpoint_base,
}

any-append :
    {A : Type 0} (p : A → Bool) (xs ys : List A) → any p (xs ++ ys) ≡ (any p xs || any p ys)
any-append p [] ys = refl
any-append p (x ∷ xs) ys = ground (arith, any-append p xs ys)

-- a text has a first part
split_first : (sep : ℕ) (t : Text) → (p : Text) × (ps : List Text) × (split sep t ≡ p ∷ ps)
unfolding split
split_first sep [] = ([], [], refl)
split_first sep (c ∷ t) =
    let (p, ps, e) = split_first sep t in
    elim (Bool-cases (c == sep)) [
      | inl h ↦ ([], split sep t, ground arith)
      | inr h ↦ (c ∷ p, ps, ground arith)
    ]

split-append : (sep : ℕ) (t : Text) → split sep (t ++ (sep ∷ [])) ≡ split sep t ++ ([] ∷ [])
unfolding split
split-append sep [] = ground (arith, beq_refl sep)
split-append sep (c ∷ t) =
    let (p, ps, e) = split_first sep t in
    let rest : split sep (t ++ (sep ∷ [])) ≡ p ∷ (ps ++ ([] ∷ [])) =
      split-append sep t ∙ ap (λ z. z ++ ([] ∷ [])) e in
    elim (Bool-cases (c == sep)) [ inl h ↦ rw (h, rest, e) refl | inr h ↦ rw (h, rest, e) refl ]

ends-append : (sep : ℕ) (t : Text) → ends_with sep (t ++ (sep ∷ [])) ≡ true
ends-append sep [] = beq_refl sep
ends-append sep (x ∷ []) = beq_refl sep
ends-append sep (x ∷ y ∷ t) = ends-append sep (y ∷ t)

rooted-append :
    (t : Text) → rooted t ≡ true → ends_with b'/' t ≡ false → rooted (t ++ (b'/' ∷ [])) ≡ true
rooted-append [] h n = absurd ground arith
rooted-append (a ∷ []) h n = absurd ground arith
rooted-append (a ∷ b ∷ t) h n = h

endpoint-append :
    (t : Text)
    → is_endpoint_path t ≡ true
    → ends_with b'/' t ≡ false
    → is_endpoint_path (t ++ (b'/' ∷ [])) ≡ true
unfolding is_endpoint_path
endpoint-append t h n =
    let root : rooted (t ++ (b'/' ∷ [])) ≡ true = rooted-append t (ground arith) n in
    let question : member b'?' (t ++ (b'/' ∷ [])) ≡ false =
      any-append (λ x. x == b'?') t (b'/' ∷ []) ∙ ground arith in
    let hash : member b'#' (t ++ (b'/' ∷ [])) ≡ false =
      any-append (λ x. x == b'#') t (b'/' ∷ []) ∙ ground arith in
    let parts : any dots (split b'/' (t ++ (b'/' ∷ []))) ≡ false =
      ap (any dots) (split-append b'/' t)
      ∙ any-append dots (split b'/' t) ([] ∷ [])
      ∙ ground arith in
    ground (arith, root, question, hash, parts)

-- A base that `normalize_endpoint_base` gives is an origin-relative absolute path that ends in a
-- slash: the given one, or the given one and a slash; and it is its own normal form.
pub normalize_endpoint_base-Normal :
    (t b : Text)
    → normalize_endpoint_base t ≡ ok b
    → (is_endpoint_path b ≡ true)
      × (ends_with b'/' b ≡ true)
      × ((b ≡ t) ⊎ (b ≡ t ++ (b'/' ∷ [])))
      × (normalize_endpoint_base b ≡ ok b)
unfolding normalize_endpoint_base
normalize_endpoint_base-Normal t b h = elim (Bool-cases (ends_with b'/' t)) [
  | inl e ↦
      let path : is_endpoint_path t ≡ true = ground arith in
      let is : b ≡ t = ground arith in rw is (path, e, inl refl, rw (path, e) refl)
  | inr e ↦
      let path : is_endpoint_path t ≡ true = ground arith in
      let is : b ≡ t ++ (b'/' ∷ []) = ground arith in
      let new_path : is_endpoint_path (t ++ (b'/' ∷ [])) ≡ true = endpoint-append t path e in
      let slash : ends_with b'/' (t ++ (b'/' ∷ [])) ≡ true = ends-append b'/' t in
      rw is (new_path, slash, inr refl, rw (new_path, slash) refl)
]
