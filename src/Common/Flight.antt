-- ===== src/Common/Flight.antt =====
-- Tasks that share a dictionary of pending events: who owns which key. A task owns a key from the
-- moment it enters the key until it pops it.
use aep_python.Common.{
  ℕ, ◌≡◌, sym, ◌∙◌, Option, none, some, arith, Eq, ◌==◌, nat_eq, string_eq, pair_eq, ==_iff,
  if◌then◌else◌,
}
use aep_python.Common.Dict.{
  Dict, get, put, remove, IsDict, get-put, get-remove, put-IsDict, remove-IsDict,
}

abbrev pub Pending {ℓ} : Type ℓ → Type ℓ
Pending K = Dict K (Unit {0})

-- the state of one task replaced
abbrev pub set_task {ℓ} : {A : Type ℓ} → ℕ → A → (ℕ → A) → ℕ → A
set_task i a f j = if i == j then a else f j

module _ {ℓ} {K : Type ℓ} ⦃e : Eq K⦄ where
  -- `owns i` is the key that task `i` has pending, if any
  pub record Owned (pending : Pending K) (owns : ℕ → Option K) : Type ℓ where
    pub distinct : IsDict pending
    pub unique : (i j : ℕ) (k : K) → owns i ≡ some k → owns j ≡ some k → i ≡ j
    pub held : (i : ℕ) (k : K) → owns i ≡ some k → get k pending ≡ some tt

  pub claim-Owned :
      (pending : Pending K) (owns : ℕ → Option K) (i : ℕ) (k : K)
      → Owned pending owns
      → get k pending ≡ none
      → Owned (put k tt pending) (set_task i (some k) owns)
  claim-Owned pending owns i k o free = record {
    distinct = put-IsDict k tt pending o.distinct;
    unique = λ a b j p q. ground (
      arith,
      o.unique a b j,
      o.held a k,
      o.held b k,
      o.held a j,
      o.held b j,
      ==_iff i a,
      ==_iff i b,
    );
    held = λ a j p. ground (arith, o.held a j, get-put k j tt pending, ==_iff k j, ==_iff i a);
  }

  pub release-Owned :
      (pending : Pending K) (owns : ℕ → Option K) (i : ℕ) (k : K)
      → Owned pending owns
      → owns i ≡ some k
      → Owned (remove k pending) (set_task i none owns)
  release-Owned pending owns i k o mine = record {
    distinct = remove-IsDict k pending o.distinct;
    unique = λ a b j p q. ground (arith, o.unique a b j, ==_iff i a, ==_iff i b);
    held = λ a j p. ground (
      arith,
      o.held a j,
      o.unique i a j,
      get-remove k j pending o.distinct,
      ==_iff k j,
      ==_iff i a,
    );
  }

  -- only what the tasks own matters
  pub Owned-ext :
      (pending : Pending K) (owns owns' : ℕ → Option K)
      → ((i : ℕ) → owns' i ≡ owns i)
      → Owned pending owns
      → Owned pending owns'
  Owned-ext pending owns owns' same o = record {
    distinct = o.distinct;
    unique = λ a b j p q. o.unique a b j (sym (same a) ∙ p) (sym (same b) ∙ q);
    held = λ a j p. o.held a j (sym (same a) ∙ p);
  }

-- the same for tasks with a state, of which `owner` is the key that it owns
module _ {ℓ κ} {K : Type ℓ} {T : Type κ} ⦃e : Eq K⦄ (owner : T → Option K) where
  pub keep_task :
      (pending : Pending K) (tasks : ℕ → T) (i : ℕ) (t : T)
      → owner (tasks i) ≡ owner t
      → Owned pending (λ j. owner (tasks j))
      → Owned pending (λ j. owner (set_task i t tasks j))
  keep_task pending tasks i t same o = Owned-ext pending _ _ (λ j. ground (arith, ==_iff i j)) o

  pub claim_task :
      (pending : Pending K) (tasks : ℕ → T) (i : ℕ) (t : T) (k : K)
      → owner t ≡ some k
      → get k pending ≡ none
      → Owned pending (λ j. owner (tasks j))
      → Owned (put k tt pending) (λ j. owner (set_task i t tasks j))
  claim_task pending tasks i t k takes free o =
      Owned-ext (put k tt pending) (set_task i (some k) (λ j. owner (tasks j))) _
        (λ j. ground (arith, ==_iff i j)) (claim-Owned pending (λ j. owner (tasks j)) i k o free)

  pub release_task :
      (pending : Pending K) (tasks : ℕ → T) (i : ℕ) (t : T) (k : K)
      → owner (tasks i) ≡ some k
      → owner t ≡ none
      → Owned pending (λ j. owner (tasks j))
      → Owned (remove k pending) (λ j. owner (set_task i t tasks j))
  release_task pending tasks i t k had gone o =
      Owned-ext (remove k pending) (set_task i none (λ j. owner (tasks j))) _
        (λ j. ground (arith, ==_iff i j)) (release-Owned pending (λ j. owner (tasks j)) i k o had)
