-- ===== src/Flags/Edit/Editor/Shared.antt =====
-- Rule objects in a heap, and the addresses that stand for a list of rules.
use vexil.Prelude.{
  ℕ, zero, suc, ◌<◌, ◌≡◌, refl, ap, ◌∙◌, subst, ◌≢◌, none, some, List, [], ◌∷◌, ◌++◌, arith, length,
  get_elem?, modify, remove_at, traverse, All,
}
use vexil.Types.{TargetingRule}

-- The addresses stand for these rules in this heap.
abbrev pub Represents : List TargetingRule → List ℕ → List TargetingRule → Type 0
Represents heap [] [] = Unit
Represents heap (a ∷ refs) (r ∷ rs) = (get_elem? heap a ≡ some r) × Represents heap refs rs
Represents heap _ _ = ⊥

-- No address stands twice.
abbrev pub Distinct : List ℕ → Type 0
Distinct [] = Unit
Distinct (a ∷ refs) = All (λ b. b ≢ a) refs × Distinct refs

module _ {A : Type 0} where
  get_elem?-modify_self :
      (f : A → A) (i : ℕ) (xs : List A) {x : A}
      → get_elem? xs i ≡ some x
      → get_elem? (modify f i xs) i ≡ some (f x)
  get_elem?-modify_self f i [] h = cc
  get_elem?-modify_self f zero (y ∷ xs) h = cc
  get_elem?-modify_self f (suc i) (y ∷ xs) h = get_elem?-modify_self f i xs h

  get_elem?-modify_ne :
      (f : A → A) (i j : ℕ) (xs : List A) → j ≢ i → get_elem? (modify f i xs) j ≡ get_elem? xs j
  get_elem?-modify_ne f i j [] h = refl
  get_elem?-modify_ne f zero zero (y ∷ xs) h = absurd (h refl)
  get_elem?-modify_ne f zero (suc j) (y ∷ xs) h = refl
  get_elem?-modify_ne f (suc i) zero (y ∷ xs) h = refl
  get_elem?-modify_ne f (suc i) (suc j) (y ∷ xs) h =
      get_elem?-modify_ne f i j xs (λ e. h (ap suc e))

  pub get_elem?-append :
      (xs ys : List A) (i : ℕ) {x : A} → get_elem? xs i ≡ some x → get_elem? (xs ++ ys) i ≡ some x
  get_elem?-append [] ys i h = cc
  get_elem?-append (y ∷ xs) ys zero h = h
  get_elem?-append (y ∷ xs) ys (suc i) h = get_elem?-append xs ys i h

  get_elem?-length : (xs : List A) (x : A) → get_elem? (xs ++ x ∷ []) (length xs) ≡ some x
  get_elem?-length [] x = refl
  get_elem?-length (y ∷ xs) x = get_elem?-length xs x

  pub get_elem?-lt : (xs : List A) (i : ℕ) {x : A} → get_elem? xs i ≡ some x → i < length xs
  get_elem?-lt [] i h = cc
  get_elem?-lt (y ∷ xs) zero h = omega arith
  get_elem?-lt (y ∷ xs) (suc i) h = omega (arith, get_elem?-lt xs i h)

-- A write to an object that is not listed changes nothing that the addresses stand for.
Represents-modify_ne :
    (f : TargetingRule → TargetingRule) (a : ℕ) (heap : List TargetingRule) (refs : List ℕ)
    (rs : List TargetingRule)
    → All (λ b. b ≢ a) refs
    → Represents heap refs rs
    → Represents (modify f a heap) refs rs
Represents-modify_ne f a heap [] [] n h = tt
Represents-modify_ne f a heap [] (r ∷ rs) n h = h
Represents-modify_ne f a heap (b ∷ refs) [] n h = h
Represents-modify_ne f a heap (b ∷ refs) (r ∷ rs) n h =
    (get_elem?-modify_ne f a b heap n.0 ∙ h.0, Represents-modify_ne f a heap refs rs n.1 h.1)

-- A write to the object behind an index is the change at that index.
pub Represents-modify :
    (f : TargetingRule → TargetingRule) (i a : ℕ) (heap : List TargetingRule) (refs : List ℕ)
    (rs : List TargetingRule)
    → Distinct refs
    → get_elem? refs i ≡ some a
    → Represents heap refs rs
    → Represents (modify f a heap) refs (modify f i rs)
Represents-modify f i a heap [] rs d e h = cc
Represents-modify f i a heap (b ∷ refs) [] d e h = absurd h
Represents-modify f zero a heap (b ∷ refs) (r ∷ rs) d e h =
    let same : b ≡ a = cc in
    let others : All (λ c. c ≢ a) refs = subst (λ x. All (λ c. c ≢ x) refs) same d.0 in
    (
      rw same (get_elem?-modify_self f a heap (rw (← same) h.0)),
      Represents-modify_ne f a heap refs rs others h.1,
    )
Represents-modify f (suc i) a heap (b ∷ refs) (r ∷ rs) d e h = (
  get_elem?-modify_ne f a b heap (ne_of_get i refs b d.0 e) ∙ h.0,
  Represents-modify f i a heap refs rs d.1 e h.1,
)
  where
    ne_of_get :
        (i : ℕ) (refs : List ℕ) (b : ℕ) → All (λ c. c ≢ b) refs → get_elem? refs i ≡ some a → b ≢ a
    ne_of_get i [] b n e = cc
    ne_of_get zero (c ∷ refs) b n e = (λ same. n.0 (cc))
    ne_of_get (suc i) (c ∷ refs) b n e = ne_of_get i refs b n.1 e

-- An index out of range, in the two views.
pub modify-none :
    (f : TargetingRule → TargetingRule) (i : ℕ) (heap : List TargetingRule) (refs : List ℕ)
    (rs : List TargetingRule)
    → get_elem? refs i ≡ none
    → Represents heap refs rs
    → modify f i rs ≡ rs
modify-none f i heap [] [] e h = refl
modify-none f i heap [] (r ∷ rs) e h = absurd h
modify-none f i heap (a ∷ refs) [] e h = refl
modify-none f zero heap (a ∷ refs) (r ∷ rs) e h = cc
modify-none f (suc i) heap (a ∷ refs) (r ∷ rs) e h =
    ap (λ t. r ∷ t) (modify-none f i heap refs rs e h.1)

pub Represents-alloc :
    (heap : List TargetingRule) (refs : List ℕ) (rs : List TargetingRule) (r : TargetingRule)
    → Represents heap refs rs
    → Represents (heap ++ r ∷ []) (refs ++ length heap ∷ []) (rs ++ r ∷ [])
Represents-alloc heap [] [] r h = (get_elem?-length heap r, tt)
Represents-alloc heap [] (q ∷ rs) r h = absurd h
Represents-alloc heap (a ∷ refs) [] r h = absurd h
Represents-alloc heap (a ∷ refs) (q ∷ rs) r h =
    (get_elem?-append heap (r ∷ []) a h.0, Represents-alloc heap refs rs r h.1)

pub Represents-remove_at :
    (i : ℕ) (heap : List TargetingRule) (refs : List ℕ) (rs : List TargetingRule)
    → Represents heap refs rs
    → Represents heap (remove_at i refs) (remove_at i rs)
Represents-remove_at i heap [] [] h = tt
Represents-remove_at i heap [] (r ∷ rs) h = absurd h
Represents-remove_at i heap (a ∷ refs) [] h = absurd h
Represents-remove_at zero heap (a ∷ refs) (r ∷ rs) h = h.1
Represents-remove_at (suc i) heap (a ∷ refs) (r ∷ rs) h =
    (h.0, Represents-remove_at i heap refs rs h.1)

pub Represents-length :
    (heap : List TargetingRule) (refs : List ℕ) (rs : List TargetingRule)
    → Represents heap refs rs
    → length refs ≡ length rs
Represents-length heap [] [] h = refl
Represents-length heap [] (r ∷ rs) h = absurd h
Represents-length heap (a ∷ refs) [] h = absurd h
Represents-length heap (a ∷ refs) (r ∷ rs) h = ap suc (Represents-length heap refs rs h.1)

pub Represents-read_rules :
    (heap : List TargetingRule) (refs : List ℕ) (rs : List TargetingRule)
    → Represents heap refs rs
    → traverse (get_elem? heap) refs ≡ some rs
Represents-read_rules heap [] [] h = refl
Represents-read_rules heap [] (r ∷ rs) h = absurd h
Represents-read_rules heap (a ∷ refs) [] h = absurd h
Represents-read_rules heap (a ∷ refs) (r ∷ rs) h = rw (h.0, Represents-read_rules heap refs rs h.1)

Represents-lt :
    (heap : List TargetingRule) (refs : List ℕ) (rs : List TargetingRule)
    → Represents heap refs rs
    → All (λ a. a < length heap) refs
Represents-lt heap [] rs h = tt
Represents-lt heap (a ∷ refs) [] h = absurd h
Represents-lt heap (a ∷ refs) (r ∷ rs) h = (get_elem?-lt heap a h.0, Represents-lt heap refs rs h.1)

All-snoc : (P : ℕ → Type 0) (xs : List ℕ) (x : ℕ) → All P xs → P x → All P (xs ++ x ∷ [])
All-snoc P [] x h p = (p, tt)
All-snoc P (y ∷ xs) x h p = (h.0, All-snoc P xs x h.1 p)

Distinct-snoc :
    (n : ℕ) (refs : List ℕ) → All (λ a. a < n) refs → Distinct refs → Distinct (refs ++ n ∷ [])
Distinct-snoc n [] b d = (tt, tt)
Distinct-snoc n (a ∷ refs) b d =
    (All-snoc (λ c. c ≢ a) refs n d.0 (omega arith), Distinct-snoc n refs b.1 d.1)

pub Distinct-alloc :
    (heap : List TargetingRule) (refs : List ℕ) (rs : List TargetingRule)
    → Represents heap refs rs
    → Distinct refs
    → Distinct (refs ++ length heap ∷ [])
Distinct-alloc heap refs rs h = Distinct-snoc (length heap) refs (Represents-lt heap refs rs h)

All-remove_at : (P : ℕ → Type 0) (i : ℕ) (xs : List ℕ) → All P xs → All P (remove_at i xs)
All-remove_at P i [] h = tt
All-remove_at P zero (x ∷ xs) h = h.1
All-remove_at P (suc i) (x ∷ xs) h = (h.0, All-remove_at P i xs h.1)

pub Distinct-remove_at : (i : ℕ) (refs : List ℕ) → Distinct refs → Distinct (remove_at i refs)
Distinct-remove_at i [] d = tt
Distinct-remove_at zero (a ∷ refs) d = d.1
Distinct-remove_at (suc i) (a ∷ refs) d =
    (All-remove_at (λ b. b ≢ a) i refs d.0, Distinct-remove_at i refs d.1)
