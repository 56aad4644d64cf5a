-- ===== src/Flags/Edit/Editor/Steps.antt =====
-- What always holds of the state of the form of EditFlagModal.tsx, by what it offers.
use vexil.Prelude.{
  ℕ, zero, suc, ◌<◌, ◌≡◌, refl, sym, ◌≢◌, inl, inr, true, false, Option, none, some, List, [], ◌∷◌,
  ◌++◌, arith, length, length-append, modify, remove_at, maybe, if◌then◌else◌, ◌==◌, All,
  All-append, All-modify, Bool-cases,
}
use vexil.Types.{FlagType, TargetingRule, FeatureFlag}
use vexil.Flags.Mutation.{is_pending}
use vexil.Flags.Edit.Editor.{
  Editor, Event, change_form, add_rule, remove_rule, toggle_rule, change_rule, submit, confirm,
  cancel_confirm, update_succeeded, update_failed, RuleChange, name, value, change_condition,
  add_condition, remove_condition, set_condition, set_rule, handle,
}
use vexil.Flags.Edit.Editor.Offers.{
  offers_change, offers, change_rule_found, act, Reach, here, next,
}

-- The expanded rule is there; no confirmation is shown while a request is pending; every rule has
-- a condition.
abbrev InRange : Option ℕ → ℕ → Type 0
InRange none n = Unit
InRange (some i) n = i < n

pub record IsSound (s : Editor) : Type 0 where
  pub in_range : InRange s.expanded (length s.rules)
  pub single : s.show_save_confirm ≡ true → is_pending s.mutation ≡ false
  pub conditional : All (λ r. r.conditions ≢ []) s.heap

remove_at-ne-nil {ℓ} : {A : Type ℓ} (i : ℕ) (xs : List A) → 1 < length xs → remove_at i xs ≢ []
remove_at-ne-nil i [] h e = absurd (omega arith)
remove_at-ne-nil i (x ∷ []) h e = absurd (omega arith)
remove_at-ne-nil zero (x ∷ (y ∷ xs)) h e = cc
remove_at-ne-nil (suc i) (x ∷ (y ∷ xs)) h e = cc

modify-ne-nil {ℓ} : {A : Type ℓ} (f : A → A) (i : ℕ) (xs : List A) → xs ≢ [] → modify f i xs ≢ []
modify-ne-nil f i [] h e = h e
modify-ne-nil f zero (x ∷ xs) h e = cc
modify-ne-nil f (suc i) (x ∷ xs) h e = cc

append-ne-nil {ℓ} : {A : Type ℓ} (xs : List A) (y : A) → xs ++ y ∷ [] ≢ []
append-ne-nil [] y e = cc
append-ne-nil (x ∷ xs) y e = cc

set_rule-conditions :
    (type : FlagType) (ch : RuleChange) (r : TargetingRule)
    → offers_change type r ch ≡ true
    → r.conditions ≢ []
    → (set_rule ch r).conditions ≢ []
unfolding set_rule offers_change
set_rule-conditions type (name t) r o h = h
set_rule-conditions type (value t) r o h = h
set_rule-conditions type (change_condition i ch) r o h =
    modify-ne-nil (set_condition ch) i r.conditions h
set_rule-conditions type add_condition r o h = append-ne-nil r.conditions _
set_rule-conditions type (remove_condition i) r o h = remove_at-ne-nil i r.conditions (ground arith)

toggle-InRange :
    (o : Option ℕ) (i n : ℕ)
    → i < n
    → InRange (maybe o (some i) λ j. if j == i then none else some i) n
toggle-InRange none i n h = h
toggle-InRange (some j) i n h = elim (Bool-cases (j == i)) [
  | inl same ↦ rw same tt
  | inr other ↦ rw other h
]

module _ (flag : FeatureFlag) where
  change_rule-IsSound :
      (i : ℕ) (ch : RuleChange) (s : Editor)
      → offers flag.type s (change_rule i ch) ≡ true
      → IsSound s
      → IsSound (handle flag (change_rule i ch) s)
  unfolding offers handle
  change_rule-IsSound i ch s o h =
      let (a, r, there, object, offered) = change_rule_found flag.type s i ch o in
      rw there (record {
        in_range = h.in_range;
        single = h.single;
        conditional = All-modify _ (set_rule ch) a s.heap h.conditional λ q e k.
            let same : r ≡ q = cc in set_rule-conditions flag.type ch q (rw (sym same) offered) k;
      })

  handle-IsSound :
      (e : Event) (s : Editor) → offers flag.type s e ≡ true → IsSound s → IsSound (handle flag e s)
  unfolding offers handle
  handle-IsSound (change_form ch) s o h = record {
    in_range = h.in_range;
    single = h.single;
    conditional = h.conditional;
  }
  handle-IsSound add_rule s o h = record {
    in_range = omega (arith, length-append s.rules (length s.heap ∷ []));
    single = h.single;
    conditional = All-append _ s.heap _ h.conditional ((λ e. cc), tt);
  }
  handle-IsSound (remove_rule i) s o h = record {
    in_range = tt;
    single = h.single;
    conditional = h.conditional;
  }
  handle-IsSound (toggle_rule i) s o h = record {
    in_range = toggle-InRange s.expanded i (length s.rules) (ground arith);
    single = h.single;
    conditional = h.conditional;
  }
  handle-IsSound (change_rule i ch) s o h = change_rule-IsSound i ch s o h
  handle-IsSound submit s o h = record {
    in_range = h.in_range;
    single = λ e. ground arith;
    conditional = h.conditional;
  }
  handle-IsSound confirm s o h = record {
    in_range = h.in_range;
    single = λ e. cc;
    conditional = h.conditional;
  }
  handle-IsSound cancel_confirm s o h = record {
    in_range = h.in_range;
    single = λ e. cc;
    conditional = h.conditional;
  }
  handle-IsSound update_succeeded s o h = record {
    in_range = h.in_range;
    single = λ e. refl;
    conditional = h.conditional;
  }
  handle-IsSound (update_failed message) s o h = record {
    in_range = h.in_range;
    single = λ e. refl;
    conditional = h.conditional;
  }
  handle-IsSound _ s o h = record {
    in_range = h.in_range;
    single = h.single;
    conditional = h.conditional;
  }

  -- Whatever is clicked and typed, the expanded rule is one of the rules, no second save can be
  -- confirmed while one is pending, and every rule keeps a condition, if this holds at first.
  pub Reach-IsSound_editor : (s t : Editor) → IsSound s → Reach flag s t → IsSound t
  Reach-IsSound_editor s t h here = h
  Reach-IsSound_editor s u h (next {t} r (act e o)) =
      handle-IsSound e t o (Reach-IsSound_editor s t h r)
