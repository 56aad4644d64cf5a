-- ===== src/Flags/Create/Wizard/Sound.antt =====
-- The sound states of the wizard of CreateFlagModal.tsx, and the kinds of moves between them.
use vexil.Prelude.{
  ◌+◌, ◌-◌, ◌<◌, ◌≤◌, ◌≡◌, refl, ◌∙◌, ◌≢◌, true, false, none, List, [], ◌∷◌, ◌++◌, arith, is_empty,
  ◌==◌, All, All-append, Bool-cases, inl, inr, if◌then◌else◌,
}
use vexil.Text.{Text}
use vexil.Types.{Cluster}
use vexil.Sdk.EnvNames.{IsFlagName}
use vexil.Flags.Mutation.{pending, is_pending}
use vexil.Flags.Create.{Form, CreateRequest, build_request, can_proceed_step1, can_proceed_step2}
use vexil.Flags.Create.Delivery.{can_proceed_step2-Delivers}
use vexil.Flags.Create.Wizard.{Wizard, auto_select, with_clusters, with_form}

-- A request names its flag, namespace and cluster, the flag by a name that the platform takes, and
-- has a delivery.
pub record IsComplete (q : CreateRequest) : Type 0 where
  pub valid_name : IsFlagName q.name
  pub named : q.name ≢ []
  pub placed : q.namespace ≢ []
  pub clustered : q.cluster_id ≢ []
  pub delivered : q.delivery ≢ none

pub record IsSound (w : Wizard) : Type 0 where
  pub in_range : (1 ≤ w.step) × (w.step ≤ 4)
  pub valid_name : IsFlagName w.form.name
  pub defined : 1 < w.step → w.step < 4 → can_proceed_step1 w.form ≡ true
  pub delivered : w.step ≡ 3 → can_proceed_step2 w.form.delivery_method w.form ≡ true
  pub complete : All IsComplete w.sent
  pub asked : is_pending w.mutation ≡ true → w.sent ≢ []
  pub answered : w.step ≡ 4 → w.sent ≢ []

auto_select-name : (cs : List Cluster) (form : Form) → (auto_select cs form).name ≡ form.name
unfolding auto_select
auto_select-name [] form = refl
auto_select-name (c ∷ []) form = ground arith
auto_select-name (c ∷ (d ∷ cs)) form = refl

-- A form that passes the first step has a cluster already.
auto_select_of_defined :
    (cs : List Cluster) (form : Form) → can_proceed_step1 form ≡ true → auto_select cs form ≡ form
unfolding auto_select can_proceed_step1
auto_select_of_defined [] form h = refl
auto_select_of_defined (c ∷ []) form h =
    let chosen : is_empty form.cluster_id ≡ false = ground arith in rw chosen
auto_select_of_defined (c ∷ (d ∷ cs)) form h = refl

nonempty-ne : (s : Text) → is_empty s ≡ false → s ≢ []
nonempty-ne [] h e = cc
nonempty-ne (c ∷ s) h e = cc

build_request-IsComplete :
    (form : Form)
    → IsFlagName form.name
    → can_proceed_step1 form ≡ true
    → can_proceed_step2 form.delivery_method form ≡ true
    → IsComplete (build_request form)
unfolding build_request can_proceed_step1
build_request-IsComplete form n h k =
    let (d, built, _) = can_proceed_step2-Delivers form.delivery_method form k in
    record {
      valid_name = n;
      named = nonempty-ne form.name (ground arith);
      placed = nonempty-ne form.namespace (ground arith);
      clustered = nonempty-ne form.cluster_id (ground arith);
      delivered = λ e. cc (built, e);
    }

snoc-ne-nil {ℓ} : {A : Type ℓ} (xs : List A) (y : A) → xs ++ y ∷ [] ≢ []
snoc-ne-nil [] y e = cc
snoc-ne-nil (x ∷ xs) y e = cc

-- An edit of the first step.
pub defining-IsSound :
    (w : Wizard) (form : Form)
    → IsSound w
    → w.step ≡ 1
    → IsFlagName form.name
    → IsSound (with_form w form)
defining-IsSound w form h s n = record {
  in_range = h.in_range;
  valid_name = rw (auto_select-name w.clusters form) n;
  defined = λ p q. absurd (omega arith);
  delivered = λ p. absurd (omega arith);
  complete = h.complete;
  asked = h.asked;
  answered = h.answered;
}

-- An edit of the second step.
pub delivering-IsSound :
    (w : Wizard) (form : Form)
    → IsSound w
    → w.step ≡ 2
    → form.name ≡ w.form.name
    → can_proceed_step1 form ≡ can_proceed_step1 w.form
    → IsSound (with_form w form)
delivering-IsSound w form h s n k =
    let kept = auto_select_of_defined w.clusters form (k ∙ h.defined (omega arith) (omega arith)) in
    record {
      in_range = h.in_range;
      valid_name = rw (kept, n) h.valid_name;
      defined = λ p q. rw (kept, k) (h.defined p q);
      delivered = λ p. absurd (omega arith);
      complete = h.complete;
      asked = h.asked;
      answered = h.answered;
    }

pub loading-IsSound :
    (cs : List Cluster) (w : Wizard) → IsSound w → IsSound (with_clusters w cs w.form)
loading-IsSound cs w h = record {
  in_range = h.in_range;
  valid_name = rw (auto_select-name cs w.form) h.valid_name;
  defined = λ p q. rw (auto_select_of_defined cs w.form (h.defined p q)) (h.defined p q);
  delivered = λ p.
      rw (auto_select_of_defined cs w.form (h.defined (omega arith) (omega arith))) (h.delivered p);
  complete = h.complete;
  asked = h.asked;
  answered = h.answered;
}

pub listing-IsSound :
    (ns : List Text) (w : Wizard) → IsSound w → IsSound (record w { namespaces = ns })
listing-IsSound ns w h = record {
  in_range = h.in_range;
  valid_name = h.valid_name;
  defined = h.defined;
  delivered = h.delivered;
  complete = h.complete;
  asked = h.asked;
  answered = h.answered;
}

pub next-IsSound :
    (w : Wizard)
    → IsSound w
    → w.step < 3
    → (if w.step == 1
        then can_proceed_step1 w.form
        else can_proceed_step2 w.form.delivery_method w.form)
      ≡ true
    → IsSound (record w { step = w.step + 1 })
next-IsSound w h s o = record {
  in_range = (omega arith, omega (arith, h.in_range));
  valid_name = h.valid_name;
  defined = λ p q. elim (Bool-cases (w.step == 1)) [
    | inl first ↦ rw first at o
    | inr second ↦ h.defined (ground (arith, h.in_range)) (omega arith)
  ];
  delivered = λ p. let second : (w.step == 1) ≡ false = ground arith in rw second at o;
  complete = h.complete;
  asked = h.asked;
  answered = λ p. absurd (omega arith);
}

pub back-IsSound :
    (w : Wizard) → IsSound w → 1 < w.step → w.step ≢ 4 → IsSound (record w { step = w.step - 1 })
back-IsSound w h s o = record {
  in_range = (omega arith, omega (arith, h.in_range));
  valid_name = h.valid_name;
  defined = λ p q. h.defined s (omega (arith, h.in_range));
  delivered = λ p. absurd (omega (arith, h.in_range));
  complete = h.complete;
  asked = h.asked;
  answered = λ p. absurd (omega (arith, h.in_range));
}

pub create-IsSound :
    (w : Wizard)
    → IsSound w
    → 3 ≤ w.step
    → w.step ≢ 4
    → IsSound (record w { mutation = pending; sent = w.sent ++ build_request w.form ∷ [] })
create-IsSound w h s o =
    let three : w.step ≡ 3 = omega (arith, h.in_range) in
    let q =
      build_request-IsComplete w.form h.valid_name (h.defined (omega arith) (omega arith))
        (h.delivered three) in
    record {
      in_range = h.in_range;
      valid_name = h.valid_name;
      defined = h.defined;
      delivered = h.delivered;
      complete = All-append IsComplete w.sent _ h.complete (q, tt);
      asked = λ p. snoc-ne-nil w.sent _;
      answered = λ p. snoc-ne-nil w.sent _;
    }

pub closed-IsSound : (w : Wizard) → IsSound w → IsSound (record w { is_open = false })
closed-IsSound w h = record {
  in_range = h.in_range;
  valid_name = h.valid_name;
  defined = h.defined;
  delivered = h.delivered;
  complete = h.complete;
  asked = h.asked;
  answered = h.answered;
}
