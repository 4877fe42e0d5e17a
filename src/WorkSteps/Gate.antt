-- ===== src/WorkSteps/Gate.antt =====
-- The gate of `shipped`, `_request_has_verified_deliverable_proof` of core/work_steps.py, against the
-- statement that it is meant to decide: no loop over rows in an order, only the rows.
use bsnexus.Domain.{
  deliverable_status_eq, deliverable_type_eq, proof_aspect_status_eq, proof_aspect_type_eq,
  proof_state_eq, request_status_eq, run_attempt_phase_eq, run_attempt_status_eq,
  work_plan_status_eq, work_step_status_eq,
}
use bsnexus.Models.{Deliverable}
use bsnexus.Prelude.{
  All, Bool, Bool-cases, Chain, List, Option, [], all, all-order_by, any, any-order_by, ap, arith,
  false, filter, filter-Chain, fun_ext, inl, inr, length, length-order_by, nat_beq, nat_eq, none,
  not, option_eq, order_by, order_by-Chain, refl, some, string_eq, true, ℕ, ◌&&◌, ◌==◌, ◌||◌, ◌∙◌,
  ◌∷◌, ◌≡◌,
}
use bsnexus.Store.{
  decision_has_id, deliverable_has_id, project_has_id, request_has_id, run_attempt_has_id,
  work_step_has_id,
}
use bsnexus.WorkSteps.Defs.{
  deliverable_before, erase_step, is_verified, latest_per_step,
  request_has_verified_deliverable_proof,
}

abbrev same_step : Deliverable → Deliverable → Bool
same_step d x = x.work_step_id == d.work_step_id

-- `d` is superseded among the rows: one of its step's deliverables comes after it
abbrev pub is_superseded : List Deliverable → Deliverable → Bool
is_superseded rows d = any (λ x. same_step d x && deliverable_before d x) rows

abbrev differs : Deliverable → Deliverable → Bool
differs a b = not (a.id == b.id)

-- no two rows have one primary key
abbrev pub IdsDiffer : List Deliverable → Type 0
IdsDiffer rows = Chain differs rows

-- the rows are taken in order, so a later one of the same step supersedes
abbrev all_latest : List Deliverable → Bool
all_latest [] = true
all_latest (d ∷ ds) = (any (same_step d) ds || is_verified d) && all_latest ds

abbrev kept_verified : List Deliverable → Deliverable → Bool
kept_verified ds d = any (same_step d) ds || is_verified d

step_eq_sym : (a b : Option ℕ) → (a == b) ≡ (b == a)
step_eq_sym none none = refl
step_eq_sym none (some b) = refl
step_eq_sym (some a) none = refl
step_eq_sym (some a) (some b) = ground arith

all-erase :
    (d : Deliverable) (ds acc : List Deliverable)
    → all (kept_verified ds) (erase_step d.work_step_id acc) ≡ all (kept_verified (d ∷ ds)) acc
unfolding erase_step
all-erase d ds [] = refl
all-erase d ds (x ∷ acc) = elim (Bool-cases (x.work_step_id == d.work_step_id)) [
  | inl h ↦ rw (step_eq_sym d.work_step_id x.work_step_id) (rw h (all-erase d ds acc))
  | inr h ↦
      rw (step_eq_sym d.work_step_id x.work_step_id)
        (rw h (ap (λ r. kept_verified ds x && r) (all-erase d ds acc)))
]

all_kept_none : (acc : List Deliverable) → all is_verified acc ≡ all (kept_verified []) acc
all_kept_none [] = refl
all_kept_none (d ∷ acc) = ap (λ r. is_verified d && r) (all_kept_none acc)

regroup_and : (a b c : Bool) → ((a && b) && c) ≡ (b && (a && c))
regroup_and a b c = ground arith

-- The dict's values are all verified just when each row that no later row of its step follows is.
latest_per_step_lem :
    (acc ds : List Deliverable)
    → all is_verified (latest_per_step acc ds) ≡ (all (kept_verified ds) acc && all_latest ds)
unfolding latest_per_step
latest_per_step_lem acc [] = all_kept_none acc ∙ ground arith
latest_per_step_lem acc (d ∷ ds) =
    latest_per_step_lem (d ∷ erase_step d.work_step_id acc) ds
    ∙ rw (all-erase d ds acc)
        (regroup_and (kept_verified ds d) (all (kept_verified (d ∷ ds)) acc) (all_latest ds))

before_trans :
    (x y z : Deliverable)
    → deliverable_before x y ≡ true
    → deliverable_before y z ≡ true
    → deliverable_before x z ≡ true
before_trans x y z h k = ground arith

before_total :
    (x y : Deliverable)
    → differs x y ≡ true
    → deliverable_before x y ≡ false
    → deliverable_before y x ≡ true
before_total x y h k = ground arith

differs_sym : (x y : Deliverable) → differs x y ≡ true → differs y x ≡ true
differs_sym x y h = ground arith

superseded_later :
    (d : Deliverable) (ds : List Deliverable)
    → All (λ y. deliverable_before d y ≡ true) ds
    → is_superseded ds d ≡ any (same_step d) ds
superseded_later d [] h = refl
superseded_later d (x ∷ ds) h = ground (arith, superseded_later d ds h.1, h.0)

not_superseded_by_earlier :
    (d : Deliverable) (ds rows : List Deliverable)
    → All (λ y. deliverable_before d y ≡ true) ds
    → all (λ x. is_superseded (d ∷ rows) x || is_verified x) ds
      ≡ all (λ x. is_superseded rows x || is_verified x) ds
not_superseded_by_earlier d [] rows h = refl
not_superseded_by_earlier d (x ∷ ds) rows h =
    ground (arith, not_superseded_by_earlier d ds rows h.1, h.0)

all_latest_sorted :
    (ds : List Deliverable)
    → Chain deliverable_before ds
    → all_latest ds ≡ all (λ d. is_superseded ds d || is_verified d) ds
all_latest_sorted [] c = refl
all_latest_sorted (d ∷ ds) c = ground (
  arith,
  all_latest_sorted ds c.1,
  superseded_later d ds c.0,
  not_superseded_by_earlier d ds ds c.0,
)

is_superseded-order_by :
    (rows : List Deliverable)
    → is_superseded (order_by deliverable_before rows) ≡ is_superseded rows
is_superseded-order_by rows =
    fun_ext λ d. any-order_by deliverable_before (λ x. same_step d x && deliverable_before d x) rows

-- The gate opens exactly when the request has a deliverable and each of its deliverables is verified
-- or superseded by a later one (by creation time, then id) of the same step; a stale failure does not
-- hold it shut and a stale success does not open it. The rows may stand in any order, with distinct
-- ids.
pub gate_exact :
    (request : ℕ) (rows : List Deliverable)
    → IdsDiffer rows
    → let own = filter (λ d. d.request_id == some request) rows in
      request_has_verified_deliverable_proof request rows
      ≡ (not (nat_beq (length own) 0) && all (λ d. is_superseded own d || is_verified d) own)
unfolding request_has_verified_deliverable_proof
gate_exact request rows ids =
    let own = filter (λ d. d.request_id == some request) rows in
    let sorted = order_by deliverable_before own in
    rw (length-order_by deliverable_before own) (
      ap (λ r. not (nat_beq (length own) 0) && r)
        (latest_per_step_lem [] sorted
          ∙ all_latest_sorted sorted (
              order_by-Chain deliverable_before differs before_trans before_total differs_sym own
                (filter-Chain differs (λ d. d.request_id == some request) rows ids))
          ∙ ap (λ (f : Deliverable → Bool). all (λ d. f d || is_verified d) sorted)
              (is_superseded-order_by own)
          ∙ (all-order_by deliverable_before (λ d. is_superseded own d || is_verified d) own)))
