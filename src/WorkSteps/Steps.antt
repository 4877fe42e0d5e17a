-- ===== src/WorkSteps/Steps.antt =====
-- `transition_work_step` of core/work_steps.py over any sequence of calls on one step.
use bsnexus.Domain.{
  WorkStepStatus, deliverable_status_eq, deliverable_type_eq, proof_aspect_status_eq,
  proof_aspect_type_eq, proof_state_eq, request_status_eq, run_attempt_phase_eq,
  run_attempt_status_eq, work_plan_status_eq, work_step_status_eq,
}
use bsnexus.Effects.{Result, err, greenfield_state, illegal_step, ok}
use bsnexus.Models.{WorkStep}
use bsnexus.Prelude.{
  Bool-cases, List, [], ap, arith, false, if◌then◌else◌, inl, inr, int_eq, nat_eq, option_eq, refl,
  some, string_eq, suc, true, ℕ, ◌+◌, ◌==◌, ◌∙◌, ◌∷◌, ◌≡◌, ◌≢◌,
}
use bsnexus.StateMachines.{can_transition_work_step}
use bsnexus.StateMachines.Paths.{PathBy, here, hop}
use bsnexus.Store.{
  Store, decision_has_id, deliverable_has_id, get, project_has_id, request_has_id,
  run_attempt_has_id, update, work_step_has_id,
}
use bsnexus.Store.Tables.{get-update_found, get-update_ne}
use bsnexus.WorkSteps.Defs.{move_step, moved_step, transition_work_step}

-- the calls in turn; a refused one raises and leaves the store
unfoldable pub try_steps : ℕ → List WorkStepStatus → Store → Store
try_steps k [] s = s
try_steps k (target ∷ ts) s = try_steps k ts (transition_work_step k target s).1

-- how often a step that is `current` starts to run, if the targets are tried in turn
abbrev pub starts : WorkStepStatus → List WorkStepStatus → ℕ
starts current [] = 0
starts current (target ∷ ts) =
    if can_transition_work_step current target
    then (if target == WorkStepStatus.running then suc (starts target ts) else starts target ts)
    else starts current ts

-- what the calls leave of the step `w`
abbrev pub IsTrace : ℕ → WorkStep → List WorkStepStatus → Store → Type 0
IsTrace k w ts t =
    (v : WorkStep) × (get k t.steps ≡ some v)
    × PathBy can_transition_work_step w.status v.status
    × (v.attempt_count ≡ w.attempt_count + starts w.status ts)

pub transition_moves :
    (k : ℕ) (target : WorkStepStatus) (s : Store) (w : WorkStep)
    → get k s.steps ≡ some w
    → can_transition_work_step w.status target ≡ true
    → transition_work_step k target s
      ≡ (ok tt, record s { steps = update k (moved_step target) s.steps })
unfolding transition_work_step move_step
transition_moves k target s w e c = rw (e, transition_work_step) (rw (c, move_step))

pub transition_refused :
    (k : ℕ) (target : WorkStepStatus) (s : Store) (w : WorkStep)
    → get k s.steps ≡ some w
    → can_transition_work_step w.status target ≡ false
    → transition_work_step k target s ≡ (err (greenfield_state (illegal_step w.status target)), s)
unfolding transition_work_step move_step
transition_refused k target s w e c = rw (e, transition_work_step) (rw (c, move_step))

pub moved_read :
    (k : ℕ) (target : WorkStepStatus) (s : Store) (w : WorkStep)
    → get k s.steps ≡ some w
    → get k (update k (moved_step target) s.steps) ≡ some (moved_step target w)
unfolding moved_step
moved_read k target s w e = get-update_found k (moved_step target) s.steps w (λ x. refl) e

pub elsewhere_moved :
    (k j : ℕ) (target : WorkStepStatus) (steps : List WorkStep)
    → k ≢ j
    → get j (update k (moved_step target) steps) ≡ get j steps
unfolding moved_step
elsewhere_moved k j target steps other =
    get-update_ne k j (moved_step target) steps (λ x. refl) other

pub moved_status : (target : WorkStepStatus) (w : WorkStep) → (moved_step target w).status ≡ target
unfolding moved_step
moved_status target w = refl

-- Over any sequence of transition calls on an existing step the step's status follows an allowed path, and its attempt
-- count grows by one for each time it starts to run, and by nothing else.
pub step_history :
    (k : ℕ) (ts : List WorkStepStatus) (s : Store) (w : WorkStep)
    → get k s.steps ≡ some w
    → IsTrace k w ts (try_steps k ts s)
unfolding try_steps moved_step
step_history k [] s w e = (w, e, here, omega arith)
step_history k (target ∷ ts) s w e = elim (Bool-cases (can_transition_work_step w.status target)) [
  | inl c ↦
      let s' = record s { steps = update k (moved_step target) s.steps } in
      let (v, row, path, n) =
        step_history k ts s' (moved_step target w) (moved_read k target s w e) in
      (
        v,
        ap (λ (t : Result (Unit {0}) × Store). get k (try_steps k ts t.1).steps)
              (transition_moves k target s w e c)
            ∙ row,
        hop target c path,
        rw c (ground (arith, n)),
      )
  | inr c ↦
      let (v, row, path, n) = step_history k ts s w e in
      (
        v,
        ap (λ (t : Result (Unit {0}) × Store). get k (try_steps k ts t.1).steps)
              (transition_refused k target s w e c)
            ∙ row,
        path,
        rw c n,
      )
]
