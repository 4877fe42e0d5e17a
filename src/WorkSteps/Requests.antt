-- ===== src/WorkSteps/Requests.antt =====
-- `transition_request` of core/work_steps.py: the status it leaves, and what it leaves alone.
use mathlib.Core.Option
use bsnexus.Domain.{
  RequestStatus, deliverable_status_eq, deliverable_type_eq, proof_aspect_status_eq,
  proof_aspect_type_eq, proof_state_eq, request_status_eq, run_attempt_phase_eq,
  run_attempt_status_eq, work_plan_status_eq, work_step_status_eq,
}
use bsnexus.Effects.{ok}
use bsnexus.GitOps.Branch.{GitEnv, Pull}
use bsnexus.GitOps.Effect.{IsStamped, open-IsStamped}
use bsnexus.GitOps.PullRequest.{open_request_pr, stamp}
use bsnexus.Models.{Request}
use bsnexus.Prelude.{
  Bool, Bool-cases, List, Option, String, ap, arith, false, if◌then◌else◌, inl, inr, int_eq, nat_eq,
  none, not, option_eq, refl, some, string_eq, true, ℕ, ◌&&◌, ◌==◌, ◌||◌, ◌∙◌, ◌≡◌,
}
use bsnexus.StateMachines.{can_transition_request}
use bsnexus.Store.{
  Store, decision_has_id, deliverable_has_id, get, project_has_id, request_has_id,
  run_attempt_has_id, update, work_step_has_id,
}
use bsnexus.Store.Tables.{get-update}
use bsnexus.WorkSteps.Defs.{
  commit_request, is_bound, move_request, pr_hook, request_has_verified_deliverable_proof,
  set_request_status, transition_request,
}

abbrev pub status_of : ℕ → List Request → Option RequestStatus
status_of k rs = Option.map (λ r. r.status) (get k rs)

-- all tables but `requests` are the same
pub record SameElsewhere (s t : Store) : Type 0 where
  pub projects : t.projects ≡ s.projects
  pub plans : t.plans ≡ s.plans
  pub steps : t.steps ≡ s.steps
  pub attempts : t.attempts ≡ s.attempts
  pub deliverables : t.deliverables ≡ s.deliverables
  pub decisions : t.decisions ≡ s.decisions
  pub aspects : t.aspects ≡ s.aspects

stamp_status :
    (i k : ℕ) (pr : Pull) (rs : List Request)
    → status_of k (update i (stamp pr) rs) ≡ status_of k rs
stamp_status i k pr rs =
    ap (Option.map (λ (r : Request). r.status)) (get-update i k (stamp pr) rs (λ x. refl))
    ∙ cases (i == k) (get k rs)
  where
    cases :
        (b : Bool) (o : Option Request)
        → Option.map (λ (r : Request). r.status) (if b then Option.map (stamp pr) o else o)
          ≡ Option.map (λ (r : Request). r.status) o
    cases true none = refl
    cases true (some r) = refl
    cases false o = refl

set_status :
    (k j : ℕ) (target : RequestStatus) (rs : List Request)
    → status_of j (update k (set_request_status target) rs)
      ≡ (if k == j then Option.map (λ _. target) (get j rs) else status_of j rs)
set_status k j target rs =
    ap (Option.map (λ (r : Request). r.status))
      (get-update k j (set_request_status target) rs (λ x. refl))
    ∙ cases (k == j) (get j rs)
  where
    cases :
        (b : Bool) (o : Option Request)
        → Option.map
            (λ (r : Request). r.status)
            (if b then Option.map (set_request_status target) o else o)
          ≡ (if b then Option.map (λ _. target) o else Option.map (λ (r : Request). r.status) o)
    cases true none = refl
    cases true (some r) = refl
    cases false o = refl

SameElsewhere-refl : (s : Store) → SameElsewhere s s
SameElsewhere-refl s = ground arith

stamped_status :
    (r : Request) (s t : Store) (k : ℕ)
    → IsStamped r s t
    → (status_of k t.requests ≡ status_of k s.requests) × SameElsewhere s t
stamped_status r s t k (inl e) = rw e (refl, SameElsewhere-refl s)
stamped_status r s t k (inr (pr, e)) = rw e (stamp_status r.id k pr s.requests, ground arith)

module _ (lower : String → String) (env : GitEnv) where
  hook_status :
      (r : Request) (s : Store) (k : ℕ)
      → (status_of k (pr_hook lower env r s).1.requests ≡ status_of k s.requests)
        × SameElsewhere s (pr_hook lower env r s).1
  unfolding pr_hook
  hook_status r s k = elim (Bool-cases (is_bound (get r.project_id s.projects))) [
    | inl h ↦
        rw (h, pr_hook)
          (stamped_status r s (open_request_pr lower env r s).1 k (open-IsStamped lower env r s))
    | inr h ↦ rw (h, pr_hook) (refl, SameElsewhere-refl s)
  ]

  -- the guards of `transition_request`
  abbrev pub may_move : ℕ → RequestStatus → RequestStatus → Store → Bool
  may_move k current target s =
      can_transition_request current target
      && (not (target == RequestStatus.shipped)
          || request_has_verified_deliverable_proof k s.deliverables)

  commit_status :
      (k j : ℕ) (target : RequestStatus) (r : Request) (s : Store)
      → let t = (commit_request lower env k target r s).1 in
        (status_of j t.requests ≡ (
          if k == j then Option.map (λ _. target) (get j s.requests) else status_of j s.requests))
        × SameElsewhere s t
  unfolding commit_request
  commit_status k j target r s = elim (Bool-cases (target == RequestStatus.shipped)) [
    | inl h ↦
        let s' = record s { requests = update k (set_request_status target) s.requests } in
        let hook = hook_status (set_request_status target r) s' j in
        rw (h, commit_request) (hook.0 ∙ set_status k j target s.requests, ground (arith, hook.1))
    | inr h ↦ rw (h, commit_request) (set_status k j target s.requests, ground arith)
  ]

  moves :
      (k : ℕ) (target : RequestStatus) (r : Request) (s : Store)
      → may_move k r.status target s ≡ true
      → move_request lower env k target r s ≡ commit_request lower env k target r s
  unfolding move_request
  moves k target r s h = ground arith

  stays :
      (k : ℕ) (target : RequestStatus) (r : Request) (s : Store)
      → may_move k r.status target s ≡ false
      → (move_request lower env k target r s).1 ≡ s
  unfolding move_request
  stays k target r s h = ground arith

  move_status :
      (k j : ℕ) (target : RequestStatus) (r : Request) (s : Store)
      → get k s.requests ≡ some r
      → let t = (move_request lower env k target r s).1 in
        (status_of j t.requests ≡ (
          if k == j && may_move k r.status target s then some target else status_of j s.requests))
        × SameElsewhere s t
  move_status k j target r s e = elim (Bool-cases (may_move k r.status target s)) [
    | inl h ↦
        let c = commit_status k j target r s in
        rw (moves k target r s h, h) (c.0 ∙ at_row (k == j) (λ b. (nat_eq.beq_iff k j).0 b), c.1)
    | inr h ↦ rw (stays k target r s h, h) (ground arith, SameElsewhere-refl s)
  ]
    where
      at_row :
          (b : Bool)
          → (b ≡ true → k ≡ j)
          → (if b then Option.map (λ _. target) (get j s.requests) else status_of j s.requests)
            ≡ (if b && true then some target else status_of j s.requests)
      at_row true q = rw (← q refl, e)
      at_row false q = refl

  -- Whatever GitHub replies: a request that exists gets the target status exactly when the table allows it and,
  -- for `shipped`, the proof gate is open; else its status stays. No other request's status and no
  -- other table changes.
  pub transition_request_exact :
      (k j : ℕ) (target : RequestStatus) (s : Store) (r : Request)
      → get k s.requests ≡ some r
      → let t = (transition_request lower env k target s).1 in
        (status_of j t.requests ≡ (
          if k == j && may_move k r.status target s then some target else status_of j s.requests))
        × SameElsewhere s t
  unfolding transition_request
  transition_request_exact k j target s r e =
      rw (e, transition_request) (move_status k j target r s e)

  pub request_moves :
      (k : ℕ) (target : RequestStatus) (s : Store) (r : Request)
      → get k s.requests ≡ some r
      → can_transition_request r.status target ≡ true
      → (target == RequestStatus.shipped) ≡ false
      → transition_request lower env k target s
        ≡ (ok tt, record s { requests = update k (set_request_status target) s.requests })
  unfolding transition_request move_request commit_request
  request_moves k target s r e c h = rw (e, transition_request) (rw (c, h) refl)
