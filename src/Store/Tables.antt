-- ===== src/Store/Tables.antt =====
-- The laws of reading and writing rows by their keys.
use mathlib.Core.Option
use bsnexus.Domain.{
  deliverable_status_eq, deliverable_type_eq, proof_aspect_status_eq, proof_aspect_type_eq,
  proof_state_eq, request_status_eq, run_attempt_phase_eq, run_attempt_status_eq,
  work_plan_status_eq, work_step_status_eq,
}
use bsnexus.Prelude.{
  List, [], arith, if◌then◌else◌, int_eq, length, nat_eq, option_eq, refl, some, string_eq, true, ℕ,
  ◌==◌, ◌∷◌, ◌≡◌, ◌≢◌,
}
use bsnexus.Store.{
  HasId, decision_has_id, deliverable_has_id, get, project_has_id, request_has_id,
  run_attempt_has_id, update, work_step_has_id,
}

nat_beq_self : (k : ℕ) → (k == k) ≡ true
nat_beq_self k = ground arith

module _ {A : Type 0} ⦃h : HasId A⦄ where
  -- A write that keeps the row's key is read back, and rows of other keys read as before.
  pub get-update :
      (k j : ℕ) (f : A → A) (rs : List A)
      → ((r : A) → h.id_of (f r) ≡ h.id_of r)
      → get j (update k f rs) ≡ (if k == j then Option.map f (get j rs) else get j rs)
  unfolding get update
  get-update k j f [] keeps = ground arith
  get-update k j f (r ∷ rs) keeps = ground (arith, get-update k j f rs keeps, keeps r)

  pub length-update : (k : ℕ) (f : A → A) (rs : List A) → length (update k f rs) ≡ length rs
  unfolding update
  length-update k f [] = refl
  length-update k f (r ∷ rs) = ground (arith, length-update k f rs)

  pub get-id : (k : ℕ) (rs : List A) (r : A) → get k rs ≡ some r → h.id_of r ≡ k
  unfolding get
  get-id k [] s e = cc
  get-id k (r ∷ rs) s e = ground (arith, get-id k rs s)

  pub get-update_found :
      (k : ℕ) (f : A → A) (rs : List A) (r : A)
      → ((x : A) → h.id_of (f x) ≡ h.id_of x)
      → get k rs ≡ some r
      → get k (update k f rs) ≡ some (f r)
  get-update_found k f rs r keeps e = rw (get-update k k f rs keeps, nat_beq_self k, e)

  pub get-update_ne :
      (k j : ℕ) (f : A → A) (rs : List A)
      → ((x : A) → h.id_of (f x) ≡ h.id_of x)
      → k ≢ j
      → get j (update k f rs) ≡ get j rs
  get-update_ne k j f rs keeps n = rw (get-update k j f rs keeps) (ground (arith, n))

  -- the object with this key in the place of its row
  pub get-replace :
      (k j : ℕ) (b : A) (rs : List A)
      → h.id_of b ≡ k
      → get j (update k (λ _. b) rs) ≡ (if k == j then Option.map (λ _. b) (get j rs) else get j rs)
  unfolding get update
  get-replace k j b [] e = ground arith
  get-replace k j b (r ∷ rs) e = ground (arith, get-replace k j b rs e, e)
