-- ===== src/Solvers/Router/Filters.antt =====
-- What the hard filters of `route` let through, in src/mathmodel_ai/solvers/router.py.
use math_model_ai.Base.{
  String, ◌≡◌, refl, sym, subst, Bool, true, false, not, ◌&&◌, List, [], ◌∷◌, Memᴰ, keep, contains,
  contains-mem, is_empty, if◌then◌else◌, arith, Bool-cases, inl, inr, Raise, ok, raise,
}
use math_model_ai.Model.{MathematicalModel}
use math_model_ai.Solvers.Types.{
  SolverName, SolverFamily, SolverCapability, capability_eq, family_eq, RejectionReason,
  RouterError, BaseSolver,
}
use math_model_ai.Solvers.Router.{
  Assessment, rejected, passed, is_gurobi, joins_to_nothing, reject_unsupported, assess_solver,
}

nothing_missing :
    (required have : List SolverCapability)
    → is_empty (keep (λ c. not (contains c have)) required) ≡ true
    → (c : SolverCapability) → Memᴰ c required
    → Memᴰ c have
nothing_missing [] have h c m = elim m [ ]
nothing_missing (r ∷ rs) have h c m = elim (Bool-cases (contains r have)) [
  | inl yes_r ↦ here_or (contains-mem r have yes_r) (nothing_missing rs have (rw yes_r at h) c) m
  | inr no_r ↦ absurd (not_empty (rw no_r at h))
]
  where
    not_empty : false ≡ true → ⊥
    not_empty g = cc

    here_or : Memᴰ r have → (Memᴰ c rs → Memᴰ c have) → Memᴰ c (r ∷ rs) → Memᴰ c have
    here_or first rest (Memᴰ.head e) = subst (λ x. Memᴰ x have) (sym e) first
    here_or first rest (Memᴰ.tail n) = rest n

not_passed :
    (reason : RejectionReason) {n : SolverName}
    → ◌≡◌ {A = Raise RouterError Assessment} (ok (rejected reason)) (ok (passed n))
    → ⊥
not_passed reason h = cc

reject_unsupported-not_passed :
    (f : SolverFamily) (reasons : List String) {n : SolverName}
    → reject_unsupported f reasons ≡ ok (passed n)
    → ⊥
reject_unsupported-not_passed f reasons h = elim (Bool-cases (joins_to_nothing reasons)) [
  | inl nought ↦ not_raised (rw nought at h)
  | inr some_text ↦ not_passed _ (rw some_text at h)
]
  where
    not_raised :
        {n : SolverName}
        → ◌≡◌ {A = Raise RouterError Assessment}
            (raise (RouterError.empty_reason f))
            (ok (passed n))
        → ⊥
    not_raised g = cc

-- A test that refuses, passed.
refusal_passed :
    (test : Bool) {refusal rest : Raise RouterError Assessment} {n : SolverName}
    → (refusal ≡ ok (passed n) → ⊥)
    → (if test then refusal else rest) ≡ ok (passed n)
    → (test ≡ false) × (rest ≡ ok (passed n))
refusal_passed true refuses h = absurd (refuses h)
refusal_passed false refuses h = (refl, h)

module _ {A : Type 0} where
  -- Every demand of the model on an adapter.
  pub record Passes (m : MathematicalModel A) (required : List SolverCapability)
      (solver : BaseSolver A) : Type 0 where
    pub allowed :
        (not m.solver_requirements.allow_commercial_solver && is_gurobi solver.name) ≡ false
    pub capable : (c : SolverCapability) → Memᴰ c required → Memᴰ c solver.capabilities
    pub supports : (solver.assess_support m).supported ≡ true
    pub healthy : solver.health_check.available ≡ true

  pub assess_solver-Passes :
      (m : MathematicalModel A) (required : List SolverCapability) (f : SolverFamily)
      (solver : BaseSolver A) {n : SolverName}
      → assess_solver m required f solver ≡ ok (passed n)
      → Passes m required solver × (n ≡ solver.name)
  unfolding assess_solver
  assess_solver-Passes m required f solver h =
      let (allowed, h1) =
        refusal_passed (not m.solver_requirements.allow_commercial_solver && is_gurobi solver.name)
          (not_passed RejectionReason.commercial_disallowed) h in
      let (missing, h2) =
        refusal_passed (not (is_empty (keep (λ c. not (contains c solver.capabilities)) required)))
          (not_passed (
            RejectionReason.missing_capabilities
              (keep (λ c. not (contains c solver.capabilities)) required)))
          h1 in
      let (supports, h3) =
        refusal_passed (not (solver.assess_support m).supported)
          (reject_unsupported-not_passed f (solver.assess_support m).reasons) h2 in
      let (healthy, h4) =
        refusal_passed (not solver.health_check.available)
          (not_passed (RejectionReason.unavailable solver.health_check.reason)) h3 in
      (
        record {
          allowed = allowed;
          capable = nothing_missing required solver.capabilities (ground arith);
          supports = ground arith;
          healthy = ground arith;
        },
        same_name h4,
      )
    where
      same_name :
          {n k : SolverName}
          → ◌≡◌ {A = Raise RouterError Assessment} (ok (passed k)) (ok (passed n))
          → n ≡ k
      same_name g = cc
