-- ===== src/Solvers/Router.antt =====
-- `SolverRouter` of src/mathmodel_ai/solvers/router.py: the adapters by family, the hard filters, the
-- scores and the choice. The texts of the reasons that explain a choice are left out.
pub mod Rank
pub mod Filters
pub mod Found
pub mod Adapters
pub mod Choice
pub mod Total
use math_model_ai.Base.{
  ℕ, ◌+◌, ◌-◌, ◌*◌, String, Bool, true, false, not, ◌&&◌, none, some, List, [], ◌∷◌, length, keep,
  contains, is_empty, leb, ltb, ◌==◌, string_eq, if◌then◌else◌, Raise, ok, raise, ◌>>=◌,
}
use math_model_ai.Base.Int.{ℤ, pos, ◌+ℤ◌, pos_part, neg_part}
use math_model_ai.Base.Sort.{sort_by}
use math_model_ai.Base.Dict
use math_model_ai.Base.Dict.{Dict}
use math_model_ai.Model.{MathematicalModel}
use math_model_ai.Solvers.Types.{
  SolverName, gurobi, SolverFamily, family_eq, SolverFamily-discrete, SolverCapability,
  capability_eq, SolverCapability-discrete, AlgorithmPlan, SolverOptions, ProblemSizeThresholds,
  RejectionReason, not_registered, commercial_disallowed, missing_capabilities, unsupported,
  unavailable, SolverHardRejection, SolverScore, RouterError, duplicate_adapter, no_solver,
  empty_reason, no_adapter, BaseSolver, RoutedSolver,
}
use math_model_ai.Solvers.Policy.{
  size_adjustment, alphabetical, index_of_family, declared_preference_adjustment, preference,
  required_capabilities,
}
use math_model_ai.Solvers.Size.{problem_size, runtime_budget, resolve_options}

abbrev pub is_gurobi : SolverName → Bool
is_gurobi gurobi = true
is_gurobi _ = false

-- `"; ".join(reasons)` is the empty text.
abbrev pub joins_to_nothing : List String → Bool
joins_to_nothing [] = true
joins_to_nothing (s ∷ []) = s == ""
joins_to_nothing (s ∷ t ∷ rest) = false

-- What the hard filters say of one family.
pub data Assessment : Type 0 where
  rejected : RejectionReason → Assessment
  passed : SolverName → Assessment

-- The rejection of an adapter that does not support the model.
abbrev pub reject_unsupported : SolverFamily → List String → Raise RouterError Assessment
reject_unsupported f reasons =
    if joins_to_nothing reasons then raise (empty_reason f) else ok (rejected (unsupported reasons))

-- The order of integers.
abbrev pub int_leb : ℤ → ℤ → Bool
int_leb x y = leb (pos_part x + neg_part y) (pos_part y + neg_part x)

abbrev pub int_ltb : ℤ → ℤ → Bool
int_ltb x y = ltb (pos_part x + neg_part y) (pos_part y + neg_part x)

-- The key of `sorted`: the score from the highest, the place in the preference, the value.
abbrev pub stands_before : ℕ → ℕ → ℕ → ℕ → Bool
stands_before i j x y = if ltb i j then true else if ltb j i then false else leb x y

unfoldable pub ranks_before : List SolverFamily → SolverScore → SolverScore → Bool
unfolding SolverFamily-discrete
ranks_before families a b =
    let next =
      stands_before (index_of_family a.family families) (index_of_family b.family families)
        (alphabetical a.family) (alphabetical b.family) in
    if int_ltb b.score a.score then true else if int_ltb a.score b.score then false else next

abbrev pub is_first : SolverFamily → List SolverFamily → Bool
is_first f [] = false
is_first f (g ∷ gs) = f == g

abbrev pub score_families : List SolverScore → List SolverFamily
score_families [] = []
score_families (s ∷ ss) = s.family ∷ score_families ss

module _ {A : Type 0} where
  -- The loop of `__init__` over the families of one adapter, and over the adapters.
  abbrev pub register_families :
      BaseSolver A
      → List SolverFamily
      → Dict SolverFamily (BaseSolver A)
      → Raise RouterError (Dict SolverFamily (BaseSolver A))
  register_families solver [] known = ok known
  register_families solver (f ∷ fs) known =
      let next = register_families solver fs (Dict.insert f solver known) in
      elim (Dict.lookup f known) [ some _ ↦ raise (duplicate_adapter f) | none ↦ next ]

  abbrev pub register_all :
      List (BaseSolver A)
      → Dict SolverFamily (BaseSolver A)
      → Raise RouterError (Dict SolverFamily (BaseSolver A))
  register_all [] known = ok known
  register_all (s ∷ ss) known = do next ← register_families s s.families known; register_all ss next

  -- `SolverRouter.__init__`
  unfoldable pub new_router :
      List (BaseSolver A) → Raise RouterError (Dict SolverFamily (BaseSolver A))
  unfolding SolverFamily-discrete
  new_router solvers = register_all solvers []

  -- The hard filters of the loop of `route`, for an adapter and for a family.
  unfoldable pub assess_solver :
      MathematicalModel A
      → List SolverCapability
      → SolverFamily
      → BaseSolver A
      → Raise RouterError Assessment
  unfolding SolverCapability-discrete
  assess_solver m required f solver =
      let missing = keep (λ c. not (contains c solver.capabilities)) required in
      let support = solver.assess_support m in
      if not m.solver_requirements.allow_commercial_solver && is_gurobi solver.name
      then ok (rejected commercial_disallowed)
      else if not (is_empty missing)
      then ok (rejected (missing_capabilities missing))
      else if not support.supported
      then reject_unsupported f support.reasons
      else if not solver.health_check.available
      then ok (rejected (unavailable solver.health_check.reason))
      else ok (passed solver.name)

  module _ (by_family : Dict SolverFamily (BaseSolver A)) (thresholds : ProblemSizeThresholds)
      (caps : Dict ℕ ℕ) where
    unfoldable pub assess_family :
        MathematicalModel A → List SolverCapability → SolverFamily → Raise RouterError Assessment
    unfolding assess_solver SolverFamily-discrete
    assess_family m required f = elim (Dict.lookup f by_family) [
      | none ↦ ok (rejected not_registered)
      | some solver ↦ assess_solver m required f solver
    ]

    -- The score of the family at a place of the preference, whose length is `total`.
    unfoldable pub score_of :
        MathematicalModel A → SolverOptions → ℕ → ℕ → SolverFamily → SolverName → ℤ
    unfolding declared_preference_adjustment problem_size ◌+ℤ◌
    score_of m options total index f name =
        let deadline_weight = 1 + (options.deadline_pressure - 2) in
        let configured = (total - index) * 10 * deadline_weight in
        let size = problem_size thresholds m in
        pos configured
        +ℤ size_adjustment name size.classification
        +ℤ pos (declared_preference_adjustment m.solver_requirements f)

    -- What one turn of the loop of `route` adds to what the rest of it finds.
    unfoldable pub add_assessment :
        MathematicalModel A
        → SolverOptions
        → ℕ
        → ℕ
        → SolverFamily
        → Assessment
        → List SolverScore × List SolverHardRejection
        → List SolverScore × List SolverHardRejection
    unfolding score_of
    add_assessment m options total index f (rejected reason) rest =
        (rest.0, record { family = f; reason = reason } ∷ rest.1)
    add_assessment m options total index f (passed name) rest = (
      record { family = f; solver = name; score = score_of m options total index f name } ∷ rest.0,
      rest.1,
    )

    -- The loop of `route` from a place of the preference on.
    unfoldable pub filter_families :
        MathematicalModel A
        → SolverOptions
        → List SolverCapability
        → ℕ
        → ℕ
        → List SolverFamily
        → Raise RouterError (List SolverScore × List SolverHardRejection)
    unfolding assess_family add_assessment
    filter_families m options required total index [] = ok ([], [])
    filter_families m options required total index (f ∷ fs) = do
      assessment ← assess_family m required f
      rest ← filter_families m options required total (index + 1) fs
      ok (add_assessment m options total index f assessment rest)

    -- The decision for an adapter whose score comes first.
    unfoldable pub decide :
        MathematicalModel A
        → SolverOptions
        → List SolverFamily
        → List SolverHardRejection
        → SolverScore
        → List SolverScore
        → BaseSolver A
        → RoutedSolver A
    unfolding problem_size runtime_budget SolverFamily-discrete
    decide m options families rejections s ss solver = record {
      solver = solver;
      decision = record {
        selected_solver = solver.name;
        selected_family = s.family;
        attempted_families = families;
        alternatives = score_families ss;
        scores = s ∷ ss;
        hard_rejections = rejections;
        problem_size = problem_size thresholds m;
        runtime_budget = runtime_budget caps m options;
        fallback_used = not (is_first s.family families);
      };
      options = resolve_options caps m options;
    }

    -- The end of `route`, on the scores in order.
    unfoldable pub select :
        MathematicalModel A
        → SolverOptions
        → List SolverFamily
        → List SolverHardRejection
        → List SolverScore
        → Raise RouterError (RoutedSolver A)
    unfolding decide SolverFamily-discrete
    select m options families rejections [] = raise (no_solver rejections)
    select m options families rejections (s ∷ ss) = elim (Dict.lookup s.family by_family) [
      | none ↦ raise (no_adapter s.family)
      | some solver ↦ ok (decide m options families rejections s ss solver)
    ]

    -- `SolverRouter.route`
    unfoldable pub route :
        MathematicalModel A → AlgorithmPlan → SolverOptions → Raise RouterError (RoutedSolver A)
    unfolding preference required_capabilities filter_families select ranks_before
    route m plan options = do
      families ← preference m.solver_requirements plan
      required ← required_capabilities m.model_family m.solver_requirements
      found ← filter_families m options required (length families) 0 families
      select m options families found.1 (sort_by (ranks_before families) found.0)
