-- ===== src/Solvers/Policy.antt =====
-- `_SIZE_ADJUSTMENT`, `_preference`, `_declared_preference_adjustment` and `_required_capabilities` of
-- src/mathmodel_ai/solvers/router.py.
use math_model_ai.Base.{
  ℕ, ◌+◌, ◌-◌, ◌*◌, String, Bool, true, false, Option, none, some, List, [], ◌∷◌, ◌++◌, length,
  contains, unique_from, ◌==◌, string_eq, if◌then◌else◌, Raise, ok, raise, ◌>>=◌,
}
use math_model_ai.Base.Int.{ℤ, pos, negsuc}
use math_model_ai.Model.{ModelFamily, SolverRequirements}
use math_model_ai.Solvers.Types.{
  SolverName, scipy, gurobi, ortools, SolverFamily, scipy_highs, scipy_milp, scipy_minimize,
  gurobi_family, ortools_cp_sat, family_eq, SolverFamily-discrete, SolverCapability, lp, milp,
  integer, nlp, binary, continuous, multiobjective, capability_eq, ProblemSizeClass, tiny, small,
  medium, large, AlgorithmPlan, RouterError, unknown_family, unknown_capability,
}

-- `_SIZE_ADJUSTMENT`
abbrev pub size_adjustment : SolverName → ProblemSizeClass → ℤ
size_adjustment scipy tiny = pos 8
size_adjustment scipy small = pos 4
size_adjustment scipy medium = pos 0
size_adjustment scipy large = negsuc 9
size_adjustment ortools tiny = pos 6
size_adjustment ortools small = pos 4
size_adjustment ortools medium = pos 1
size_adjustment ortools large = negsuc 4
size_adjustment gurobi tiny = pos 0
size_adjustment gurobi small = pos 2
size_adjustment gurobi medium = pos 8
size_adjustment gurobi large = pos 15

abbrev pub family_value : SolverFamily → String
family_value scipy_highs = "SCIPY_HIGHS"
family_value scipy_milp = "SCIPY_MILP"
family_value scipy_minimize = "SCIPY_MINIMIZE"
family_value gurobi_family = "GUROBI"
family_value ortools_cp_sat = "ORTOOLS_CP_SAT"

-- The place of a family's value in the order of texts.
abbrev pub alphabetical : SolverFamily → ℕ
alphabetical gurobi_family = 0
alphabetical ortools_cp_sat = 1
alphabetical scipy_highs = 2
alphabetical scipy_milp = 3
alphabetical scipy_minimize = 4

-- `SolverFamily(raw)`
abbrev pub family_of_value : String → Option SolverFamily
family_of_value s =
    if s == "SCIPY_HIGHS"
    then some scipy_highs
    else if s == "SCIPY_MILP"
    then some scipy_milp
    else if s == "SCIPY_MINIMIZE"
    then some scipy_minimize
    else if s == "GUROBI"
    then some gurobi_family
    else if s == "ORTOOLS_CP_SAT"
    then some ortools_cp_sat
    else none

-- `SolverCapability(raw)`
abbrev pub capability_of_value : String → Option SolverCapability
capability_of_value s =
    if s == "LP"
    then some lp
    else if s == "MILP"
    then some milp
    else if s == "INTEGER"
    then some integer
    else if s == "NLP"
    then some nlp
    else if s == "BINARY"
    then some binary
    else if s == "CONTINUOUS"
    then some continuous
    else if s == "MULTIOBJECTIVE"
    then some multiobjective
    else none

-- Each text read as a value, or the error of the first that is none.
abbrev pub read_all :
    {B : Type 0}
    → (String → Option B)
    → (String → RouterError)
    → List String
    → Raise RouterError (List B)
read_all read error [] = ok []
read_all read error (s ∷ ss) =
    let rest = read_all read error ss in
    elim (read s) [ none ↦ raise (error s) | some value ↦ (rest >>= λ values. ok (value ∷ values)) ]

abbrev pub recommended : Option SolverFamily → List SolverFamily
recommended none = []
recommended (some family) = family ∷ []

-- `list.index`, of an item that is there.
abbrev pub index_of_text : String → List String → ℕ
index_of_text s [] = 0
index_of_text s (t ∷ ts) = let rest = index_of_text s ts in if s == t then 0 else rest + 1

abbrev pub index_of_family : SolverFamily → List SolverFamily → ℕ
index_of_family f [] = 0
index_of_family f (g ∷ gs) = let rest = index_of_family f gs in if f == g then 0 else rest + 1

-- `_declared_preference_adjustment`
unfoldable pub declared_preference_adjustment : SolverRequirements → SolverFamily → ℕ
declared_preference_adjustment r f =
    let declared = r.preferred_solver_families in
    if contains (family_value f) declared
    then (length declared - index_of_text (family_value f) declared) * 20
    else 0

abbrev pub family_capability : ModelFamily → List SolverCapability
family_capability ModelFamily.linear_programming = lp ∷ []
family_capability ModelFamily.mixed_integer_linear_programming = milp ∷ []
family_capability ModelFamily.integer_programming = integer ∷ []
family_capability ModelFamily.nonlinear_programming = nlp ∷ []
family_capability ModelFamily.multi_objective = multiobjective ∷ []
family_capability _ = []

abbrev pub required_if : Bool → SolverCapability → List SolverCapability
required_if true c = c ∷ []
required_if false c = []

-- `_preference`
unfoldable pub preference :
    SolverRequirements → AlgorithmPlan → Raise RouterError (List SolverFamily)
unfolding unique_from SolverFamily-discrete
preference r plan = do
  declared ← read_all family_of_value unknown_family r.preferred_solver_families
  let planned = recommended plan.recommended_solver_family ++ plan.alternatives
  ok (unique_from [] (declared ++ planned))

-- `_required_capabilities`
unfoldable pub required_capabilities :
    ModelFamily → SolverRequirements → Raise RouterError (List SolverCapability)
required_capabilities family r = do
  read ← read_all capability_of_value unknown_capability r.required_capabilities
  ok (
      family_capability family
      ++ (read
          ++ (required_if r.requires_continuous continuous
              ++ (required_if r.requires_integer integer
                  ++ (required_if r.requires_binary binary
                      ++ (required_if r.requires_nonlinear nlp
                          ++ required_if r.requires_multiobjective multiobjective))))))
