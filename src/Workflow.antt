-- ===== src/Workflow.antt =====
-- src/mathmodel_ai/reasoning/state_machine.py, and `WorkflowStage` of
-- src/mathmodel_ai/schemas/problem_state.py: the stages of a project and the transitions that
-- every workflow asks for before it writes a new stage.
pub mod Order
pub mod Tests
use math_model_ai.Base.{
  List, [], ◌∷◌, not, contains, Eq, eq_of_discrete, Raise, ok, raise_if, ◌>>=◌, ◌>>◌,
}

pub data WorkflowStage : Type 0 where
  ingest understand data_stage literature explore select model solve : WorkflowStage
  validate sensitivity robustness red_team model_repair paper : WorkflowStage
  final_jury submission final : WorkflowStage

pub WorkflowStage-discrete : Discrete WorkflowStage
WorkflowStage-discrete = hlevel

instance abbrev pub stage_eq : Eq WorkflowStage
stage_eq = eq_of_discrete WorkflowStage-discrete

-- `InvalidStateTransitionError`, with the two stages that its message names.
pub data InvalidTransition : Type 0 where
  invalid_transition : WorkflowStage → WorkflowStage → InvalidTransition

-- `_WORKFLOW_TRANSITIONS.get(current, frozenset())`: `DATA` and `LITERATURE` have no entry.
pub transitions : WorkflowStage → List WorkflowStage
transitions ingest = understand ∷ []
transitions understand = explore ∷ []
transitions explore = select ∷ []
transitions select = model ∷ []
transitions model = solve ∷ []
transitions solve = validate ∷ []
transitions validate = sensitivity ∷ []
transitions sensitivity = robustness ∷ []
transitions robustness = red_team ∷ []
transitions red_team = model_repair ∷ paper ∷ []
transitions model_repair = solve ∷ []
transitions paper = paper ∷ final_jury ∷ []
transitions final_jury = final_jury ∷ submission ∷ paper ∷ []
transitions submission = submission ∷ final ∷ paper ∷ []
transitions final = final ∷ submission ∷ paper ∷ []
transitions data_stage = []
transitions literature = []

unfoldable pub ensure_transition :
    WorkflowStage → WorkflowStage → Raise InvalidTransition (Unit {0})
unfolding transitions WorkflowStage-discrete
ensure_transition current target =
    raise_if (not (contains target (transitions current))) (invalid_transition current target)

-- The stages that a project moves through, each asked for from the one before it.
unfoldable pub follow : WorkflowStage → List WorkflowStage → Raise InvalidTransition WorkflowStage
unfolding ensure_transition
follow current [] = ok current
follow current (target ∷ rest) = do ensure_transition current target; follow target rest
