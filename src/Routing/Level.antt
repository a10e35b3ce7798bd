-- ===== src/Routing/Level.antt =====
-- src/mathmodel_ai/routing/router.py: the level of a task, from its type, its requirements and the
-- retries so far.
pub mod Laws
use math_model_ai.Base.{
  ℕ, ◌+◌, min, max, Bool, ◌&&◌, ◌||◌, Option, none, some, ltb, leb, nat_beq, if◌then◌else◌,
}
use math_model_ai.Routing.Types.{
  TaskType, EscalationLevel, fast, balanced, flagship_high, flagship_xhigh, flagship_max,
  multi_model_review, human_review, TaskProfile, QualityTier, ReasoningEffort, none_effort, low,
  medium, high, xhigh, max_effort,
}

-- The value of an `IntEnum` member.
abbrev pub value : EscalationLevel → ℕ
value EscalationLevel.fast = 1
value EscalationLevel.balanced = 2
value EscalationLevel.flagship_high = 3
value EscalationLevel.flagship_xhigh = 4
value EscalationLevel.flagship_max = 5
value EscalationLevel.multi_model_review = 6
value EscalationLevel.human_review = 7

-- `EscalationLevel(n)`, which raises `ValueError` on a number that is no member's.
unfoldable pub of_value : ℕ → Option EscalationLevel
of_value n =
    if nat_beq n 1
    then some EscalationLevel.fast
    else if nat_beq n 2
    then some EscalationLevel.balanced
    else if nat_beq n 3
    then some EscalationLevel.flagship_high
    else if nat_beq n 4
    then some EscalationLevel.flagship_xhigh
    else if nat_beq n 5
    then some EscalationLevel.flagship_max
    else if nat_beq n 6
    then some EscalationLevel.multi_model_review
    else if nat_beq n 7
    then some EscalationLevel.human_review
    else none

-- `max` of two levels: the first, unless the second is greater.
abbrev pub max_level : EscalationLevel → EscalationLevel → EscalationLevel
max_level a b = if ltb (value a) (value b) then b else a

-- `TASK_MINIMUMS`
unfoldable pub task_minimum : TaskType → EscalationLevel
task_minimum TaskType.architecture_redesign = EscalationLevel.flagship_xhigh
task_minimum TaskType.mathematical_modeling = EscalationLevel.flagship_xhigh
task_minimum TaskType.model_repair = EscalationLevel.flagship_xhigh
task_minimum TaskType.sandbox_security = EscalationLevel.flagship_xhigh
task_minimum TaskType.e2e_root_cause = EscalationLevel.flagship_xhigh
task_minimum TaskType.final_acceptance = EscalationLevel.flagship_xhigh
task_minimum TaskType.problem_understanding = EscalationLevel.flagship_high
task_minimum TaskType.model_exploration = EscalationLevel.flagship_xhigh
task_minimum TaskType.model_jury = EscalationLevel.flagship_xhigh
task_minimum TaskType.data_understanding = EscalationLevel.flagship_high
task_minimum TaskType.database_architecture = EscalationLevel.flagship_high
task_minimum TaskType.code_generation = EscalationLevel.flagship_high
task_minimum TaskType.validation = EscalationLevel.flagship_high
task_minimum TaskType.red_team = EscalationLevel.flagship_xhigh
task_minimum TaskType.paper_ir = EscalationLevel.flagship_high
task_minimum TaskType.citation_verification = EscalationLevel.flagship_high
task_minimum TaskType.api = EscalationLevel.balanced
task_minimum TaskType.crud = EscalationLevel.balanced
task_minimum TaskType.parser = EscalationLevel.balanced
task_minimum TaskType.provider_adapter = EscalationLevel.balanced
task_minimum TaskType.testing = EscalationLevel.balanced
task_minimum TaskType.table = EscalationLevel.balanced
task_minimum TaskType.latex = EscalationLevel.balanced
task_minimum TaskType.refactor = EscalationLevel.balanced
task_minimum TaskType.documentation = EscalationLevel.fast
task_minimum TaskType.formatting = EscalationLevel.fast
task_minimum TaskType.cleanup = EscalationLevel.fast
task_minimum TaskType.other = EscalationLevel.balanced

-- `_TIER_RANK`
abbrev pub tier_rank : QualityTier → ℕ
tier_rank QualityTier.routine = 1
tier_rank QualityTier.balanced = 2
tier_rank QualityTier.flagship_high = 3
tier_rank QualityTier.flagship_xhigh = 4
tier_rank QualityTier.flagship_max = 5

-- The greatest of the seven requirements that raise the level.
abbrev pub demand : TaskProfile → ℕ
demand p = max p.complexity (
    max p.reasoning_requirement (
      max p.math_requirement (
        max p.coding_requirement
          (max p.multimodal_requirement (max p.long_context_requirement p.review_requirement)))))

unfoldable pub demand_level : TaskProfile → EscalationLevel
demand_level p =
    let d = demand p in
    if leb d 1
    then EscalationLevel.fast
    else if nat_beq d 2
    then EscalationLevel.balanced
    else if nat_beq d 3
    then EscalationLevel.flagship_high
    else if nat_beq d 4
    then EscalationLevel.flagship_xhigh
    else EscalationLevel.flagship_max

-- `profile.minimum_level or TASK_MINIMUMS[profile.task_type]`: every level is a true value.
abbrev pub minimum_of : TaskProfile → EscalationLevel
minimum_of p = elim p.minimum_level [ none ↦ task_minimum p.task_type | some level ↦ level ]

-- The level before retries are counted.
unfoldable pub level_before_retries : TaskProfile → EscalationLevel
unfolding demand_level
level_before_retries p =
    let demanded = max_level (minimum_of p) (demand_level p) in
    let guarded =
      if leb 4 p.security_risk || leb 5 p.blast_radius
      then max_level demanded EscalationLevel.flagship_xhigh
      else demanded in
    if leb 5 p.deadline_pressure && ltb (value guarded) (value EscalationLevel.flagship_high)
    then EscalationLevel.flagship_high
    else guarded

-- `_base_level`
unfoldable pub base_level : TaskProfile → Option EscalationLevel
unfolding of_value
base_level p =
    of_value
      (min (value (level_before_retries p) + p.retry_count) (value EscalationLevel.human_review))

-- `_reasoning_for_level`
unfoldable pub reasoning_for_level : EscalationLevel → ReasoningEffort
reasoning_for_level EscalationLevel.fast = low
reasoning_for_level EscalationLevel.balanced = medium
reasoning_for_level EscalationLevel.flagship_high = high
reasoning_for_level EscalationLevel.flagship_xhigh = xhigh
reasoning_for_level EscalationLevel.flagship_max = max_effort
reasoning_for_level EscalationLevel.multi_model_review = max_effort
reasoning_for_level EscalationLevel.human_review = max_effort

abbrev pub effort_order : ReasoningEffort → ℕ
effort_order none_effort = 0
effort_order low = 1
effort_order medium = 2
effort_order high = 3
effort_order xhigh = 4
effort_order max_effort = 5

-- `_cap_reasoning_effort`
unfoldable pub cap_reasoning_effort : ReasoningEffort → Option ReasoningEffort → ReasoningEffort
cap_reasoning_effort requested none = requested
cap_reasoning_effort requested (some maximum) =
    if leb (effort_order requested) (effort_order maximum) then requested else maximum
