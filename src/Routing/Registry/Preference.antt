-- ===== src/Routing/Registry/Preference.antt =====
-- The model that `_route_registry` of src/mathmodel_ai/routing/router.py prefers.
use mathlib.Core.Bool.{true≢false}
use math_model_ai.Base.{
  ◌≡◌, ◌≢◌, refl, sym, ap, ◌∙◌, subst, ◌⊎◌, inl, inr, String, true, false, Option, none, some, ◌==◌,
  string_eq, ==→≡, Bool-cases, ok, ok-injective,
}
use math_model_ai.Routing.Types.{TaskProfile, AgentRoutePolicy}
use math_model_ai.Routing.Eligibility.{Registry}
use math_model_ai.Routing.Registry.{or_text, primary_or, agent_policy}

-- The task names no model: an empty text names none.
abbrev pub IsSilent : TaskProfile → Type 0
IsSilent p = (p.preferred_model_id ≡ none) ⊎ (p.preferred_model_id ≡ some "")

-- The policy that the registry has for an agent, where one is named.
pub data HasPolicy (registry : Registry) : Option String → Option AgentRoutePolicy → Type 0 where
  unnamed : HasPolicy registry none none
  nameless : HasPolicy registry (some "") none
  named :
      {name : String} {policy : Option AgentRoutePolicy}
      → name ≢ ""
      → registry.get_agent_route name ≡ ok policy
      → HasPolicy registry (some name) policy

-- What is preferred: the model that the task names, else the primary model of the agent's policy, and without a
-- policy the default.
pub data Prefers (registry : Registry) (p : TaskProfile) (agent_name default : Option String)
    : Option String → Type 0 where
  of_task :
      {id : String}
      → p.preferred_model_id ≡ some id
      → id ≢ ""
      → Prefers registry p agent_name default (some id)
  of_policy :
      {policy : AgentRoutePolicy}
      → IsSilent p
      → HasPolicy registry agent_name (some policy)
      → Prefers registry p agent_name default (some policy.primary_model_id)
  of_default :
      IsSilent p
      → HasPolicy registry agent_name none
      → Prefers registry p agent_name default default

not_same : (name : String) → (name == "") ≡ false → name ≢ ""
not_same name other e =
    let same : true ≡ false = subst (λ n. (n == "") ≡ false) e other in absurd (true≢false same)

agent_policy-HasPolicy :
    (registry : Registry) (agent_name : Option String) {policy : Option AgentRoutePolicy}
    → agent_policy registry agent_name ≡ ok policy
    → HasPolicy registry agent_name policy
agent_policy-HasPolicy registry none h =
    subst (HasPolicy registry none) (ok-injective h) HasPolicy.unnamed
agent_policy-HasPolicy registry (some name) {policy} h = elim (Bool-cases (name == "")) [
  | inl is_empty ↦
      subst (λ n. HasPolicy registry (some n) policy) (sym (==→≡ name "" is_empty))
        (subst (HasPolicy registry (some "")) (ok-injective (rw is_empty at h)) HasPolicy.nameless)
  | inr other ↦ HasPolicy.named (not_same name other) (rw other at h)
]

pub or_text-Prefers :
    (registry : Registry) (p : TaskProfile) (agent_name default : Option String)
    {policy : Option AgentRoutePolicy}
    → agent_policy registry agent_name ≡ ok policy
    → Prefers registry p agent_name default
        (or_text p.preferred_model_id (primary_or policy default))
or_text-Prefers registry p agent_name default {policy} h = by_own p.preferred_model_id refl
  where
    silent :
        IsSilent p
        → (o : Option AgentRoutePolicy) → HasPolicy registry agent_name o
        → Prefers registry p agent_name default (primary_or o default)
    silent is none has = Prefers.of_default is has
    silent is (some _) has = Prefers.of_policy is has

    by_own :
        (own : Option String)
        → p.preferred_model_id ≡ own
        → Prefers registry p agent_name default (or_text own (primary_or policy default))
    by_own none e = silent (inl e) policy (agent_policy-HasPolicy registry agent_name h)
    by_own (some id) e = elim (Bool-cases (id == "")) [
      | inl is_empty ↦ rw is_empty (
          silent (inr (e ∙ ap some (==→≡ id "" is_empty))) policy
            (agent_policy-HasPolicy registry agent_name h))
      | inr other ↦ rw other (Prefers.of_task e (not_same id other))
    ]
