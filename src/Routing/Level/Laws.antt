-- ===== src/Routing/Level/Laws.antt =====
-- The level of a task and the reasoning efforts, of src/mathmodel_ai/routing/router.py.
use mathlib.Core.Option.{some-injective}
use math_model_ai.Base.{
  ap, sym, ◌∙◌, zero, suc, Bool, true, false, ◌&&◌, ◌||◌, leb, ltb, nat_beq, if◌then◌else◌,
  Bool-cases, inl, inr, ltb→lt, not_ltb→le, ℕ, ◌+◌, ◌≤◌, ◌<◌, ◌≡◌, ◌⊎◌, min, max, refl, some, arith,
}
use math_model_ai.Routing.Types.{EscalationLevel, TaskProfile, ReasoningEffort}
use math_model_ai.Routing.Level.{
  value, of_value, max_level, demand, demand_level, minimum_of, level_before_retries, base_level,
  effort_order, cap_reasoning_effort,
}

of_value-value : (l : EscalationLevel) → of_value (value l) ≡ some l
unfolding of_value
of_value-value EscalationLevel.fast = refl
of_value-value _ = refl

value-of_value :
    (n : ℕ) → 1 ≤ n → n ≤ 7 → (l : EscalationLevel) × (of_value n ≡ some l) × (value l ≡ n)
unfolding of_value
value-of_value zero lo hi = absurd (omega arith)
value-of_value (suc zero) lo hi = (EscalationLevel.fast, refl, refl)
value-of_value (suc (suc zero)) lo hi = (EscalationLevel.balanced, refl, refl)
value-of_value (suc (suc (suc zero))) lo hi = (EscalationLevel.flagship_high, refl, refl)
value-of_value (suc (suc (suc (suc zero)))) lo hi = (EscalationLevel.flagship_xhigh, refl, refl)
value-of_value (suc (suc (suc (suc (suc zero))))) lo hi = (EscalationLevel.flagship_max, refl, refl)
value-of_value (suc (suc (suc (suc (suc (suc zero)))))) lo hi =
    (EscalationLevel.multi_model_review, refl, refl)
value-of_value (suc (suc (suc (suc (suc (suc (suc zero))))))) lo hi =
    (EscalationLevel.human_review, refl, refl)
value-of_value (suc (suc (suc (suc (suc (suc (suc (suc n)))))))) lo hi = absurd (omega arith)

pub value_bounds : (l : EscalationLevel) → (1 ≤ value l) × (value l ≤ 7)
value_bounds l = ground arith

pub value-max_level : (a b : EscalationLevel) → value (max_level a b) ≡ max (value a) (value b)
value-max_level a b = elim (Bool-cases (ltb (value a) (value b))) [
  | inl less ↦ rw less (omega (arith, ltb→lt _ _ less))
  | inr more ↦ rw more (omega (arith, not_ltb→le _ _ more))
]

value-demand_level : (p : TaskProfile) → value (demand_level p) ≡ max 1 (min (demand p) 5)
unfolding demand_level
value-demand_level p = clamped (demand p)
  where
    clamped :
        (d : ℕ)
        → value (
            if leb d 1
            then EscalationLevel.fast
            else if nat_beq d 2
            then EscalationLevel.balanced
            else if nat_beq d 3
            then EscalationLevel.flagship_high
            else if nat_beq d 4
            then EscalationLevel.flagship_xhigh
            else EscalationLevel.flagship_max)
          ≡ max 1 (min d 5)
    clamped d = ground arith

-- The bounds from below that a profile sets, each as the value of a level, or 0 where it sets none.
abbrev pub risk_bound : TaskProfile → ℕ
risk_bound p = if leb 4 p.security_risk || leb 5 p.blast_radius then 4 else 0

abbrev pub deadline_bound : TaskProfile → ℕ
deadline_bound p = if leb 5 p.deadline_pressure then 3 else 0

-- The least level that meets every bound.
abbrev pub required_value : TaskProfile → ℕ
required_value p =
    max (value (minimum_of p))
      (max (max 1 (min (demand p) 5)) (max (risk_bound p) (deadline_bound p)))

with_risk :
    (test : Bool) (l : EscalationLevel)
    → value (if test then max_level l EscalationLevel.flagship_xhigh else l)
      ≡ max (value l) (if test then 4 else 0)
with_risk true l = value-max_level l EscalationLevel.flagship_xhigh
with_risk false l = omega arith

with_deadline :
    (test : Bool) (l : EscalationLevel)
    → value (if test && ltb (value l) 3 then EscalationLevel.flagship_high else l)
      ≡ max (value l) (if test then 3 else 0)
with_deadline true EscalationLevel.fast = refl
with_deadline true _ = refl
with_deadline false l = omega arith

value-level_before_retries : (p : TaskProfile) → value (level_before_retries p) ≡ required_value p
unfolding level_before_retries
value-level_before_retries p =
    let risky = leb 4 p.security_risk || leb 5 p.blast_radius in
    let demanded = max_level (minimum_of p) (demand_level p) in
    omega (
      arith,
      with_deadline (leb 5 p.deadline_pressure)
          (if risky then max_level demanded EscalationLevel.flagship_xhigh else demanded),
      with_risk risky demanded,
      value-max_level (minimum_of p) (demand_level p),
      value-demand_level p,
    )

-- `_base_level` never raises. The value of its level is the least one that meets the minimum of the
-- task, the demand held between 1 and 5, `FLAGSHIP_XHIGH` under a security risk of 4 or a blast
-- radius of 5, and `FLAGSHIP_HIGH` under a deadline pressure of 5; then one more for each retry, up
-- to `HUMAN_REVIEW`.
pub base_level_exact :
    (p : TaskProfile)
    → (l : EscalationLevel) × (base_level p ≡ some l)
      × (value l ≡ min (required_value p + p.retry_count) 7)
unfolding base_level
base_level_exact p =
    let n = min (value (level_before_retries p) + p.retry_count) 7 in
    let (l, found, e) =
      value-of_value n (omega (arith, value_bounds (level_before_retries p))) (omega arith) in
    (l, found, omega (arith, e, value-level_before_retries p))

pub value-base_level :
    (p : TaskProfile) {l : EscalationLevel}
    → base_level p ≡ some l
    → value l ≡ min (required_value p + p.retry_count) 7
value-base_level p {l} h =
    let (k, found, e) = base_level_exact p in ap value (some-injective l k (sym h ∙ found)) ∙ e

at_seven : (m : EscalationLevel) → value m ≡ 7 → m ≡ EscalationLevel.human_review
at_seven m h = ground arith

-- A further retry never lowers the level of a task, and seven retries leave it to a human.
pub base_level_retries :
    (p : TaskProfile) (n : ℕ) {l m : EscalationLevel}
    → base_level p ≡ some l
    → base_level (record p { retry_count = p.retry_count + n }) ≡ some m
    → (value l ≤ value m) × ((n < 7) ⊎ (m ≡ EscalationLevel.human_review))
base_level_retries p n {l} {m} a b =
    let q : TaskProfile = record p { retry_count = p.retry_count + n } in
    let before = value-base_level p a in
    let after = value-base_level q b in
    (
      omega (arith, before, after),
      elim (Bool-cases (ltb n 7)) [
        | inl few ↦ inl (ltb→lt _ _ few)
        | inr many ↦ inr (at_seven m (omega (arith, after, not_ltb→le _ _ many)))
      ],
    )

-- The capped effort is the lesser of the two.
pub cap_reasoning_effort-min :
    (requested maximum : ReasoningEffort)
    → effort_order (cap_reasoning_effort requested (some maximum))
      ≡ min (effort_order requested) (effort_order maximum)
unfolding cap_reasoning_effort
cap_reasoning_effort-min requested maximum = ground arith
