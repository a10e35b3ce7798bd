-- ===== src/Units/Check/Model.antt =====
-- `check_model` of src/mathmodel_ai/mathematical/units.py and the rules of dimensional analysis.
use math_model_ai.Base.{
  ◌≡◌, subst, Option, none, some, List, [], ◌∷◌, ◌++◌, String, ok, >>=-eq-ok, ok-injective, All,
}
use math_model_ai.Expression.Syntax.{MathExpression}
use math_model_ai.Model.{
  UnitExpression, UnitCheckStatus, MathematicalModel, ConstraintDefinition, EquationDefinition,
  ObjectiveDefinition,
}
use math_model_ai.Units.Types.{Floats, UnitIssue, Context, UnitCheckReport}
use math_model_ai.Units.Algebra.Laws.{exponent, same_dimension-exponent}
use math_model_ai.Units.Dimension.{Dimension, HasDimension}
use math_model_ai.Units.Check.{
  ExpressionUnit, expression_unit, compare_units, check_sides, check_constraints, check_equations,
  check_objective, compare_declared, check_model,
}
use math_model_ai.Units.Check.Quiet.{
  Quiet, Quiet-append, compare_units-Quiet, status_from_issues_pass,
}
use math_model_ai.Units.Check.Parts.{along}
use math_model_ai.Units.Check.Sound.{expression_unit-HasDimension}

module _ (F : Floats) (symbols : String → Option (Option (UnitExpression F.Num))) where
  -- Two sides have one dimension by the rules.
  pub record Agree (a b : MathExpression F.Num) : Type 0 where
    pub dimension : Dimension
    pub left : HasDimension F symbols a dimension
    pub right : HasDimension F symbols b dimension

  -- An expression that is accepted, and a unit of its dimension.
  right_unit :
      (e : MathExpression F.Num) (u declared : UnitExpression F.Num) (reference : String)
      (context : Context)
      → HasDimension F symbols e (exponent u)
      → Quiet (compare_units u declared reference context)
      → HasDimension F symbols e (exponent declared)
  right_unit e u declared reference context has quiet =
      let (_, _, same) = compare_units-Quiet u declared reference context quiet in
      along F symbols e (exponent u) (exponent declared) (same_dimension-exponent u declared same)
        has

  check_sides-Agree :
      (reference : String) (context : Context) (a b : MathExpression F.Num)
      {issues : List UnitIssue}
      → check_sides F symbols reference context a b ≡ ok issues
      → Quiet issues
      → Agree a b
  unfolding check_sides
  check_sides-Agree reference context a b {issues} h =
      let (l, p, rest) = >>=-eq-ok (expression_unit F symbols reference a) _ h in
      let (r, q, same) = >>=-eq-ok (expression_unit F symbols reference b) _ rest in
      subst (λ xs. Quiet xs → Agree a b) (ok-injective same)
        (λ quiet.
          let (inside, between) = Quiet-append (l.issues ++ r.issues) _ quiet in
          let (of_l, of_r) = Quiet-append l.issues r.issues inside in
          let (has_a, _) = expression_unit-HasDimension F symbols reference a p of_l in
          let (has_b, _) = expression_unit-HasDimension F symbols reference b q of_r in
          let (_, _, agree) = compare_units-Quiet l.unit r.unit reference context between in
          record {
            dimension = exponent r.unit;
            left =
                along F symbols a (exponent l.unit) (exponent r.unit)
                  (same_dimension-exponent l.unit r.unit agree) has_a;
            right = has_b;
          })

  abbrev pub ConstraintAgrees : ConstraintDefinition F.Num → Type 0
  ConstraintAgrees c = Agree c.expression c.rhs

  abbrev pub EquationAgrees : EquationDefinition F.Num → Type 0
  EquationAgrees e = Agree e.lhs e.rhs

  check_constraints-ConstraintAgrees :
      (cs : List (ConstraintDefinition F.Num)) {issues : List UnitIssue}
      → check_constraints F symbols cs ≡ ok issues
      → Quiet issues
      → All ConstraintAgrees cs
  unfolding check_constraints
  check_constraints-ConstraintAgrees [] h = λ _. tt
  check_constraints-ConstraintAgrees (c ∷ cs) h =
      let (here, p, rest) =
        >>=-eq-ok
          (check_sides F symbols c.constraint_id Context.constraint_sides c.expression c.rhs) _ h in
      let (there, q, same) = >>=-eq-ok (check_constraints F symbols cs) _ rest in
      subst (λ xs. Quiet xs → All ConstraintAgrees (c ∷ cs)) (ok-injective same)
        (λ quiet.
          let (first, others) = Quiet-append here there quiet in
          (
            check_sides-Agree _ _ c.expression c.rhs p first,
            check_constraints-ConstraintAgrees cs q others,
          ))

  check_equations-EquationAgrees :
      (es : List (EquationDefinition F.Num)) {issues : List UnitIssue}
      → check_equations F symbols es ≡ ok issues
      → Quiet issues
      → All EquationAgrees es
  unfolding check_equations
  check_equations-EquationAgrees [] h = λ _. tt
  check_equations-EquationAgrees (e ∷ es) h =
      let (here, p, rest) =
        >>=-eq-ok (check_sides F symbols e.equation_id Context.equation_sides e.lhs e.rhs) _ h in
      let (there, q, same) = >>=-eq-ok (check_equations F symbols es) _ rest in
      subst (λ xs. Quiet xs → All EquationAgrees (e ∷ es)) (ok-injective same)
        (λ quiet.
          let (first, others) = Quiet-append here there quiet in
          (check_sides-Agree _ _ e.lhs e.rhs p first, check_equations-EquationAgrees es q others))

  -- An expression has a dimension, that of a unit if one is declared.
  abbrev pub DeclaredAgrees : MathExpression F.Num → Option (UnitExpression F.Num) → Type 0
  DeclaredAgrees e none = (δ : Dimension) × HasDimension F symbols e δ
  DeclaredAgrees e (some declared) = HasDimension F symbols e (exponent declared)

  abbrev pub ObjectiveAgrees : Option (ObjectiveDefinition F.Num) → Type 0
  ObjectiveAgrees none = Unit
  ObjectiveAgrees (some o) = DeclaredAgrees o.expression o.unit

  check_objective-ObjectiveAgrees :
      (o : Option (ObjectiveDefinition F.Num))
      {found : List UnitIssue × Option (UnitExpression F.Num)}
      → check_objective F symbols o ≡ ok found
      → Quiet found.0
      → ObjectiveAgrees o
  unfolding check_objective
  check_objective-ObjectiveAgrees none h = λ _. tt
  check_objective-ObjectiveAgrees (some o) h =
      let (c, p, same) = >>=-eq-ok (expression_unit F symbols o.objective_id o.expression) _ h in
      subst (λ x. Quiet x.0 → ObjectiveAgrees (some o)) (ok-injective same)
        (λ quiet.
          let (inside, between) =
            Quiet-append c.issues (compare_declared F symbols o c.unit o.unit) quiet in
          let (has, _) =
            expression_unit-HasDimension F symbols o.objective_id o.expression p inside in
          by_unit o.unit c has between)
    where
      by_unit :
          (declared : Option (UnitExpression F.Num)) (c : ExpressionUnit F.Num)
          → HasDimension F symbols o.expression (exponent c.unit)
          → Quiet (compare_declared F symbols o c.unit declared)
          → DeclaredAgrees o.expression declared
      by_unit none c has quiet = (exponent c.unit, has)
      by_unit (some u) c has quiet =
          right_unit o.expression c.unit u o.objective_id Context.objective_declared_unit has quiet

  pub record IsConsistent (m : MathematicalModel F.Num) : Type 0 where
    pub objective : ObjectiveAgrees m.objective
    pub constraints :
        All ConstraintAgrees (m.constraints ++ (m.initial_conditions ++ m.boundary_conditions))
    pub equations : All EquationAgrees m.equations

  -- If `check_model` returns a report with status PASS, then, by the rules of dimensional analysis, the
  -- two sides of every constraint, initial condition, boundary condition and equation have one dimension, and the
  -- objective has a dimension, which is that of its declared unit where it declares one.
  pub check_model_pass :
      (m : MathematicalModel F.Num) {report : UnitCheckReport F.Num}
      → check_model F symbols m ≡ ok report
      → report.status ≡ UnitCheckStatus.pass
      → IsConsistent m
  unfolding check_model
  check_model_pass m h =
      let (o, p, rest) = >>=-eq-ok (check_objective F symbols m.objective) _ h in
      let (sides, q, more) =
        >>=-eq-ok
          (check_constraints F symbols
            (m.constraints ++ (m.initial_conditions ++ m.boundary_conditions)))
          _ rest in
      let (equations, r, same) = >>=-eq-ok (check_equations F symbols m.equations) _ more in
      subst (λ (x : UnitCheckReport F.Num). x.status ≡ UnitCheckStatus.pass → IsConsistent m)
        (ok-injective same)
        (λ passed.
          let quiet = status_from_issues_pass (o.0 ++ (sides ++ equations)) passed in
          let (of_o, others) = Quiet-append o.0 (sides ++ equations) quiet in
          let (of_sides, of_equations) = Quiet-append sides equations others in
          record {
            objective = check_objective-ObjectiveAgrees m.objective p of_o;
            constraints = check_constraints-ConstraintAgrees _ q of_sides;
            equations = check_equations-EquationAgrees m.equations r of_equations;
          })
