-- ===== src/Expression/Linear/Sound.antt =====
-- Linear forms and the expressions that they are made from, `linearize_expression` of
-- src/mathmodel_ai/mathematical/expressions.py.
use math_model_ai.Base.{
  ◌≡◌, refl, sym, ap, ◌∙◌, String, Bool, true, false, Option, none, some, List, [], ◌∷◌, contains,
  string_eq, map, if◌then◌else◌, ok, raise, ok-injective, >>=-eq-ok, >>=-of_ok,
}
use math_model_ai.Expression.Arithmetic.{Arithmetic, IsExact, real}
use math_model_ai.Expression.Syntax.{
  division_by_zero, nonlinear_division, nonlinear_exponent, nonlinear_power, MathExpression,
  constant, symbol, add, subtract, multiply, divide, power, negate, Operands, end, operand,
  value_of, sum_from, product_from, quotient, checked_power, evaluate, evaluate_all,
}
use math_model_ai.Expression.Linear.{
  LinearForm, constant_form, plus, scaled, is_symbolic, sum_forms, multiply_by, multiply_forms,
  divide_forms, power_forms, parameter_form, symbol_form, linearize, linearize_all,
}
use math_model_ai.Expression.Linear.Meaning.{
  meaning, meaning-plus, meaning-scaled, meaning-constant, meaning-multiply_by,
}

-- `{**parameters, **variables}`: a value for every variable, and the parameters for the rest.
abbrev pub assignment :
    {A : Type 0} → List String → (String → Option A) → (String → A) → String → Option A
assignment variables parameters env s = if contains s variables then some (env s) else parameters s

nonzero : {b : Bool} → b ≡ true → b ≡ false → ⊥
nonzero p q = cc

module _ (N : Arithmetic) (L : IsExact N) (env : String → N.Num) where
  constant_value : (v : N.Num) → meaning N env (constant_form N v) ≡ v
  constant_value v = L.add_nil v

  sum_value :
      (acc : LinearForm N.Num) (fs : List (LinearForm N.Num))
      → sum_from N (meaning N env acc) (map (meaning N env) fs) ≡ meaning N env (sum_forms N acc fs)
  sum_value acc [] = refl
  sum_value acc (f ∷ fs) =
      ap (λ x. sum_from N x (map (meaning N env) fs)) (sym (meaning-plus N L env acc f))
      ∙ sum_value (plus N acc f) fs

  product_value :
      (acc : LinearForm N.Num) (fs : List (LinearForm N.Num)) {l : LinearForm N.Num}
      → multiply_forms N acc fs ≡ ok l
      → product_from N (meaning N env acc) (map (meaning N env) fs) ≡ meaning N env l
  unfolding multiply_forms
  product_value acc [] h = ap (meaning N env) (ok-injective h)
  product_value acc (f ∷ fs) h =
      let (next, step, rest) = >>=-eq-ok (multiply_by N acc f) (λ g. multiply_forms N g fs) h in
      ap (λ x. product_from N x (map (meaning N env) fs))
        (sym (meaning-multiply_by N L env acc f step))
      ∙ product_value next fs rest

  sum_of :
      (fs : List (LinearForm N.Num)) {l : LinearForm N.Num}
      → sum_forms N (constant_form N N.nil) fs ≡ l
      → sum_from N N.nil (map (meaning N env) fs) ≡ meaning N env l
  sum_of fs h =
      ap (λ x. sum_from N x (map (meaning N env) fs)) (sym (constant_value N.nil))
      ∙ sum_value (constant_form N N.nil) fs
      ∙ ap (meaning N env) h

  product_of :
      (fs : List (LinearForm N.Num)) {l : LinearForm N.Num}
      → multiply_forms N (constant_form N N.unit) fs ≡ ok l
      → product_from N N.unit (map (meaning N env) fs) ≡ meaning N env l
  product_of fs h =
      ap (λ x. product_from N x (map (meaning N env) fs)) (sym (constant_value N.unit))
      ∙ product_value (constant_form N N.unit) fs h

  difference_of :
      (f g : LinearForm N.Num) {l : LinearForm N.Num}
      → plus N f (scaled N g (N.neg N.unit)) ≡ l
      → N.sub (meaning N env f) (meaning N env g) ≡ meaning N env l
  difference_of f g h =
      L.sub_lem (meaning N env f) (meaning N env g)
      ∙ ap (λ x. N.add (meaning N env f) x) (sym (meaning-scaled N L env g (N.neg N.unit)))
      ∙ sym (meaning-plus N L env f (scaled N g (N.neg N.unit)))
      ∙ ap (meaning N env) h

  negation_of :
      (f : LinearForm N.Num) {l : LinearForm N.Num}
      → scaled N f (N.neg N.unit) ≡ l
      → N.neg (meaning N env f) ≡ meaning N env l
  negation_of f h =
      L.neg_lem (meaning N env f)
      ∙ sym (meaning-scaled N L env f (N.neg N.unit))
      ∙ ap (meaning N env) h

  quotient_value :
      (f g : LinearForm N.Num) {l : LinearForm N.Num}
      → divide_forms N f g ≡ ok l
      → quotient N (meaning N env f) (meaning N env g) ≡ ok (meaning N env l)
  unfolding divide_forms
  quotient_value f g {l} h = by_tests (is_symbolic N g) (N.is_nil g.constant) refl refl h
    where
      by_tests :
          (a b : Bool)
          → is_symbolic N g ≡ a
          → N.is_nil g.constant ≡ b
          → (if a
              then raise nonlinear_division
              else if b
              then raise division_by_zero
              else ok (scaled N f (N.div N.unit g.constant)))
            ≡ ok l
          → quotient N (meaning N env f) (meaning N env g) ≡ ok (meaning N env l)
      by_tests true b p q k = cc
      by_tests false true p q k = cc
      by_tests false false p q k =
          ap (quotient N (meaning N env f)) (meaning-constant N L env g p)
          ∙ rw q (
              ap ok (
                L.div_lem (meaning N env f) g.constant
                  (λ e. nonzero ((L.is_nil_iff g.constant).1 e) q)
                ∙ sym (meaning-scaled N L env f (N.div N.unit g.constant))
                ∙ ap (meaning N env) (ok-injective k)))

  power_value :
      (f g : LinearForm N.Num) {l : LinearForm N.Num}
      → power_forms N f g ≡ ok l
      → checked_power N (N.power (meaning N env f) (meaning N env g)) ≡ ok (meaning N env l)
  unfolding power_forms
  power_value f g {l} h =
      by_tests (is_symbolic N g) (N.is_nil g.constant) (N.is_unit g.constant) refl refl refl h
    where
      checked : (r : N.Num) → checked_power N (real r) ≡ ok r
      checked r = rw (L.finite r)

      by_tests :
          (a b c : Bool)
          → is_symbolic N g ≡ a
          → N.is_nil g.constant ≡ b
          → N.is_unit g.constant ≡ c
          → (if a
              then raise nonlinear_exponent
              else if b
              then ok (constant_form N N.unit)
              else if c
              then ok f
              else raise nonlinear_power)
            ≡ ok l
          → checked_power N (N.power (meaning N env f) (meaning N env g)) ≡ ok (meaning N env l)
      by_tests true b c p q r k = cc
      by_tests false true c p q r k =
          ap (λ x. checked_power N (N.power (meaning N env f) x))
            (meaning-constant N L env g p ∙ (L.is_nil_iff g.constant).0 q)
          ∙ ap (checked_power N) (L.power_nil (meaning N env f))
          ∙ checked N.unit
          ∙ ap ok (sym (constant_value N.unit) ∙ ap (meaning N env) (ok-injective k))
      by_tests false false true p q r k =
          ap (λ x. checked_power N (N.power (meaning N env f) x))
            (meaning-constant N L env g p ∙ (L.is_unit_iff g.constant).0 r)
          ∙ ap (checked_power N) (L.power_unit (meaning N env f))
          ∙ checked (meaning N env f)
          ∙ ap (λ x. ok (meaning N env x)) (ok-injective k)
      by_tests false false false p q r k = cc

  module _ (variables : List String) (parameters : String → Option N.Num) where
    symbol_value :
        (s : String) {l : LinearForm N.Num}
        → symbol_form N variables parameters s ≡ ok l
        → evaluate N (symbol s) (assignment variables parameters env) ≡ ok (meaning N env l)
    unfolding evaluate
    symbol_value s {l} h = by_kind (contains s variables) (parameters s) refl refl h
      where
        by_kind :
            (variable : Bool) (parameter : Option N.Num)
            → contains s variables ≡ variable
            → parameters s ≡ parameter
            → (if variable
                then ok (record { coefficients = (s, N.unit) ∷ []; constant = N.nil })
                else parameter_form N s parameter)
              ≡ ok l
            → value_of N s (if variable then some (env s) else parameter) ≡ ok (meaning N env l)
        by_kind true parameter p q k = ap ok (
            sym (L.mul_unit (env s))
            ∙ L.mul_comm (env s) N.unit
            ∙ sym (L.add_nil (N.mul N.unit (env s)))
            ∙ sym (L.add_nil (N.add (N.mul N.unit (env s)) N.nil))
            ∙ L.add_comm (N.add (N.mul N.unit (env s)) N.nil) N.nil
            ∙ ap (meaning N env) (ok-injective k))
        by_kind false none p q k = cc
        by_kind false (some v) p q k =
            ap ok (sym (constant_value v) ∙ ap (meaning N env) (ok-injective k))

    mutual
      unfolding linearize evaluate

      value-linearize :
          (e : MathExpression N.Num) {l : LinearForm N.Num}
          → linearize N variables parameters e ≡ ok l
          → evaluate N e (assignment variables parameters env) ≡ ok (meaning N env l)
      value-linearize (constant v) h =
          ap ok (sym (constant_value v) ∙ ap (meaning N env) (ok-injective h))
      value-linearize (symbol s) h = symbol_value s h
      value-linearize (add es) h =
          let (fs, p, e) = >>=-eq-ok (linearize_all N variables parameters es) _ h in
          >>=-of_ok _ (values-linearize_all es p) ∙ ap ok (sum_of fs (ok-injective e))
      value-linearize (subtract a b) h =
          let (f, p, rest) = >>=-eq-ok (linearize N variables parameters a) _ h in
          let (g, q, e) = >>=-eq-ok (linearize N variables parameters b) _ rest in
          >>=-of_ok _ (value-linearize a p)
          ∙ >>=-of_ok _ (value-linearize b q)
          ∙ ap ok (difference_of f g (ok-injective e))
      value-linearize (multiply es) h =
          let (fs, p, e) = >>=-eq-ok (linearize_all N variables parameters es) _ h in
          >>=-of_ok _ (values-linearize_all es p) ∙ ap ok (product_of fs e)
      value-linearize (divide a b) h =
          let (f, p, rest) = >>=-eq-ok (linearize N variables parameters a) _ h in
          let (g, q, e) = >>=-eq-ok (linearize N variables parameters b) _ rest in
          >>=-of_ok _ (value-linearize a p)
          ∙ >>=-of_ok _ (value-linearize b q)
          ∙ quotient_value f g e
      value-linearize (power a b) h =
          let (f, p, rest) = >>=-eq-ok (linearize N variables parameters a) _ h in
          let (g, q, e) = >>=-eq-ok (linearize N variables parameters b) _ rest in
          >>=-of_ok _ (value-linearize a p) ∙ >>=-of_ok _ (value-linearize b q) ∙ power_value f g e
      value-linearize (negate a) h =
          let (f, p, e) = >>=-eq-ok (linearize N variables parameters a) _ h in
          >>=-of_ok _ (value-linearize a p) ∙ ap ok (negation_of f (ok-injective e))

      values-linearize_all :
          (es : Operands N.Num) {fs : List (LinearForm N.Num)}
          → linearize_all N variables parameters es ≡ ok fs
          → evaluate_all N es (assignment variables parameters env) ≡ ok (map (meaning N env) fs)
      values-linearize_all end h = ap (λ xs. ok (map (meaning N env) xs)) (ok-injective h)
      values-linearize_all (operand e es) h =
          let (f, p, rest) = >>=-eq-ok (linearize N variables parameters e) _ h in
          let (fs, q, same) = >>=-eq-ok (linearize_all N variables parameters es) _ rest in
          >>=-of_ok _ (value-linearize e p)
          ∙ >>=-of_ok _ (values-linearize_all es q)
          ∙ ap (λ xs. ok (map (meaning N env) xs)) (ok-injective same)

    -- In exact arithmetic, if `linearize_expression` returns a form, then `evaluate_expression`
    -- returns a value on every assignment of the variables that is completed by the parameters, and
    -- that value is the constant of the form plus each coefficient times the value of its variable.
    pub evaluate-linearize :
        (e : MathExpression N.Num) {l : LinearForm N.Num}
        → linearize N variables parameters e ≡ ok l
        → evaluate N e (assignment variables parameters env) ≡ ok (meaning N env l)
    evaluate-linearize e h = value-linearize e h
