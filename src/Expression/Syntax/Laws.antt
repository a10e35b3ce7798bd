-- ===== src/Expression/Syntax/Laws.antt =====
-- Evaluation and the referenced symbols, of src/mathmodel_ai/mathematical/expressions.py.
use math_model_ai.Base.{◌≡◌, refl, ap, String, Option, List, [], ◌∷◌, ◌++◌, Memᴰ}
use math_model_ai.Expression.Arithmetic.{Arithmetic}
use math_model_ai.Expression.Syntax.{
  MathExpression, constant, symbol, add, subtract, multiply, divide, power, negate, Operands, end,
  operand, referenced_symbols, symbols_of, value_of, evaluate, evaluate_all,
}

left_mem : {a : String} (xs ys : List String) → Memᴰ a xs → Memᴰ a (xs ++ ys)
left_mem [] ys m = elim m [ ]
left_mem (x ∷ xs) ys (Memᴰ.head e) = Memᴰ.head e
left_mem (x ∷ xs) ys (Memᴰ.tail m) = Memᴰ.tail (left_mem xs ys m)

right_mem : {a : String} (xs ys : List String) → Memᴰ a ys → Memᴰ a (xs ++ ys)
right_mem [] ys m = m
right_mem (x ∷ xs) ys m = Memᴰ.tail (right_mem xs ys m)

abbrev Agree : {A : Type 0} → (String → Option A) → (String → Option A) → List String → Type 0
Agree values values' symbols = (s : String) → Memᴰ s symbols → values s ≡ values' s

module _ (N : Arithmetic) (values values' : String → Option N.Num) where
  on_left : (xs ys : List String) → Agree values values' (xs ++ ys) → Agree values values' xs
  on_left xs ys h s m = h s (left_mem xs ys m)

  on_right : (xs ys : List String) → Agree values values' (xs ++ ys) → Agree values values' ys
  on_right xs ys h s m = h s (right_mem xs ys m)

  mutual
    unfolding evaluate referenced_symbols

    congruence :
        (e : MathExpression N.Num)
        → Agree values values' (referenced_symbols e)
        → evaluate N e values ≡ evaluate N e values'
    congruence (constant v) h = refl
    congruence (symbol s) h = ap (value_of N s) (h s (Memᴰ.head refl))
    congruence (add es) h = rw (congruence_all es h)
    congruence (subtract a b) h = rw (
      congruence a (on_left (referenced_symbols a) _ h),
      congruence b (on_right (referenced_symbols a) _ h),
    )
    congruence (multiply es) h = rw (congruence_all es h)
    congruence (divide a b) h = rw (
      congruence a (on_left (referenced_symbols a) _ h),
      congruence b (on_right (referenced_symbols a) _ h),
    )
    congruence (power a b) h = rw (
      congruence a (on_left (referenced_symbols a) _ h),
      congruence b (on_right (referenced_symbols a) _ h),
    )
    congruence (negate a) h = rw (congruence a h)

    congruence_all :
        (es : Operands N.Num)
        → Agree values values' (symbols_of es)
        → evaluate_all N es values ≡ evaluate_all N es values'
    congruence_all end h = refl
    congruence_all (operand e es) h = rw (
      congruence e (on_left (referenced_symbols e) _ h),
      congruence_all es (on_right (referenced_symbols e) _ h),
    )

  -- Two mappings that agree on the referenced symbols of an expression give the same value, or the
  -- same error.
  pub evaluate-referenced_symbols :
      (e : MathExpression N.Num)
      → ((s : String) → Memᴰ s (referenced_symbols e) → values s ≡ values' s)
      → evaluate N e values ≡ evaluate N e values'
  evaluate-referenced_symbols e h = congruence e h
