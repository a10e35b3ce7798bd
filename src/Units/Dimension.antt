-- ===== src/Units/Dimension.antt =====
-- The rules of dimensional analysis, apart from any checker: which dimension an expression has, as an
-- exponent for each base dimension.
use math_model_ai.Base.{String, true, Option, some, ◌≡◌}
use math_model_ai.Base.Int.{ℤ, pos, ◌+ℤ◌, ◌-ℤ◌, ◌*ℤ◌}
use math_model_ai.Expression.Syntax.{MathExpression, Operands}
use math_model_ai.Model.{BaseDimension, UnitExpression, is_known}
use math_model_ai.Units.Types.{Floats}
use math_model_ai.Units.Algebra.Laws.{exponent}

abbrev pub Dimension : Type 0
Dimension = BaseDimension → ℤ

module _ (F : Floats) (symbols : String → Option (Option (UnitExpression F.Num))) where
  mutual
    pub data HasDimension : MathExpression F.Num → Dimension → Type 0 where
      constant :
          {v : F.Num} {δ : Dimension}
          → ((d : BaseDimension) → δ d ≡ pos 0)
          → HasDimension (MathExpression.constant v) δ
      symbol :
          {s : String} {u : UnitExpression F.Num} {δ : Dimension}
          → symbols s ≡ some (some u)
          → is_known u ≡ true
          → ((d : BaseDimension) → δ d ≡ exponent u d)
          → HasDimension (MathExpression.symbol s) δ
      add :
          {e : MathExpression F.Num} {es : Operands F.Num} {δ : Dimension}
          → HasDimension e δ
          → AllHave es δ
          → HasDimension (MathExpression.add (Operands.operand e es)) δ
      subtract :
          {a b : MathExpression F.Num} {δ : Dimension}
          → HasDimension a δ
          → HasDimension b δ
          → HasDimension (MathExpression.subtract a b) δ
      multiply :
          {es : Operands F.Num} {δ : Dimension}
          → ProductHas es δ
          → HasDimension (MathExpression.multiply es) δ
      divide :
          {a b : MathExpression F.Num} {α β δ : Dimension}
          → HasDimension a α
          → HasDimension b β
          → ((d : BaseDimension) → δ d ≡ α d -ℤ β d)
          → HasDimension (MathExpression.divide a b) δ
      power :
          {a : MathExpression F.Num} {v : F.Num} {n : ℤ} {α δ : Dimension}
          → HasDimension a α
          → F.as_integer v ≡ some n
          → ((d : BaseDimension) → δ d ≡ α d *ℤ n)
          → HasDimension (MathExpression.power a (MathExpression.constant v)) δ
      pure_power :
          {a b : MathExpression F.Num} {α β δ : Dimension}
          → HasDimension a α
          → HasDimension b β
          → ((d : BaseDimension) → (α d ≡ pos 0) × (β d ≡ pos 0) × (δ d ≡ pos 0))
          → HasDimension (MathExpression.power a b) δ
      negate :
          {a : MathExpression F.Num} {δ : Dimension}
          → HasDimension a δ
          → HasDimension (MathExpression.negate a) δ

    -- Each operand has the dimension.
    pub data AllHave : Operands F.Num → Dimension → Type 0 where
      end : {δ : Dimension} → AllHave Operands.end δ
      operand :
          {e : MathExpression F.Num} {es : Operands F.Num} {δ : Dimension}
          → HasDimension e δ
          → AllHave es δ
          → AllHave (Operands.operand e es) δ

    -- The dimensions of the operands add up.
    pub data ProductHas : Operands F.Num → Dimension → Type 0 where
      one : {δ : Dimension} → ((d : BaseDimension) → δ d ≡ pos 0) → ProductHas Operands.end δ
      times :
          {e : MathExpression F.Num} {es : Operands F.Num} {α β δ : Dimension}
          → HasDimension e α
          → ProductHas es β
          → ((d : BaseDimension) → δ d ≡ α d +ℤ β d)
          → ProductHas (Operands.operand e es) δ
