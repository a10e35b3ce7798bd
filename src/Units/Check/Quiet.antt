-- ===== src/Units/Check/Quiet.antt =====
-- What it takes for the checker to raise no issue.
use math_model_ai.Base.{
  ◌≡◌, refl, sym, ◌∙◌, Bool, true, false, not, ◌&&◌, ◌||◌, Option, none, some, List, [], ◌∷◌, ◌++◌,
  any, arith, &&-eq-true, ||-eq-false, String, if◌then◌else◌, is_some,
}
use math_model_ai.Base.Int.{ℤ, pos}
use math_model_ai.Model.{BaseDimension, UnitExpression, is_known, UnitCheckStatus}
use math_model_ai.Units.Types.{Context, UnitIssue}
use math_model_ai.Units.Algebra.{exponent_or, same_dimension, has_no_dimensions}
use math_model_ai.Units.Algebra.Laws.{exponent, all-dimension}
use math_model_ai.Units.Check.{is_fail, is_unknown, status_from_issues, compare_units}

abbrev pub is_trouble : UnitIssue → Bool
is_trouble i = is_fail i.status || is_unknown i.status

-- No issue fails or is unknown.
abbrev pub Quiet : List UnitIssue → Type 0
Quiet issues = any is_trouble issues ≡ false

any-append :
    (xs ys : List UnitIssue) → any is_trouble (xs ++ ys) ≡ (any is_trouble xs || any is_trouble ys)
any-append [] ys = refl
any-append (x ∷ xs) ys = ground (arith, any-append xs ys)

pub Quiet-append : (xs ys : List UnitIssue) → Quiet (xs ++ ys) → Quiet xs × Quiet ys
Quiet-append xs ys h = ||-eq-false _ _ (sym (any-append xs ys) ∙ h)

pub append-Quiet : (xs ys : List UnitIssue) → Quiet xs → Quiet ys → Quiet (xs ++ ys)
append-Quiet xs ys h k = any-append xs ys ∙ rw (h, k)

pub status_from_issues_pass :
    (issues : List UnitIssue) → status_from_issues issues ≡ UnitCheckStatus.pass → Quiet issues
unfolding status_from_issues
status_from_issues_pass issues h = both issues (ground arith) (ground arith)
  where
    both :
        (xs : List UnitIssue)
        → any (λ (i : UnitIssue). is_fail i.status) xs ≡ false
        → any (λ (i : UnitIssue). is_unknown i.status) xs ≡ false
        → Quiet xs
    both [] f u = refl
    both (x ∷ xs) f u =
        let (f1, f2) = ||-eq-false (is_fail x.status) _ f in
        let (u1, u2) = ||-eq-false (is_unknown x.status) _ u in rw (f1, u1, both xs f2 u2)

-- A test that must hold, or else there is an issue.
required :
    (test : Bool) (issue : UnitIssue) (found : List UnitIssue)
    → is_trouble issue ≡ true
    → Quiet (if not test then issue ∷ [] else found)
    → (test ≡ true) × Quiet found
required true issue found trouble h = (refl, h)
required false issue found trouble h = absurd (ground arith)

-- A comparison raises no issue only between known units of one dimension.
pub compare_units-Quiet :
    {A : Type 0} (l r : UnitExpression A) (reference : String) (context : Context)
    → Quiet (compare_units l r reference context)
    → (is_known l ≡ true) × (is_known r ≡ true) × (same_dimension l r ≡ true)
unfolding compare_units
compare_units-Quiet l r reference context h =
    let (known, rest) = required (is_known l && is_known r) _ _ refl h in
    let (same, _) = required (same_dimension l r) _ _ refl rest in
    let (a, b) = &&-eq-true _ _ known in (a, b, same)

pub no_dimensions-exponent :
    {A : Type 0} (u : UnitExpression A)
    → has_no_dimensions u.dimensions ≡ true
    → (d : BaseDimension) → exponent u d ≡ pos 0
no_dimensions-exponent u h d =
    absent (u.dimensions d) (all-dimension (λ k. not (is_some (u.dimensions k))) h d)
  where
    absent : (e : Option ℤ) → not (is_some e) ≡ true → exponent_or e ≡ pos 0
    absent none g = refl
    absent (some n) g = cc
