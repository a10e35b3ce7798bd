-- ===== src/Expression/Linear/Meaning.antt =====
-- The number that a linear form stands for, and what its operations do to it in exact arithmetic.
use math_model_ai.Base.{
  ◌≡◌, refl, sym, ap, ◌∙◌, inl, inr, String, Bool, true, false, [], ◌∷◌, ◌==◌, string_eq, ==→≡,
  Bool-cases, if◌then◌else◌, ok, raise, ok-injective, is_empty, not, ◌&&◌, ap₂,
}
use math_model_ai.Base.Dict
use math_model_ai.Base.Dict.{Dict}
use math_model_ai.Expression.Arithmetic.{Arithmetic, IsExact}
use math_model_ai.Expression.Syntax.{nonlinear_product}
use math_model_ai.Expression.Linear.{
  LinearForm, merge, drop_nil, times, plus, scaled, is_symbolic, multiply_by,
}

module _ (N : Arithmetic) (env : String → N.Num) where
  abbrev pub terms : Dict String N.Num → N.Num
  terms [] = N.nil
  terms ((s, v) ∷ d) = N.add (N.mul v (env s)) (terms d)

  -- The constant, and each coefficient times the value of its symbol.
  abbrev pub meaning : LinearForm N.Num → N.Num
  meaning l = N.add l.constant (terms l.coefficients)

module _ (N : Arithmetic) (L : IsExact N) (env : String → N.Num) where
  nil_add : (a : N.Num) → N.add N.nil a ≡ a
  nil_add a = L.add_comm N.nil a ∙ L.add_nil a

  add_left_comm : (a b c : N.Num) → N.add a (N.add b c) ≡ N.add b (N.add a c)
  add_left_comm a b c =
      sym (L.add_assoc a b c) ∙ ap (λ x. N.add x c) (L.add_comm a b) ∙ L.add_assoc b a c

  add_swap : (a b c d : N.Num) → N.add (N.add a b) (N.add c d) ≡ N.add (N.add a c) (N.add b d)
  add_swap a b c d =
      L.add_assoc a b (N.add c d)
      ∙ ap (λ x. N.add a x) (add_left_comm b c d)
      ∙ sym (L.add_assoc a c (N.add b d))

  terms-insert :
      (s : String) (v : N.Num) (d : Dict String N.Num)
      → terms N env (Dict.insert s (N.add (Dict.get_or s N.nil d) v) d)
        ≡ N.add (terms N env d) (N.mul v (env s))
  terms-insert s v [] =
      ap (λ x. N.add (N.mul x (env s)) N.nil) (nil_add v) ∙ L.add_comm (N.mul v (env s)) N.nil
  terms-insert s v ((j, w) ∷ d) = elim (Bool-cases (s == j)) [
    | inl same ↦ rw same (
        ap (λ g. N.add (N.mul (N.add g v) (env j)) (terms N env d))
          (Dict.get_or-same s j w N.nil d same)
        ∙ ap (λ x. N.add x (terms N env d)) (L.mul_add w v (env j))
        ∙ L.add_assoc (N.mul w (env j)) (N.mul v (env j)) (terms N env d)
        ∙ ap (λ x. N.add (N.mul w (env j)) x) (L.add_comm (N.mul v (env j)) (terms N env d))
        ∙ sym (L.add_assoc (N.mul w (env j)) (terms N env d) (N.mul v (env j)))
        ∙ ap (λ t. N.add (N.add (N.mul w (env j)) (terms N env d)) (N.mul v (env t)))
            (sym (==→≡ s j same)))
    | inr other ↦ rw other (
        ap (λ g. N.add (N.mul w (env j)) (terms N env (Dict.insert s (N.add g v) d)))
          (Dict.get_or-other s j w N.nil d other)
        ∙ ap (λ x. N.add (N.mul w (env j)) x) (terms-insert s v d)
        ∙ sym (L.add_assoc (N.mul w (env j)) (terms N env d) (N.mul v (env s))))
  ]

  terms-merge :
      (d other : Dict String N.Num)
      → terms N env (merge N d other) ≡ N.add (terms N env d) (terms N env other)
  unfolding merge
  terms-merge d [] = sym (L.add_nil (terms N env d))
  terms-merge d ((s, v) ∷ other) =
      terms-merge (Dict.insert s (N.add (Dict.get_or s N.nil d) v) d) other
      ∙ ap (λ x. N.add x (terms N env other)) (terms-insert s v d)
      ∙ L.add_assoc (terms N env d) (N.mul v (env s)) (terms N env other)

  nil_mul : (a b : N.Num) → a ≡ N.nil → N.mul a b ≡ N.nil
  nil_mul a b h = ap (λ x. N.mul x b) h ∙ L.mul_comm N.nil b ∙ L.mul_nil b

  terms-drop_nil : (d : Dict String N.Num) → terms N env (drop_nil N d) ≡ terms N env d
  unfolding drop_nil
  terms-drop_nil [] = refl
  terms-drop_nil ((s, v) ∷ d) = elim (Bool-cases (N.is_nil v)) [
    | inl empty ↦ rw empty (
        terms-drop_nil d
        ∙ sym (nil_add (terms N env d))
        ∙ ap (λ x. N.add x (terms N env d)) (sym (nil_mul v (env s) ((L.is_nil_iff v).0 empty))))
    | inr full ↦ rw full (ap (λ x. N.add (N.mul v (env s)) x) (terms-drop_nil d))
  ]

  mul_right_comm : (a b c : N.Num) → N.mul (N.mul a b) c ≡ N.mul (N.mul a c) b
  mul_right_comm a b c =
      L.mul_assoc a b c ∙ ap (λ x. N.mul a x) (L.mul_comm b c) ∙ sym (L.mul_assoc a c b)

  terms-times :
      (f : N.Num) (d : Dict String N.Num) → terms N env (times N f d) ≡ N.mul (terms N env d) f
  unfolding times
  terms-times f [] = sym (nil_mul N.nil f refl)
  terms-times f ((s, v) ∷ d) =
      ap₂ N.add (mul_right_comm v f (env s)) (terms-times f d)
      ∙ sym (L.mul_add (N.mul v (env s)) (terms N env d) f)

  pub meaning-plus :
      (l r : LinearForm N.Num)
      → meaning N env (plus N l r) ≡ N.add (meaning N env l) (meaning N env r)
  unfolding plus
  meaning-plus l r =
      ap (λ x. N.add (N.add l.constant r.constant) x)
        (terms-drop_nil (merge N l.coefficients r.coefficients)
          ∙ terms-merge l.coefficients r.coefficients)
      ∙ add_swap l.constant r.constant (terms N env l.coefficients) (terms N env r.coefficients)

  pub meaning-scaled :
      (l : LinearForm N.Num) (f : N.Num) → meaning N env (scaled N l f) ≡ N.mul (meaning N env l) f
  unfolding scaled
  meaning-scaled l f =
      ap (λ x. N.add (N.mul l.constant f) x) (terms-times f l.coefficients)
      ∙ sym (L.mul_add l.constant (terms N env l.coefficients) f)

  -- A form without coefficients stands for its constant.
  pub meaning-constant :
      (l : LinearForm N.Num) → is_symbolic N l ≡ false → meaning N env l ≡ l.constant
  meaning-constant l h = by_terms l.coefficients h
    where
      by_terms :
          (d : Dict String N.Num)
          → not (is_empty d) ≡ false
          → N.add l.constant (terms N env d) ≡ l.constant
      by_terms [] g = L.add_nil l.constant
      by_terms (x ∷ d) g = cc

  pub meaning-multiply_by :
      (l r : LinearForm N.Num) {f : LinearForm N.Num}
      → multiply_by N l r ≡ ok f
      → meaning N env f ≡ N.mul (meaning N env l) (meaning N env r)
  unfolding multiply_by
  meaning-multiply_by l r {f} h = by_tests (is_symbolic N l) (is_symbolic N r) refl refl h
    where
      by_constant :
          is_symbolic N r ≡ false
          → scaled N l r.constant ≡ f
          → meaning N env f ≡ N.mul (meaning N env l) (meaning N env r)
      by_constant q g =
          ap (meaning N env) (sym g)
          ∙ meaning-scaled l r.constant
          ∙ ap (λ x. N.mul (meaning N env l) x) (sym (meaning-constant r q))

      by_tests :
          (a b : Bool)
          → is_symbolic N l ≡ a
          → is_symbolic N r ≡ b
          → (if a && b
              then raise nonlinear_product
              else if b
              then ok (scaled N r l.constant)
              else ok (scaled N l r.constant))
            ≡ ok f
          → meaning N env f ≡ N.mul (meaning N env l) (meaning N env r)
      by_tests true true p q g = cc
      by_tests false true p q g =
          ap (meaning N env) (sym (ok-injective g))
          ∙ meaning-scaled r l.constant
          ∙ L.mul_comm (meaning N env r) l.constant
          ∙ ap (λ x. N.mul x (meaning N env r)) (sym (meaning-constant l p))
      by_tests true false p q g = by_constant q (ok-injective g)
      by_tests false false p q g = by_constant q (ok-injective g)
