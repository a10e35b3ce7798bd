-- ===== src/Solvers/Size/Budget.antt =====
-- The time that a solver is given, `_runtime_budget` of src/mathmodel_ai/solvers/router.py.
use mathlib.Core.Option.{some-injective}
use math_model_ai.Base.{
  ℕ, min, ◌≤◌, ◌≡◌, refl, sym, ap, subst, ◌⊎◌, inl, inr, Bool, true, false, Option, none, some,
  List, [], ◌∷◌, Memᴰ, arith, leb, leb→le, if◌then◌else◌, mem-append-cases, mem-append_left,
  mem-append_right,
}
use math_model_ai.Base.Dict.{Dict}
use math_model_ai.Model.{MathematicalModel}
use math_model_ai.Solvers.Types.{SolverOptions}
use math_model_ai.Solvers.Size.{
  least, option_list, reached_caps, time_limits, runtime_budget, resolve_options,
}

-- `t` is the least of the numbers, and one of them.
abbrev IsLeast : List ℕ → Option ℕ → Type 0
IsLeast ns none = ns ≡ []
IsLeast ns (some t) = Memᴰ t ns × ((n : ℕ) → Memᴰ n ns → t ≤ n)

min_one : (a b : ℕ) → (min a b ≡ a) ⊎ (min a b ≡ b)
min_one a b = ground arith

least-IsLeast : (ns : List ℕ) → IsLeast ns (least ns)
least-IsLeast [] = refl
least-IsLeast (n ∷ ns) = with_head (least ns) (least-IsLeast ns)
  where
    with_head :
        (o : Option ℕ)
        → IsLeast ns o
        → IsLeast (n ∷ ns) (elim o [ none ↦ some n | some m ↦ some (min n m) ])
    with_head none is = (Memᴰ.head refl, only)
      where
        only : (k : ℕ) → Memᴰ k (n ∷ ns) → n ≤ k
        only k (Memᴰ.head e) = ground arith
        only k (Memᴰ.tail m) = elim (subst (λ l. Memᴰ k l) is m) [ ]
    with_head (some t) (here, below) = (
      elim (min_one n t) [
        | inl e ↦ Memᴰ.head e
        | inr e ↦ Memᴰ.tail (subst (λ k. Memᴰ k ns) (sym e) here)
      ],
      all_above,
    )
      where
        all_above : (k : ℕ) → Memᴰ k (n ∷ ns) → min n t ≤ k
        all_above k (Memᴰ.head e) = ground arith
        all_above k (Memᴰ.tail m) = let b = below k m in ground arith

module _ {A : Type 0} (caps : Dict ℕ ℕ) (m : MathematicalModel A) (options : SolverOptions) where
  -- A limit on the time: the one of the options, the one of the model's requirements, or the cap of a pressure
  -- that the pressure of the deadline reaches.
  pub data IsLimit (limit : ℕ) : Type 0 where
    of_options : options.time_limit ≡ some limit → IsLimit limit
    of_model : m.solver_requirements.maximum_runtime ≡ some limit → IsLimit limit
    of_deadline :
        (pressure : ℕ)
        → Memᴰ (pressure, limit) caps
        → pressure ≤ options.deadline_pressure
        → IsLimit limit

  -- The time is one of the limits and the least of them, and is not limited where there is no limit.
  abbrev pub IsLeastLimit : Option ℕ → Type 0
  IsLeastLimit none = (n : ℕ) → ¬ (IsLimit n)
  IsLeastLimit (some t) = IsLimit t × ((n : ℕ) → IsLimit n → t ≤ n)

mem-option_list : (o : Option ℕ) {n : ℕ} → o ≡ some n → Memᴰ n (option_list o)
mem-option_list none e = cc
mem-option_list (some k) {n} e = Memᴰ.head (sym (some-injective k n e))

option_list-mem : (o : Option ℕ) {n : ℕ} → Memᴰ n (option_list o) → o ≡ some n
option_list-mem none h = elim h [ ]
option_list-mem (some k) (Memᴰ.head e) = ap some (sym e)
option_list-mem (some k) (Memᴰ.tail h) = elim h [ ]

leb-of_le : (a b : ℕ) → a ≤ b → leb a b ≡ true
leb-of_le a b h = ground arith

mem-reached_caps :
    (reached : ℕ) (caps : Dict ℕ ℕ) {pressure n : ℕ}
    → Memᴰ (pressure, n) caps
    → pressure ≤ reached
    → Memᴰ n (reached_caps reached caps)
mem-reached_caps reached [] m h = elim m [ ]
mem-reached_caps reached ((p, time) ∷ caps) {pressure} {n} (Memᴰ.head e) h =
    rw (leb-of_le p reached (subst (λ k. k ≤ reached) (ap (λ (x : ℕ × ℕ). x.0) e) h))
      (Memᴰ.head (ap (λ (x : ℕ × ℕ). x.1) e))
mem-reached_caps reached ((p, time) ∷ caps) {pressure} {n} (Memᴰ.tail there) h =
    under (leb p reached) (mem-reached_caps reached caps there h)
  where
    under :
        (test : Bool)
        → Memᴰ n (reached_caps reached caps)
        → Memᴰ n (if test then time ∷ reached_caps reached caps else reached_caps reached caps)
    under true rest = Memᴰ.tail rest
    under false rest = rest

reached_caps-mem :
    (reached : ℕ) (caps : Dict ℕ ℕ) {n : ℕ}
    → Memᴰ n (reached_caps reached caps)
    → (pressure : ℕ) × Memᴰ (pressure, n) caps × (pressure ≤ reached)
reached_caps-mem reached [] h = elim h [ ]
reached_caps-mem reached ((p, time) ∷ caps) {n} h =
    under (λ g. reached_caps-mem reached caps g) (leb p reached) refl h
  where
    later :
        (pressure : ℕ) × Memᴰ (pressure, n) caps × (pressure ≤ reached)
        → (pressure : ℕ) × Memᴰ (pressure, n) ((p, time) ∷ caps) × (pressure ≤ reached)
    later (pressure, there, low) = (pressure, Memᴰ.tail there, low)

    under :
        (Memᴰ n (reached_caps reached caps)
          → (pressure : ℕ) × Memᴰ (pressure, n) caps × (pressure ≤ reached))
        → (test : Bool) → leb p reached ≡ test
        → Memᴰ n (if test then time ∷ reached_caps reached caps else reached_caps reached caps)
        → (pressure : ℕ) × Memᴰ (pressure, n) ((p, time) ∷ caps) × (pressure ≤ reached)
    under ih true low (Memᴰ.head e) = (p, Memᴰ.head (ap (λ k. (p, k)) e), leb→le p reached low)
    under ih true low (Memᴰ.tail g) = later (ih g)
    under ih false high g = later (ih g)

module _ {A : Type 0} (caps : Dict ℕ ℕ) (m : MathematicalModel A) (options : SolverOptions) where
  IsLimit-mem : {n : ℕ} → IsLimit caps m options n → Memᴰ n (time_limits caps m options)
  IsLimit-mem (IsLimit.of_options e) = mem-append_left _ _ (mem-option_list options.time_limit e)
  IsLimit-mem (IsLimit.of_model e) =
      mem-append_right (option_list options.time_limit) _
        (mem-append_left _ _ (mem-option_list m.solver_requirements.maximum_runtime e))
  IsLimit-mem (IsLimit.of_deadline pressure there low) =
      mem-append_right (option_list options.time_limit) _ (
        mem-append_right (option_list m.solver_requirements.maximum_runtime) _
          (mem-reached_caps options.deadline_pressure caps there low))

  mem-IsLimit : {n : ℕ} → Memᴰ n (time_limits caps m options) → IsLimit caps m options n
  mem-IsLimit h = elim (mem-append-cases (option_list options.time_limit) _ h) [
    | inl here ↦ IsLimit.of_options (option_list-mem options.time_limit here)
    | inr rest ↦
        elim (mem-append-cases (option_list m.solver_requirements.maximum_runtime) _ rest) [
          | inl here ↦ IsLimit.of_model (option_list-mem m.solver_requirements.maximum_runtime here)
          | inr time ↦
              let (pressure, there, low) = reached_caps-mem options.deadline_pressure caps time in
              IsLimit.of_deadline pressure there low
        ]
  ]

  -- The time limit of the options that the solver gets is the least of these limits: the time limit of the options,
  -- the maximum runtime of the model's solver requirements, and the caps of all pressures up to the pressure of the
  -- deadline. There is no time limit exactly when none of these is given.
  pub resolve_options-least :
      IsLeastLimit caps m options (resolve_options caps m options).time_limit
  unfolding runtime_budget
  resolve_options-least =
      by_least (least (time_limits caps m options)) (least-IsLeast (time_limits caps m options))
    where
      by_least :
          (o : Option ℕ) → IsLeast (time_limits caps m options) o → IsLeastLimit caps m options o
      by_least none is = λ n. λ l. elim (subst (λ ns. Memᴰ n ns) is (IsLimit-mem l)) [ ]
      by_least (some t) (one, below) = (mem-IsLimit one, λ n. λ l. below n (IsLimit-mem l))
