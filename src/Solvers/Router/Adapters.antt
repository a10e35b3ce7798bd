-- ===== src/Solvers/Router/Adapters.antt =====
-- The adapters that `SolverRouter.__init__` of src/mathmodel_ai/solvers/router.py keeps by family.
use mathlib.Core.Option.{some-injective}
use math_model_ai.Base.{
  ◌≡◌, refl, sym, ◌∙◌, subst, ◌⊎◌, inl, inr, ◌↔◌, Option, none, some, List, [], ◌∷◌, Memᴰ, ◌==◌,
  ==→≡, ==_refl, Bool-cases, true, ok, raise, >>=-eq-ok, ok-injective,
}
use math_model_ai.Base.Dict
use math_model_ai.Base.Dict.{Dict}
use math_model_ai.Solvers.Types.{SolverFamily, family_eq, RouterError, BaseSolver}
use math_model_ai.Solvers.Router.{register_families, register_all, new_router}

abbrev pub Known : Type 0 → Type 0
Known A = Dict SolverFamily (BaseSolver A)

module _ {A : Type 0} where
  -- A family is registered only if it was not.
  register_step :
      (solver : BaseSolver A) (f : SolverFamily) (fs : List SolverFamily) (known : Known A)
      {d : Known A}
      → register_families solver (f ∷ fs) known ≡ ok d
      → (Dict.lookup f known ≡ none)
        × (register_families solver fs (Dict.insert f solver known) ≡ ok d)
  register_step solver f fs known {d} h = by_entry (Dict.lookup f known) refl h
    where
      by_entry :
          (entry : Option (BaseSolver A))
          → Dict.lookup f known ≡ entry
          → (elim entry [
            | some _ ↦ raise (RouterError.duplicate_adapter f)
            | none ↦ register_families solver fs (Dict.insert f solver known)
          ])
            ≡ ok d
          → (Dict.lookup f known ≡ none)
            × (register_families solver fs (Dict.insert f solver known) ≡ ok d)
      by_entry none is g = (is, g)
      by_entry (some _) is g = cc

  -- An entry after a registration is the new one or an old one.
  inserted :
      (g f : SolverFamily) (solver : BaseSolver A) (known : Known A) {s : BaseSolver A}
      → Dict.lookup g (Dict.insert f solver known) ≡ some s
      → ((g ≡ f) × (s ≡ solver)) ⊎ (Dict.lookup g known ≡ some s)
  inserted g f solver known {s} h =
      let e = sym (Dict.lookup-insert ⦃e = family_eq⦄ g f solver known) ∙ h in
      elim (Bool-cases (g == f)) [
        | inl same ↦ inl (==→≡ g f same, sym (some-injective solver s (rw same at e)))
        | inr other ↦ inr (rw other at e)
      ]

  kept_entry :
      (g f : SolverFamily) (solver : BaseSolver A) (known : Known A) {s : BaseSolver A}
      → Dict.lookup f known ≡ none
      → Dict.lookup g known ≡ some s
      → Dict.lookup g (Dict.insert f solver known) ≡ some s
  kept_entry g f solver known {s} free h =
      Dict.lookup-insert ⦃e = family_eq⦄ g f solver known ∙ elim (Bool-cases (g == f)) [
        | inl same ↦
            absurd
              (none_some (sym free ∙ subst (λ k. Dict.lookup k known ≡ some s) (==→≡ g f same) h))
        | inr other ↦ rw other h
      ]
    where
      none_some : ◌≡◌ {A = Option (BaseSolver A)} none (some s) → ⊥
      none_some e = cc

  register_families-lookup :
      (solver : BaseSolver A) (fs : List SolverFamily) (known : Known A) {d : Known A}
      {g : SolverFamily} {s : BaseSolver A}
      → register_families solver fs known ≡ ok d
      → Dict.lookup g d ≡ some s
      → (Memᴰ g fs × (s ≡ solver)) ⊎ (Dict.lookup g known ≡ some s)
  register_families-lookup solver [] known {g = g} {s = s} h there =
      inr (subst (λ x. Dict.lookup g x ≡ some s) (sym (ok-injective h)) there)
  register_families-lookup solver (f ∷ fs) known {g = g} h there =
      let (_, rest) = register_step solver f fs known h in
      elim (register_families-lookup solver fs (Dict.insert f solver known) rest there) [
        | inl found ↦ inl (Memᴰ.tail found.0, found.1)
        | inr before ↦ elim (inserted g f solver known before) [
          | inl new ↦ inl (Memᴰ.head new.0, new.1)
          | inr old ↦ inr old
        ]
      ]

  register_families-keeps :
      (solver : BaseSolver A) (fs : List SolverFamily) (known : Known A) {d : Known A}
      (g : SolverFamily) {s : BaseSolver A}
      → register_families solver fs known ≡ ok d
      → Dict.lookup g known ≡ some s
      → Dict.lookup g d ≡ some s
  register_families-keeps solver [] known g {s = s} h there =
      subst (λ x. Dict.lookup g x ≡ some s) (ok-injective h) there
  register_families-keeps solver (f ∷ fs) known g h there =
      let (free, rest) = register_step solver f fs known h in
      register_families-keeps solver fs (Dict.insert f solver known) g rest
        (kept_entry g f solver known free there)

  register_families-adds :
      (solver : BaseSolver A) (fs : List SolverFamily) (known : Known A) {d : Known A}
      {g : SolverFamily}
      → register_families solver fs known ≡ ok d
      → Memᴰ g fs
      → Dict.lookup g d ≡ some solver
  register_families-adds solver [] known h m = elim m [ ]
  register_families-adds solver (f ∷ fs) known {g = g} h (Memᴰ.head e) =
      let (free, rest) = register_step solver f fs known h in
      register_families-keeps solver fs (Dict.insert f solver known) g rest (
        Dict.lookup-insert ⦃e = family_eq⦄ g f solver known
        ∙ rw (subst (λ k. (g == k) ≡ true) e (==_refl g)) refl)
  register_families-adds solver (f ∷ fs) known h (Memᴰ.tail m) =
      let (free, rest) = register_step solver f fs known h in
      register_families-adds solver fs (Dict.insert f solver known) rest m

  register_all-lookup :
      (solvers : List (BaseSolver A)) (known : Known A) {d : Known A} {g : SolverFamily}
      {s : BaseSolver A}
      → register_all solvers known ≡ ok d
      → Dict.lookup g d ≡ some s
      → (Memᴰ s solvers × Memᴰ g s.families) ⊎ (Dict.lookup g known ≡ some s)
  register_all-lookup [] known {g = g} {s = s} h there =
      inr (subst (λ x. Dict.lookup g x ≡ some s) (sym (ok-injective h)) there)
  register_all-lookup (x ∷ xs) known {g = g} {s = s} h there =
      let (next, p, rest) = >>=-eq-ok (register_families x x.families known) _ h in
      elim (register_all-lookup xs next rest there) [
        | inl found ↦ inl (Memᴰ.tail found.0, found.1)
        | inr before ↦ elim (register_families-lookup x x.families known p before) [
          | inl new ↦
              inl
                (Memᴰ.head new.1, subst (λ (k : BaseSolver A). Memᴰ g k.families) (sym new.1) new.0)
          | inr old ↦ inr old
        ]
      ]

  register_all-keeps :
      (solvers : List (BaseSolver A)) (known : Known A) {d : Known A} (g : SolverFamily)
      {s : BaseSolver A}
      → register_all solvers known ≡ ok d
      → Dict.lookup g known ≡ some s
      → Dict.lookup g d ≡ some s
  register_all-keeps [] known g {s = s} h there =
      subst (λ x. Dict.lookup g x ≡ some s) (ok-injective h) there
  register_all-keeps (x ∷ xs) known g h there =
      let (next, p, rest) = >>=-eq-ok (register_families x x.families known) _ h in
      register_all-keeps xs next g rest (register_families-keeps x x.families known g p there)

  register_all-adds :
      (solvers : List (BaseSolver A)) (known : Known A) {d : Known A} {g : SolverFamily}
      {s : BaseSolver A}
      → register_all solvers known ≡ ok d
      → Memᴰ s solvers
      → Memᴰ g s.families
      → Dict.lookup g d ≡ some s
  register_all-adds [] known h m n = elim m [ ]
  register_all-adds (x ∷ xs) known {g = g} {s = s} h (Memᴰ.head e) n =
      let (next, p, rest) = >>=-eq-ok (register_families x x.families known) _ h in
      register_all-keeps xs next g rest (
        subst (λ k. Dict.lookup g next ≡ some k) (sym e)
          (register_families-adds x x.families known p
            (subst (λ (k : BaseSolver A). Memᴰ g k.families) e n)))
  register_all-adds (x ∷ xs) known h (Memᴰ.tail m) n =
      let (next, p, rest) = >>=-eq-ok (register_families x x.families known) _ h in
      register_all-adds xs next rest m n

  -- If the router is built, then the adapter that it has for a family is exactly the one among the given
  -- adapters that declares the family.
  pub lookup-new_router :
      (solvers : List (BaseSolver A)) (g : SolverFamily) (s : BaseSolver A) {d : Known A}
      → new_router solvers ≡ ok d
      → (Dict.lookup g d ≡ some s) ↔ (Memᴰ s solvers × Memᴰ g s.families)
  unfolding new_router
  lookup-new_router solvers g s h = (
    λ there. elim (register_all-lookup solvers [] h there) [
      | inl found ↦ found
      | inr nowhere ↦ absurd (none_some nowhere)
    ],
    λ both. register_all-adds solvers [] h both.0 both.1,
  )
    where
      none_some : ◌≡◌ {A = Option (BaseSolver A)} none (some s) → ⊥
      none_some e = cc
