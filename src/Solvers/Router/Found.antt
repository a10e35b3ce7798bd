-- ===== src/Solvers/Router/Found.antt =====
-- What the loop over the preference collects, in `route` of src/mathmodel_ai/solvers/router.py.
use math_model_ai.Base.{
  ℕ, ◌+◌, ◌≡◌, refl, sym, subst, List, [], ◌∷◌, Memᴰ, ◌⊎◌, inl, inr, ok, >>=-eq-ok, ok-injective,
}
use math_model_ai.Base.Dict.{Dict}
use math_model_ai.Model.{MathematicalModel}
use math_model_ai.Solvers.Types.{
  SolverFamily, SolverCapability, SolverOptions, ProblemSizeThresholds, RejectionReason,
  SolverHardRejection, SolverScore, BaseSolver,
}
use math_model_ai.Solvers.Router.{
  Assessment, rejected, passed, assess_family, filter_families, add_assessment, score_of,
}

module _ {A : Type 0} (by_family : Dict SolverFamily (BaseSolver A))
    (thresholds : ProblemSizeThresholds) (caps : Dict ℕ ℕ) (m : MathematicalModel A)
    (options : SolverOptions) (required : List SolverCapability) where
  abbrev pub Findings : Type 0
  Findings = List SolverScore × List SolverHardRejection

  -- A score is of a family that passed.
  pub record Scored (fs : List SolverFamily) (s : SolverScore) : Type 0 where
    pub preferred : Memᴰ s.family fs
    pub passes : assess_family by_family thresholds caps m required s.family ≡ ok (passed s.solver)

  -- A family that passed has a score.
  pub record HasScore (scores : List SolverScore) (f : SolverFamily) : Type 0 where
    pub score : SolverScore
    pub scored : Memᴰ score scores
    pub of_family : score.family ≡ f

  -- A family that was rejected is recorded with its reason.
  pub record IsRejected (rejections : List SolverHardRejection) (f : SolverFamily) : Type 0 where
    pub reason : RejectionReason
    pub fails : assess_family by_family thresholds caps m required f ≡ ok (rejected reason)
    pub recorded : Memᴰ (record { family = f; reason = reason }) rejections

  preferred_later :
      (f : SolverFamily) (fs : List SolverFamily) (s : SolverScore)
      → Scored fs s
      → Scored (f ∷ fs) s
  preferred_later f fs s scored = record {
    preferred = Memᴰ.tail scored.preferred;
    passes = scored.passes;
  }

  -- The scores after one turn of the loop are of the families that it has passed.
  add_assessment-Scored :
      (total index : ℕ) (f : SolverFamily) (fs : List SolverFamily) (a : Assessment)
      (rest : Findings)
      → assess_family by_family thresholds caps m required f ≡ ok a
      → ((s : SolverScore) → Memᴰ s rest.0 → Scored fs s)
      → (s : SolverScore)
      → Memᴰ s (add_assessment by_family thresholds caps m options total index f a rest).0
      → Scored (f ∷ fs) s
  unfolding add_assessment
  add_assessment-Scored total index f fs (rejected reason) rest is ih s member =
      preferred_later f fs s (ih s member)
  add_assessment-Scored total index f fs (passed name) rest is ih s (Memᴰ.head e) =
      subst (Scored (f ∷ fs)) (sym e) (record { preferred = Memᴰ.head refl; passes = is })
  add_assessment-Scored total index f fs (passed name) rest is ih s (Memᴰ.tail n) =
      preferred_later f fs s (ih s n)

  pub filter_families-Scored :
      (total index : ℕ) (fs : List SolverFamily) {found : Findings} {s : SolverScore}
      → filter_families by_family thresholds caps m options required total index fs ≡ ok found
      → Memᴰ s found.0
      → Scored fs s
  unfolding filter_families
  filter_families-Scored total index [] {found} {s} h member =
      elim (subst (λ (x : Findings). Memᴰ s x.0) (sym (ok-injective h)) member) [ ]
  filter_families-Scored total index (f ∷ fs) {found} {s} h member =
      let (a, p, more) = >>=-eq-ok (assess_family by_family thresholds caps m required f) _ h in
      let (rest, q, same) =
        >>=-eq-ok
          (filter_families by_family thresholds caps m options required total (index + 1) fs) _
          more in
      add_assessment-Scored total index f fs a rest p
        (λ t n. filter_families-Scored total (index + 1) fs q n) s
        (subst (λ (x : Findings). Memᴰ s x.0) (sym (ok-injective same)) member)

  -- Each family of the preference is scored or rejected.
  abbrev pub Accounted : Findings → SolverFamily → Type 0
  Accounted found f = HasScore found.0 f ⊎ IsRejected found.1 f

  add_assessment-keeps :
      (total index : ℕ) (f : SolverFamily) (a : Assessment) (rest : Findings) (g : SolverFamily)
      → Accounted rest g
      → Accounted (add_assessment by_family thresholds caps m options total index f a rest) g
  unfolding add_assessment
  add_assessment-keeps total index f (rejected reason) rest g (inl has) = inl has
  add_assessment-keeps total index f (rejected reason) rest g (inr out) =
      inr (record { reason = out.reason; fails = out.fails; recorded = Memᴰ.tail out.recorded })
  add_assessment-keeps total index f (passed name) rest g (inl has) =
      inl (record { score = has.score; scored = Memᴰ.tail has.scored; of_family = has.of_family })
  add_assessment-keeps total index f (passed name) rest g (inr out) = inr out

  add_assessment-records :
      (total index : ℕ) (f : SolverFamily) (a : Assessment) (rest : Findings)
      → assess_family by_family thresholds caps m required f ≡ ok a
      → Accounted (add_assessment by_family thresholds caps m options total index f a rest) f
  unfolding add_assessment
  add_assessment-records total index f (rejected r) rest is =
      inr (record { reason = r; fails = is; recorded = Memᴰ.head refl })
  add_assessment-records total index f (passed name) rest is = inl (record {
    score = record {
      family = f;
      solver = name;
      score = score_of by_family thresholds caps m options total index f name;
    };
    scored = Memᴰ.head refl;
    of_family = refl;
  })

  pub filter_families-Accounted :
      (total index : ℕ) (fs : List SolverFamily) {found : Findings} {g : SolverFamily}
      → filter_families by_family thresholds caps m options required total index fs ≡ ok found
      → Memᴰ g fs
      → Accounted found g
  unfolding filter_families
  filter_families-Accounted total index [] h member = elim member [ ]
  filter_families-Accounted total index (f ∷ fs) {found} {g} h member =
      let (a, p, more) = >>=-eq-ok (assess_family by_family thresholds caps m required f) _ h in
      let (rest, q, same) =
        >>=-eq-ok
          (filter_families by_family thresholds caps m options required total (index + 1) fs) _
          more in
      subst (λ x. Accounted x g) (ok-injective same)
        (by_place a rest p (λ n. filter_families-Accounted total (index + 1) fs q n) member)
    where
      by_place :
          (a : Assessment) (rest : Findings)
          → assess_family by_family thresholds caps m required f ≡ ok a
          → (Memᴰ g fs → Accounted rest g)
          → Memᴰ g (f ∷ fs)
          → Accounted (add_assessment by_family thresholds caps m options total index f a rest) g
      by_place a rest p ih (Memᴰ.head e) =
          subst
            (Accounted (add_assessment by_family thresholds caps m options total index f a rest))
            (sym e) (add_assessment-records total index f a rest p)
      by_place a rest p ih (Memᴰ.tail n) = add_assessment-keeps total index f a rest g (ih n)
