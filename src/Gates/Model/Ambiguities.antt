-- ===== src/Gates/Model/Ambiguities.antt =====
-- The ambiguities and the assumptions in `model_quality_gate` of
-- src/mathmodel_ai/mathematical/quality_gates.py, against what it takes to settle them.
use math_model_ai.Base.{
  ◌≡◌, ◌↔◌, inl, inr, refl, sym, ap, ◌∙◌, ◌≤◌, String, Bool, true, false, not, ◌&&◌, ◌||◌, Option,
  none, some, List, [], ◌∷◌, ◌++◌, all, all-mem, all_iff, All, keep, contains, contains-mem,
  is_empty, is_some, leb, leb→le, unique_from, string_eq, Bool-cases, &&-eq-true, arith,
}
use math_model_ai.Base.Dict
use math_model_ai.Model.{ModelAssumption, InterpretationResolution, MathematicalModel}
use math_model_ai.Problem.{SubProblem, Ambiguity, ProblemState}
use math_model_ai.Gates.Model.{
  is_settling, has_evidence, is_resolved, matters, resolution_id, ambiguity_key, targeted_refs,
  unsupported, is_unresolved, unresolved_critical,
}

module _ {A : Type 0} (m : MathematicalModel A) (state : ProblemState) where
  -- The model's resolution of an ambiguity and the ambiguity itself: the last with the identifier.
  abbrev pub resolution : String → Option InterpretationResolution
  resolution id = Dict.lookup id (Dict.index_by resolution_id m.interpretation_resolutions)

  abbrev pub ambiguity : String → Option Ambiguity
  ambiguity id = Dict.lookup id (Dict.index_by ambiguity_key state.ambiguities)

  -- Three ways to settle an ambiguity.
  pub data IsSettled (id : String) : Type 0 where
    not_critical :
        (r : InterpretationResolution) → resolution id ≡ some r → r.critical ≡ false → IsSettled id
    by_evidence :
        (a : Ambiguity)
        → ambiguity id ≡ some a
        → is_some a.preferred_interpretation_id ≡ true
        → 700000 ≤ a.confidence
        → IsSettled id
    by_resolution :
        (r : InterpretationResolution)
        → resolution id ≡ some r
        → is_settling r.status ≡ true
        → is_some r.interpretation_id ≡ true
        → IsSettled id

  IsSettled-of :
      (id : String) (r : Option InterpretationResolution) (a : Option Ambiguity)
      → resolution id ≡ r
      → ambiguity id ≡ a
      → not (matters r && not (has_evidence a || is_resolved r)) ≡ true
      → IsSettled id
  IsSettled-of id none none p q h = cc
  IsSettled-of id none (some a) p q h =
      let found : (is_some a.preferred_interpretation_id && leb 700000 a.confidence) ≡ true =
        ground arith in
      IsSettled.by_evidence a q (&&-eq-true _ _ found).0 (leb→le _ _ (&&-eq-true _ _ found).1)
  IsSettled-of id (some r) a p q h = elim (Bool-cases r.critical) [
    | inr minor ↦ IsSettled.not_critical r p minor
    | inl critical ↦ elim (Bool-cases (has_evidence a)) [
      | inl found ↦ from_evidence a q found
      | inr missing ↦
          let explicit : (is_settling r.status && is_some r.interpretation_id) ≡ true =
            ground arith in
          IsSettled.by_resolution r p (&&-eq-true _ _ explicit).0 (&&-eq-true _ _ explicit).1
    ]
  ]
    where
      from_evidence :
          (b : Option Ambiguity) → ambiguity id ≡ b → has_evidence b ≡ true → IsSettled id
      from_evidence none q found = cc
      from_evidence (some b) q found =
          IsSettled.by_evidence b q (&&-eq-true _ _ found).0 (leb→le _ _ (&&-eq-true _ _ found).1)

  of-IsSettled : (id : String) → IsSettled id → not (is_unresolved m state id) ≡ true
  of-IsSettled id (IsSettled.not_critical r p minor) =
      ap (λ o. not (matters o && not (has_evidence (ambiguity id) || is_resolved o))) p
      ∙ ground arith
  of-IsSettled id (IsSettled.by_evidence a p preferred sure) =
      ap (λ o. not (matters (resolution id) && not (has_evidence o || is_resolved (resolution id))))
        p
      ∙ ground arith
  of-IsSettled id (IsSettled.by_resolution r p final chosen) =
      ap (λ o. not (matters o && not (has_evidence (ambiguity id) || is_resolved o))) p
      ∙ ground arith

  IsSettled-iff : (id : String) → (not (is_unresolved m state id) ≡ true) ↔ IsSettled id
  IsSettled-iff id =
      (λ h. IsSettled-of id (resolution id) (ambiguity id) refl refl h, λ h. of-IsSettled id h)

keep-is_empty :
    {B : Type 0} (p : B → Bool) (xs : List B) → is_empty (keep p xs) ≡ all (λ x. not (p x)) xs
keep-is_empty p [] = refl
keep-is_empty p (x ∷ xs) = ground (arith, keep-is_empty p xs)

all-append :
    {B : Type 0} (p : B → Bool) (xs ys : List B) → all p (xs ++ ys) ≡ (all p xs && all p ys)
all-append p [] ys = refl
all-append p (x ∷ xs) ys = ground (arith, all-append p xs ys)

all-unique_from :
    (p : String → Bool) (seen xs : List String)
    → all p seen ≡ true
    → all p (unique_from seen xs) ≡ all p xs
unfolding unique_from
all-unique_from p seen [] h = refl
all-unique_from p seen (x ∷ xs) h = elim (Bool-cases (contains x seen)) [
  | inl old ↦
      let good : p x ≡ true = all-mem p seen h (contains-mem x seen old) in
      rw (old, unique_from) (ground (arith, all-unique_from p seen xs h))
  | inr new ↦ elim (Bool-cases (p x)) [
    | inl good ↦
        rw (new, unique_from) (ground (arith, all-unique_from p (x ∷ seen) xs (ground arith)))
    | inr bad ↦ rw (new, unique_from) (ground arith)
  ]
]

module _ {A : Type 0} (m : MathematicalModel A) (state : ProblemState) where
  -- The ambiguities that a targeted subproblem names are settled.
  abbrev pub SettlesRefs : SubProblem → Type 0
  SettlesRefs s =
      contains s.subproblem_id m.target_subproblems ≡ true
      → All (IsSettled m state) s.ambiguity_refs

  abbrev good : String → Bool
  good id = not (is_unresolved m state id)

  each-ref :
      (s : SubProblem)
      → ((not (contains s.subproblem_id m.target_subproblems) || all good s.ambiguity_refs) ≡ true)
        ↔ SettlesRefs s
  each-ref s =
      let every = all_iff good (IsSettled m state) (IsSettled-iff m state) s.ambiguity_refs in
      elim (Bool-cases (contains s.subproblem_id m.target_subproblems)) [
        | inl target ↦ (λ h. λ t. every.0 (ground arith), λ h. ground (arith, every.1 (h target)))
        | inr other ↦ (λ h. λ t. cc (sym t ∙ other), λ h. ground arith)
      ]

  all-targeted_refs :
      (ss : List SubProblem)
      → all good (targeted_refs m.target_subproblems ss)
        ≡ all
            (λ (s : SubProblem).
              not (contains s.subproblem_id m.target_subproblems) || all good s.ambiguity_refs)
            ss
  all-targeted_refs [] = refl
  all-targeted_refs (s ∷ ss) = elim (Bool-cases (contains s.subproblem_id m.target_subproblems)) [
    | inl target ↦ rw target (
        ground (
          arith,
          all-append good s.ambiguity_refs (targeted_refs m.target_subproblems ss),
          all-targeted_refs ss,
        ))
    | inr other ↦ rw other (ground (arith, all-targeted_refs ss))
  ]

  pub unresolved_critical_iff :
      (is_empty (unresolved_critical m state) ≡ true) ↔ All SettlesRefs state.subproblems
  unfolding unresolved_critical
  unresolved_critical_iff =
      let every = all_iff _ SettlesRefs each-ref state.subproblems in
      let refs = targeted_refs m.target_subproblems state.subproblems in
      let same =
        keep-is_empty (is_unresolved m state) (unique_from [] refs)
        ∙ all-unique_from good [] refs refl
        ∙ all-targeted_refs state.subproblems in
      (λ h. every.0 (sym same ∙ h), λ h. same ∙ every.1 h)

abbrev pub IsSupported : ModelAssumption → Type 0
IsSupported a = a.critical ≡ true → a.supported ≡ true

abbrev assumption_ok : ModelAssumption → Bool
assumption_ok a = not (a.critical && not a.supported)

unsupported-is_empty :
    (xs : List ModelAssumption) → is_empty (unsupported xs) ≡ all assumption_ok xs
unsupported-is_empty [] = refl
unsupported-is_empty (a ∷ rest) = ground (arith, unsupported-is_empty rest)

assumption_ok_iff : (a : ModelAssumption) → (assumption_ok a ≡ true) ↔ IsSupported a
assumption_ok_iff a = elim (Bool-cases a.critical) [
  | inl critical ↦ (λ h. λ c. ground arith, λ h. ground (arith, h critical))
  | inr minor ↦ (λ h. λ c. cc (sym c ∙ minor), λ h. ground arith)
]

pub unsupported_iff :
    (xs : List ModelAssumption) → (is_empty (unsupported xs) ≡ true) ↔ All IsSupported xs
unsupported_iff xs =
    let every = all_iff assumption_ok IsSupported assumption_ok_iff xs in
    (λ h. every.0 (sym (unsupported-is_empty xs) ∙ h), λ h. unsupported-is_empty xs ∙ every.1 h)
