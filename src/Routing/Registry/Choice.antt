-- ===== src/Routing/Registry/Choice.antt =====
-- The loop over the candidates of `_route_registry`, in src/mathmodel_ai/routing/router.py.
use mathlib.Core.Option.{some-injective}
use math_model_ai.Base.{
  ℕ, ◌≡◌, refl, sym, ap, ◌∙◌, subst, ◌⊎◌, inl, inr, String, Option, none, some, List, [], ◌∷◌, ◌++◌,
  Memᴰ, arith, All, mem-keep, mem-append-cases, ◌==◌, string_eq, ==→≡, Bool-cases, Option-cases,
  Raise, ok, raise,
}
use math_model_ai.Base.Sort.{mem-sort_by}
use math_model_ai.Base.Dict
use math_model_ai.Base.Dict.{Dict}
use math_model_ai.Routing.Types.{
  EscalationLevel, TaskProfile, ProviderEndpoint, ModelProfile, CapabilityProbeResult,
  AgentRoutePolicy, Rejection,
}
use math_model_ai.Routing.Eligibility.{Registry, Failure, hard_rejections}
use math_model_ai.Routing.Registry.{
  by_id, by_id_from, known_models, ordered_ids, remaining, candidates, Attempt, refused, chosen,
  judge, judge_at, attempt, choose, Selection,
}

-- A lookup in the dict of the models finds one of them, under its own identifier.
by_id_from-mem :
    (d : Dict String ModelProfile) (ms : List ModelProfile) (k : String) {m : ModelProfile}
    → Dict.lookup k (by_id_from d ms) ≡ some m
    → (Memᴰ m ms × (m.model_id ≡ k)) ⊎ (Dict.lookup k d ≡ some m)
by_id_from-mem d [] k h = inr h
by_id_from-mem d (x ∷ ms) k {m} h = elim (by_id_from-mem (Dict.insert x.model_id x d) ms k h) [
  | inl found ↦ inl (Memᴰ.tail found.0, found.1)
  | inr old ↦ elim (Bool-cases (k == x.model_id)) [
    | inl same ↦
        let is_x : x ≡ m =
          some-injective x m
            (sym (rw same at (Dict.lookup-insert ⦃e = string_eq⦄ k x.model_id x d)) ∙ old) in
        inl (
          Memᴰ.head (sym is_x),
          ap (λ (y : ModelProfile). y.model_id) (sym is_x) ∙ sym (==→≡ _ _ same),
        )
    | inr other ↦
        inr (sym (rw other at (Dict.lookup-insert ⦃e = string_eq⦄ k x.model_id x d)) ∙ old)
  ]
]

pub by_id-mem :
    (ms : List ModelProfile) (k : String) {m : ModelProfile}
    → Dict.lookup k (by_id ms) ≡ some m
    → Memᴰ m ms × (m.model_id ≡ k)
by_id-mem ms k h = elim (by_id_from-mem [] ms k h) [ inl found ↦ found | inr none_there ↦ cc ]

known_models-mem :
    (ms : List ModelProfile) (ks : List String) {m : ModelProfile}
    → Memᴰ m (known_models (by_id ms) ks)
    → Memᴰ m ms
known_models-mem ms [] h = elim h [ ]
known_models-mem ms (k ∷ ks) {m} h =
    by_lookup (known_models-mem ms ks) (Option-cases (Dict.lookup k (by_id ms)))
  where
    at_head :
        (Memᴰ m (known_models (by_id ms) ks) → Memᴰ m ms)
        → (x : ModelProfile) → Memᴰ x ms
        → Memᴰ m (x ∷ known_models (by_id ms) ks)
        → Memᴰ m ms
    at_head ih x there (Memᴰ.head e) = subst (λ y. Memᴰ y ms) (sym e) there
    at_head ih x there (Memᴰ.tail n) = ih n

    by_lookup :
        (Memᴰ m (known_models (by_id ms) ks) → Memᴰ m ms)
        → (Dict.lookup k (by_id ms) ≡ none)
          ⊎ ((x : ModelProfile) × (Dict.lookup k (by_id ms) ≡ some x))
        → Memᴰ m ms
    by_lookup ih (inl absent) = ih (rw (absent, known_models) at h)
    by_lookup ih (inr (x, found)) =
        at_head ih x (by_id-mem ms k found).0 (rw (found, known_models) at h)

remaining-mem :
    (p : TaskProfile) (level : EscalationLevel) (models : List ModelProfile) (ids : List String)
    (policy : Option AgentRoutePolicy) {m : ModelProfile}
    → Memᴰ m (remaining p level models ids policy)
    → Memᴰ m models
unfolding remaining
remaining-mem p level models ids (some policy) h = elim h [ ]
remaining-mem p level models ids none h = (mem-keep _ models (mem-sort_by _ _ h)).0

-- Every candidate is one of the registered models.
pub candidates-mem :
    (p : TaskProfile) (level : EscalationLevel) (models : List ModelProfile)
    (preferred : Option String) (policy : Option AgentRoutePolicy) {m : ModelProfile}
    → Memᴰ m (candidates p level models preferred policy)
    → Memᴰ m models
unfolding candidates
candidates-mem p level models preferred policy h =
    elim (mem-append-cases (known_models (by_id models) (ordered_ids preferred policy)) _ h) [
      | inl ordered ↦ known_models-mem models _ ordered
      | inr other ↦ remaining-mem p level models _ policy other
    ]

module _ (registry : Registry) (now : ℕ) (p : TaskProfile) (level : EscalationLevel) where
  pub attempt-chosen :
      (m : ModelProfile) {e : ProviderEndpoint} {probe : CapabilityProbeResult}
      → attempt registry now p level m ≡ chosen e probe
      → (registry.get_provider m.provider_id ≡ ok e)
        × (hard_rejections registry now m e p level ≡ ok ([], some probe))
  unfolding attempt
  attempt-chosen m {e} {probe} h = by_provider (registry.get_provider m.provider_id) h
    where
      by_answer :
          (x : ProviderEndpoint)
          (answer : Raise Failure (List Rejection × Option CapabilityProbeResult))
          → judge x answer ≡ chosen e probe
          → (x ≡ e) × (answer ≡ ok ([], some probe))
      by_answer x (raise _) g = cc
      by_answer x (ok (r ∷ rs, found)) g = cc
      by_answer x (ok ([], none)) g = cc
      by_answer x (ok ([], some found)) g = ground arith

      by_provider :
          (answer : Raise Failure ProviderEndpoint)
          → judge_at registry now p level m answer ≡ chosen e probe
          → (answer ≡ ok e) × (hard_rejections registry now m e p level ≡ ok ([], some probe))
      by_provider (raise _) g = cc
      by_provider (ok x) g =
          let (same, clean) = by_answer x (hard_rejections registry now m x p level) g in
          (
            ap ok same,
            subst (λ y. hard_rejections registry now m y p level ≡ ok ([], some probe)) same clean,
          )

  abbrev pub Refused : ModelProfile → Type 0
  Refused x = (rs : List Rejection) × (attempt registry now p level x ≡ refused rs)

  -- The candidates before the chosen one were all refused.
  pub choose-some :
      (cs : List ModelProfile) (rejected : Dict String (List Rejection))
      {rejected' : Dict String (List Rejection)} {m : ModelProfile} {e : ProviderEndpoint}
      {probe : CapabilityProbeResult}
      → choose registry now p level cs rejected ≡ (rejected', some (m, e, probe))
      → (before after : List ModelProfile) × (cs ≡ before ++ (m ∷ after))
        × All Refused before
        × (attempt registry now p level m ≡ chosen e probe)
  unfolding choose
  choose-some [] rejected h = cc
  choose-some (c ∷ cs) rejected {rejected'} {m} {e} {probe} h =
      by_attempt (λ r. choose-some cs r) (attempt registry now p level c) refl h
    where
      by_attempt :
          ((r : Dict String (List Rejection))
            → choose registry now p level cs r ≡ (rejected', some (m, e, probe))
            → (before after : List ModelProfile) × (cs ≡ before ++ (m ∷ after))
              × All Refused before
              × (attempt registry now p level m ≡ chosen e probe))
          → (a : Attempt) → attempt registry now p level c ≡ a
          → choose registry now p level (c ∷ cs) rejected ≡ (rejected', some (m, e, probe))
          → (before after : List ModelProfile) × (c ∷ cs ≡ before ++ (m ∷ after))
            × All Refused before
            × (attempt registry now p level m ≡ chosen e probe)
      by_attempt ih (refused rs) same g =
          let (before, after, split, earlier, last) = ih _ (rw (same, choose) at g) in
          (c ∷ before, after, ap (λ xs. c ∷ xs) split, ((rs, same), earlier), last)
      by_attempt ih (chosen x found) same g =
          let k : ◌≡◌ {A = Selection} (rejected, some (c, x, found))
              (rejected', some (m, e, probe)) =
            rw (same, choose) at g in
          let is_m : c ≡ m = ground arith in
          (
            [],
            cs,
            ap (λ y. y ∷ cs) is_m,
            tt,
            subst (λ y. attempt registry now p level y ≡ chosen e probe) is_m (same ∙ ground arith),
          )
