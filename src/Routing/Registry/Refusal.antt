-- ===== src/Routing/Registry/Refusal.antt =====
-- The preferred model among the candidates of `_route_registry`, src/mathmodel_ai/routing/router.py.
use mathlib.Core.Option.{some-injective}
use math_model_ai.Base.{
  ℕ, ◌≡◌, ◌≢◌, refl, sym, ap, ◌∙◌, subst, ◌⊎◌, inl, inr, String, true, not, Option, none, some,
  List, [], ◌∷◌, ◌++◌, Memᴰ, arith, mem-keep, mem-append-cases, mem-contains, contains, ◌==◌,
  string_eq, ==→≡, ==_refl, Bool-cases, Option-cases,
}
use math_model_ai.Base.Sort.{mem-sort_by}
use math_model_ai.Base.Dict
use math_model_ai.Base.Dict.{Dict}
use math_model_ai.Routing.Types.{
  EscalationLevel, TaskProfile, ProviderEndpoint, ModelProfile, CapabilityProbeResult,
  AgentRoutePolicy, Rejection,
}
use math_model_ai.Routing.Eligibility.{Registry}
use math_model_ai.Routing.Registry.{
  by_id, known_models, ordered_ids, fallback_ids, remaining, candidates, Attempt, refused, chosen,
  attempt, choose, Selection,
}
use math_model_ai.Routing.Registry.Choice.{by_id-mem}

known_models-lookup :
    (ms : List ModelProfile) (ks : List String) {m : ModelProfile}
    → Memᴰ m (known_models (by_id ms) ks)
    → Dict.lookup m.model_id (by_id ms) ≡ some m
known_models-lookup ms [] h = elim h [ ]
known_models-lookup ms (k ∷ ks) {m} h =
    by_lookup (known_models-lookup ms ks) (Option-cases (Dict.lookup k (by_id ms)))
  where
    at_head :
        (Memᴰ m (known_models (by_id ms) ks) → Dict.lookup m.model_id (by_id ms) ≡ some m)
        → (x : ModelProfile) → Dict.lookup k (by_id ms) ≡ some x
        → Memᴰ m (x ∷ known_models (by_id ms) ks)
        → Dict.lookup m.model_id (by_id ms) ≡ some m
    at_head ih x found (Memᴰ.head e) =
        subst (λ y. Dict.lookup y.model_id (by_id ms) ≡ some y) (sym e)
          (subst (λ j. Dict.lookup j (by_id ms) ≡ some x) (sym (by_id-mem ms k found).1) found)
    at_head ih x found (Memᴰ.tail n) = ih n

    by_lookup :
        (Memᴰ m (known_models (by_id ms) ks) → Dict.lookup m.model_id (by_id ms) ≡ some m)
        → (Dict.lookup k (by_id ms) ≡ none)
          ⊎ ((x : ModelProfile) × (Dict.lookup k (by_id ms) ≡ some x))
        → Dict.lookup m.model_id (by_id ms) ≡ some m
    by_lookup ih (inl absent) = ih (rw (absent, known_models) at h)
    by_lookup ih (inr (x, found)) = at_head ih x found (rw (found, known_models) at h)

module _ (registry : Registry) (now : ℕ) (p : TaskProfile) (level : EscalationLevel) where
  -- What is recorded against a model stays, where every candidate of its name is refused for the same reasons.
  choose-keeps :
      (q : String) (rs : List Rejection) (cs : List ModelProfile)
      (rejected : Dict String (List Rejection))
      → ((x : ModelProfile)
          → Memᴰ x cs
          → x.model_id ≡ q
          → attempt registry now p level x ≡ refused rs)
      → Dict.lookup q rejected ≡ some rs
      → Dict.lookup q (choose registry now p level cs rejected).0 ≡ some rs
  unfolding choose
  choose-keeps q rs [] rejected each h = h
  choose-keeps q rs (c ∷ cs) rejected each h =
      by_attempt (λ r. choose-keeps q rs cs r (λ x. λ m. each x (Memᴰ.tail m)))
        (attempt registry now p level c) refl
    where
      inserted :
          (rs' : List Rejection)
          → attempt registry now p level c ≡ refused rs'
          → Dict.lookup q (Dict.insert c.model_id rs' rejected) ≡ some rs
      inserted rs' same =
          Dict.lookup-insert ⦃e = string_eq⦄ q c.model_id rs' rejected
          ∙ elim (Bool-cases (q == c.model_id)) [
            | inl is_c ↦
                let again : refused rs' ≡ refused rs =
                  sym same ∙ each c (Memᴰ.head refl) (sym (==→≡ q c.model_id is_c)) in
                rw is_c (ground arith)
            | inr other ↦ rw other h
          ]

      by_attempt :
          ((r : Dict String (List Rejection))
            → Dict.lookup q r ≡ some rs
            → Dict.lookup q (choose registry now p level cs r).0 ≡ some rs)
          → (a : Attempt) → attempt registry now p level c ≡ a
          → Dict.lookup q (choose registry now p level (c ∷ cs) rejected).0 ≡ some rs
      by_attempt ih (refused rs') same = rw (same, choose) (ih _ (inserted rs' same))
      by_attempt ih (chosen e probe) same = rw (same, choose) h

  module _ (models : List ModelProfile) (q : String) (policy : Option AgentRoutePolicy)
      {first : ModelProfile} (found : Dict.lookup q (by_id models) ≡ some first) where
    abbrev later : List ModelProfile
    later =
        known_models (by_id models) (fallback_ids policy)
        ++ remaining p level models (ordered_ids (some q) policy) policy

    candidates-first : candidates p level models (some q) policy ≡ first ∷ later
    unfolding candidates
    candidates-first = rw (found, candidates, known_models)

    -- No other candidate has the name of the preferred model.
    later_same : (x : ModelProfile) → Memᴰ x later → x.model_id ≡ q → x ≡ first
    unfolding remaining
    later_same x m e =
        elim (mem-append-cases (known_models (by_id models) (fallback_ids policy)) _ m) [
          | inl ordered ↦ some-injective x first (
              sym (known_models-lookup models (fallback_ids policy) ordered)
              ∙ (ap (λ j. Dict.lookup j (by_id models)) e ∙ found))
          | inr other ↦ not_remaining policy other
        ]
      where
        not_remaining :
            (o : Option AgentRoutePolicy)
            → Memᴰ x (remaining p level models (ordered_ids (some q) o) o)
            → x ≡ first
        not_remaining (some _) h = elim h [ ]
        not_remaining none h =
            let (_, absent) =
              mem-keep (λ (y : ModelProfile). not (contains y.model_id (q ∷ []))) models
                (mem-sort_by _ _ h) in
            let here : contains x.model_id (q ∷ []) ≡ true = mem-contains (q ∷ []) (Memᴰ.head e) in
            cc

    -- If another model than the preferred one is selected, then the preferred one was tried and refused, for the
    -- reasons recorded against it.
    pub preferred-refused :
        {rejected : Dict String (List Rejection)} {m : ModelProfile} {e : ProviderEndpoint}
        {probe : CapabilityProbeResult}
        → choose registry now p level (candidates p level models (some q) policy) []
          ≡ (rejected, some (m, e, probe))
        → q ≢ m.model_id
        → (rs : List Rejection) × (attempt registry now p level first ≡ refused rs)
          × (Dict.lookup q rejected ≡ some rs)
    unfolding choose
    preferred-refused {rejected} {m} {e} {probe} h other =
        by_attempt (attempt registry now p level first) refl
      where
        is_q : first.model_id ≡ q
        is_q = (by_id-mem models q found).1

        started : choose registry now p level (first ∷ later) [] ≡ (rejected, some (m, e, probe))
        started = rw candidates-first at h

        recorded :
            (rs : List Rejection) → Dict.lookup q (Dict.insert first.model_id rs []) ≡ some rs
        recorded rs = rw (is_q, ==_refl q)

        by_attempt :
            (a : Attempt)
            → attempt registry now p level first ≡ a
            → (rs : List Rejection) × (attempt registry now p level first ≡ refused rs)
              × (Dict.lookup q rejected ≡ some rs)
        by_attempt (refused rs) same =
            let onward : choose registry now p level later (Dict.insert first.model_id rs [])
                ≡ (rejected, some (m, e, probe)) =
              rw (same, choose) at started in
            (
              rs,
              same,
              subst (λ (s : Selection). Dict.lookup q s.0 ≡ some rs) onward
                  (choose-keeps q rs later (Dict.insert first.model_id rs [])
                    (λ x.
                      λ i. λ named. ap (attempt registry now p level) (later_same x i named) ∙ same)
                    (recorded rs)),
            )
        by_attempt (chosen e' probe') same =
            let k : ◌≡◌ {A = Selection} ([], some (first, e', probe'))
                (rejected, some (m, e, probe)) =
              rw (same, choose) at started in
            let is_m : first ≡ m = ground arith in
            absurd (other (sym is_q ∙ ap (λ (y : ModelProfile). y.model_id) is_m))
