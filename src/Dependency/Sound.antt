-- ===== src/Dependency/Sound.antt =====
-- What `build_pipeline` returns: chains whose requirements are met, that reach the sink, and that
-- stay within `max_depth` from the second node on.
use open_ark.Prelude.{
  ℕ, ◌≤◌, ◌<◌, ◌≡◌, false, ◌⊎◌, inl, some, List, [], ◌∷◌, ◌++◌, PartialEq, nat_eq, length,
  length-append, All, All-append, if_rule, not-eq-false, ||-eq-false, subst, arith,
}
use open_ark.Dependency.{
  Node, GraphPipeline, GraphPipelineClaim, GraphVisitState, done, contains_all, too_deep, is_unmet,
  is_skipped, is_cut, start_node, visit_node, build_pipeline,
}
use open_ark.Dependency.Path.{Leads, first, then_call, IsPipeline}
use open_ark.Dependency.Scan.{register_rule, Keeps, FlowOk, OutcomeOk, build_pipeline_rule}

module _ {F : Type 0} ⦃e : PartialEq F⦄ (nodes : List (Node F)) (claim : GraphPipelineClaim F) where
  abbrev IsVisit : GraphVisitState F → Type 0
  IsVisit s = Leads nodes claim s.travelled s.features

  start_node-Keeps : Keeps (IsPipeline nodes claim) IsVisit nodes (start_node claim)
  unfolding start_node
  start_node-Keeps i n ps qs at hp hq =
      let Ok = FlowOk (IsPipeline nodes claim) IsVisit in
      if_rule Ok (is_unmet claim n) (λ no_way. (hp, hq))
        λ met.
          let leads = first i at (not-eq-false _ met) in
          if_rule Ok (contains_all (claim.src ++ n.provided) claim.sink)
            (λ all.
              register_rule claim (IsPipeline nodes claim) IsVisit (i ∷ []) ps qs
                (record { features = claim.src ++ n.provided; leads = leads; reaches = all }) hp hq)
            λ more. (hp, All-append _ qs _ hq (leads, tt))

  visit_node-Keeps :
      (s : GraphVisitState F)
      → IsVisit s
      → Keeps (IsPipeline nodes claim) IsVisit nodes (visit_node claim s)
  unfolding visit_node
  visit_node-Keeps s hs i n ps qs at hp hq =
      let Ok = FlowOk (IsPipeline nodes claim) IsVisit in
      if_rule Ok (is_skipped claim s i n) (λ skipped. (hp, hq))
        λ taken.
          let (new, met) = ||-eq-false _ _ taken in
          let leads = then_call i hs at new (not-eq-false _ met) in
          if_rule Ok (contains_all (s.features ++ n.provided) claim.sink)
            (λ all.
              register_rule claim (IsPipeline nodes claim) IsVisit (s.travelled ++ i ∷ []) ps qs
                (record { features = s.features ++ n.provided; leads = leads; reaches = all }) hp
                hq)
            λ more.
              if_rule Ok (is_cut claim s n) (λ cut. (hp, hq))
                (λ deeper. (hp, All-append _ qs _ hq (leads, tt)))

  -- Every pipeline that `build_pipeline` returns is one: its nodes differ, each finds its
  -- requirements among the source's features and those that earlier nodes provide, and all these
  -- features together hold the sink's.
  pub build_pipeline_sound :
      (ps : List GraphPipeline)
      → build_pipeline nodes claim ≡ done (some ps)
      → All (IsPipeline nodes claim) ps
  build_pipeline_sound ps h = subst (OutcomeOk (IsPipeline nodes claim)) h (
      build_pipeline_rule nodes claim (IsPipeline nodes claim) IsVisit start_node-Keeps
        visit_node-Keeps)

  -- What `max_depth` bounds.
  abbrev pub IsWithin : ℕ → GraphPipeline → Type 0
  IsWithin depth p = (length p ≤ 2) ⊎ (length p ≤ depth)

  abbrev IsShallow : ℕ → GraphVisitState F → Type 0
  IsShallow depth s = (length s.travelled ≤ 1) ⊎ (length s.travelled < depth)

  module _ (depth : ℕ) (limit : claim.option.max_depth ≡ some depth) where
    start_node-Keeps_depth : Keeps (IsWithin depth) (IsShallow depth) nodes (start_node claim)
    unfolding start_node
    start_node-Keeps_depth i n ps qs at hp hq =
        let Ok = FlowOk (IsWithin depth) (IsShallow depth) in
        if_rule Ok (is_unmet claim n) (λ no_way. (hp, hq))
          λ met.
            if_rule Ok (contains_all (claim.src ++ n.provided) claim.sink)
              (λ all.
                register_rule claim (IsWithin depth) (IsShallow depth) (i ∷ []) ps qs
                  (inl (omega arith)) hp hq)
              λ more. (hp, All-append _ qs _ hq (inl (omega arith), tt))

    visit_node-Keeps_depth :
        (s : GraphVisitState F)
        → IsShallow depth s
        → Keeps (IsWithin depth) (IsShallow depth) nodes (visit_node claim s)
    unfolding visit_node
    visit_node-Keeps_depth s hs i n ps qs at hp hq =
        let Ok = FlowOk (IsWithin depth) (IsShallow depth) in
        let longer = length-append s.travelled (i ∷ []) in
        if_rule Ok (is_skipped claim s i n) (λ skipped. (hp, hq))
          λ taken.
            if_rule Ok (contains_all (s.features ++ n.provided) claim.sink)
              (λ all.
                register_rule claim (IsWithin depth) (IsShallow depth) (s.travelled ++ i ∷ []) ps qs
                  (ground (arith, longer)) hp hq)
              λ more.
                if_rule Ok (is_cut claim s n) (λ cut. (hp, hq))
                  (λ deeper.
                    let bound =
                      subst (λ d. too_deep d s.travelled ≡ false) limit
                        (||-eq-false _ _ deeper).0 in
                    (hp, All-append _ qs _ hq (ground (arith, longer), tt)))

    -- With `max_depth` set to `depth`, every pipeline that `build_pipeline` returns has at most
    -- `depth` nodes, or at most two: the first loop does not test `max_depth`.
    pub build_pipeline_depth :
        (ps : List GraphPipeline)
        → build_pipeline nodes claim ≡ done (some ps)
        → All (IsWithin depth) ps
    build_pipeline_depth ps h = subst (OutcomeOk (IsWithin depth)) h (
        build_pipeline_rule nodes claim (IsWithin depth) (IsShallow depth) start_node-Keeps_depth
          visit_node-Keeps_depth)
