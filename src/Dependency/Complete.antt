-- ===== src/Dependency/Complete.antt =====
-- `build_pipeline` misses nothing: where it returns `None`, the claim has no route.
use mathlib.Core.List.{Memᴰ}
use mathlib.Core.List.Memᴰ
use native.Mathlib.Nat.{zero-add}
use open_ark.Prelude.{
  ℕ, zero, suc, ◌+◌, ◌*◌, ◌≡◌, ◌≢◌, refl, subst, true, false, ◌⊎◌, inl, inr, ◌||◌, none, some, List,
  [], ◌∷◌, ◌++◌, PartialEq, nat_eq, is_empty, contains, get_elem?, length, length-append, if_rule,
  arith,
}
use open_ark.Dependency.{
  Node, GraphPipeline, GraphPipelineClaim, GraphVisitState, done, room, contains_all, too_deep,
  is_unmet, is_skipped, is_cut, start_node, visit_node, scan, search, build_pipeline, first_state,
  next_state,
}
use open_ark.Dependency.Scan.{flow_rule}
use open_ark.Dependency.Passes.{
  Extends, Extends-refl, Extends-push, Extends-add, append-ne-nil, Passes, PassesAll, scan-Passes,
}

module _ {F : Type 0} ⦃e : PartialEq F⦄ (nodes : List (Node F)) (claim : GraphPipelineClaim F) where
  -- The nodes `c` can be called in turn after those of `travelled`, that made `fs`: each is new,
  -- has its requirements met, and is the last one, which reaches the sink, or is neither final nor
  -- too deep.
  abbrev pub Continues : List F → List ℕ → List ℕ → Type 0
  Continues fs travelled [] = ⊥
  Continues fs travelled (i ∷ c) =
      (n : Node F) × (get_elem? nodes i ≡ some n)
      × (contains travelled i ≡ false)
      × (contains_all fs n.requirements ≡ true)
      × ((contains_all (fs ++ n.provided) claim.sink ≡ true) × (c ≡ [])
          ⊎ (too_deep claim.option.max_depth travelled ≡ false)
            × (n.is_final ≡ false)
            × Continues (fs ++ n.provided) (travelled ++ i ∷ []) c)

  -- A route of the claim: a first node whose requirements the source meets, which reaches the sink
  -- or is continued.
  abbrev pub IsRoute : List ℕ → Type 0
  IsRoute [] = ⊥
  IsRoute (i ∷ c) =
      (n : Node F) × (get_elem? nodes i ≡ some n)
      × (contains_all claim.src n.requirements ≡ true)
      × ((contains_all (claim.src ++ n.provided) claim.sink ≡ true) × (c ≡ [])
          ⊎ Continues (claim.src ++ n.provided) (i ∷ []) c)

  -- A node that leads on is registered or queued.
  abbrev pub Visited :
      GraphVisitState F → ℕ → Node F → List GraphPipeline → List (GraphVisitState F) → Type 0
  Visited s i n ps qs =
      is_skipped claim s i n ≡ false
      → ((contains_all (s.features ++ n.provided) claim.sink ≡ true) × (ps ≢ []))
        ⊎ ((contains_all (s.features ++ n.provided) claim.sink ≡ false)
            × (is_cut claim s n ≡ false → Memᴰ (next_state s i n) qs))

  pub Visited-mono :
      (s : GraphVisitState F) (i : ℕ) (n : Node F) (ps : List GraphPipeline)
      (qs : List (GraphVisitState F)) (ps' : List GraphPipeline) (qs' : List (GraphVisitState F))
      → Extends ps qs ps' qs'
      → Visited s i n ps qs
      → Visited s i n ps' qs'
  Visited-mono s i n ps qs ps' qs' ext v taken = elim (v taken) [
    | inl (all, some_pipe) ↦ inl (all, λ h. some_pipe (ext.pipelines h))
    | inr (more, queued) ↦ inr (more, λ deep. ext.queue _ (queued deep))
  ]

  pub visit_node-Passes :
      (s : GraphVisitState F) (i : ℕ) (n : Node F) (ps : List GraphPipeline)
      (qs : List (GraphVisitState F))
      → Passes (Visited s) (Visited-mono s) i n ps qs (visit_node claim s i n ps qs)
  unfolding visit_node
  visit_node-Passes s i n ps qs =
      let P = Passes (Visited s) (Visited-mono s) i n ps qs in
      if_rule P (is_skipped claim s i n) (λ skipped. (Extends-refl ps qs, λ taken. absurd (cc)))
        λ taken.
          if_rule P (contains_all (s.features ++ n.provided) claim.sink)
            (λ all.
              if_rule P claim.option.fastest (λ fast. tt)
                (λ slow. (Extends-add ps qs _, λ _. inl (all, append-ne-nil ps _))))
            λ more.
              if_rule P (is_cut claim s n)
                (λ cut. (Extends-refl ps qs, λ _. inr (more, λ deep. absurd (cc))))
                (λ deep. (
                  Extends-push ps qs _,
                  λ _. inr (more, λ _. Memᴰ.append_right qs (Memᴰ.head refl)),
                ))

  -- A route through the state in front goes on in the queue, unless a pipeline was registered.
  module _ (s : GraphVisitState F) (ps : List GraphPipeline) (qs : List (GraphVisitState F))
      (served : (i : ℕ) (n : Node F) → get_elem? nodes i ≡ some n → Visited s i n ps qs) where
    pub Continues-next :
        (c : List ℕ)
        → Continues s.features s.travelled c
        → (ps ≢ [])
          ⊎ ((s' : GraphVisitState F) × (c' : List ℕ) × Memᴰ s' qs
              × Continues s'.features s'.travelled c'
              × (length s'.travelled + length c' ≡ length s.travelled + length c))
    Continues-next [] h = absurd h
    Continues-next (i ∷ c) (n, at, new, met, alt) = elim (served i n at (ground arith)) [
      | inl (all, some_pipe) ↦ inl some_pipe
      | inr (more, queued) ↦ elim alt [
        | inl (all, ends) ↦ absurd (cc)
        | inr (deep, inner, cont) ↦ inr (
          next_state s i n,
          c,
          queued (ground arith),
          cont,
          omega (arith, length-append s.travelled (i ∷ [])),
        )
      ]
    ]

  search-none :
      (fuel : ℕ) (ps : List GraphPipeline) (qs : List (GraphVisitState F))
      → search nodes claim fuel ps qs ≡ done none
      → ps ≡ []
  unfolding search
  search-none fuel [] qs = λ h. refl
  search-none fuel (p ∷ ps) [] = λ h. cc
  search-none zero (p ∷ ps) (s ∷ qs) = λ h. cc
  search-none (suc fuel) (p ∷ ps) (s ∷ qs) =
      flow_rule (PassesAll (Visited s) (Visited-mono s) 0 nodes (p ∷ ps) qs)
        (λ o. o ≡ done none → p ∷ ps ≡ []) (search nodes claim fuel) (λ q _ h. absurd (cc))
        (λ ps' qs' pass h. pass.0.pipelines (search-none fuel ps' qs' h)) _
        (scan-Passes (Visited s) (Visited-mono s) (visit_node claim s) (visit_node-Passes s) 0 nodes
          (p ∷ ps) qs)

  abbrev Misses : List (GraphVisitState F) → Type 0
  Misses qs =
      (s : GraphVisitState F) → Memᴰ s qs → (c : List ℕ) → ¬ (Continues s.features s.travelled c)

  search-Misses :
      (fuel : ℕ) (ps : List GraphPipeline) (qs : List (GraphVisitState F))
      → search nodes claim fuel ps qs ≡ done none
      → Misses qs
  unfolding search
  search-Misses fuel ps [] = λ h s m. absurd (Memᴰ.not-nil m)
  search-Misses zero ps (s ∷ qs) = λ h. absurd (cc)
  search-Misses (suc fuel) ps (s ∷ qs) =
      flow_rule (PassesAll (Visited s) (Visited-mono s) 0 nodes ps qs)
        (λ o. o ≡ done none → Misses (s ∷ qs)) (search nodes claim fuel) (λ q _ h. absurd (cc))
        (λ ps' qs' pass h s' m c cont. elim (Memᴰ.cases_cons m) [
          | inl same ↦
              elim (Continues-next s ps' qs'
                (λ i n at. subst (λ j. Visited s j n ps' qs') (zero-add i) (pass.1 i n at)) c
                (subst (λ x. Continues x.features x.travelled c) same cont)) [
                  | inl some_pipe ↦ some_pipe (search-none fuel ps' qs' h)
                  | inr (s'', c', m', cont', _) ↦ search-Misses fuel ps' qs' h s'' m' c' cont'
                ]
          | inr later ↦ search-Misses fuel ps' qs' h s' (pass.0.queue s' later) c cont
        ])
        _
        (scan-Passes (Visited s) (Visited-mono s) (visit_node claim s) (visit_node-Passes s) 0 nodes
          ps qs)

  -- A first node that leads on is registered or queued.
  abbrev pub Started : ℕ → Node F → List GraphPipeline → List (GraphVisitState F) → Type 0
  Started i n ps qs =
      contains_all claim.src n.requirements ≡ true
      → ((contains_all (claim.src ++ n.provided) claim.sink ≡ true) × (ps ≢ []))
        ⊎ ((contains_all (claim.src ++ n.provided) claim.sink ≡ false)
            × Memᴰ (first_state claim i n) qs)

  pub Started-mono :
      (i : ℕ) (n : Node F) (ps : List GraphPipeline) (qs : List (GraphVisitState F))
      (ps' : List GraphPipeline) (qs' : List (GraphVisitState F))
      → Extends ps qs ps' qs'
      → Started i n ps qs
      → Started i n ps' qs'
  Started-mono i n ps qs ps' qs' ext v met = elim (v met) [
    | inl (all, some_pipe) ↦ inl (all, λ h. some_pipe (ext.pipelines h))
    | inr (more, queued) ↦ inr (more, ext.queue _ queued)
  ]

  pub start_node-Passes :
      (i : ℕ) (n : Node F) (ps : List GraphPipeline) (qs : List (GraphVisitState F))
      → Passes Started Started-mono i n ps qs (start_node claim i n ps qs)
  unfolding start_node
  start_node-Passes i n ps qs =
      let P = Passes Started Started-mono i n ps qs in
      if_rule P (is_unmet claim n) (λ unmet. (Extends-refl ps qs, λ met. absurd (ground arith)))
        λ met.
          if_rule P (contains_all (claim.src ++ n.provided) claim.sink)
            (λ all.
              if_rule P claim.option.fastest (λ fast. tt)
                (λ slow. (Extends-add ps qs _, λ _. inl (all, append-ne-nil ps _))))
            λ more. (Extends-push ps qs _, λ _. inr (more, Memᴰ.append_right qs (Memᴰ.head refl)))

  -- Where `build_pipeline` returns `None`, the claim has no route: no chain of nodes, of which
  -- all but the first and the last are neither final nor too deep, reaches the sink.
  pub build_pipeline_complete :
      build_pipeline nodes claim ≡ done none → (c : List ℕ) → ¬ (IsRoute c)
  unfolding build_pipeline
  build_pipeline_complete =
      if_rule (λ o. o ≡ done none → (c : List ℕ) → ¬ (IsRoute c))
        (is_empty claim.sink || contains_all claim.src claim.sink) (λ trivial h. absurd (cc))
        (λ _.
          flow_rule (PassesAll Started Started-mono 0 nodes [] [])
            (λ o. o ≡ done none → (c : List ℕ) → ¬ (IsRoute c))
            (search nodes claim (length nodes * room (length nodes))) (λ p _ h. absurd (cc))
            (λ ps qs pass h.
              no_route ps qs (λ i n at. subst (λ j. Started j n ps qs) (zero-add i) (pass.1 i n at))
                (search-none _ ps qs h) (search-Misses _ ps qs h))
            (scan (start_node claim) 0 nodes [] [])
            (scan-Passes Started Started-mono (start_node claim) start_node-Passes 0 nodes [] []))
    where
      no_route :
          (ps : List GraphPipeline) (qs : List (GraphVisitState F))
          → ((i : ℕ) (n : Node F) → get_elem? nodes i ≡ some n → Started i n ps qs)
          → ps ≡ []
          → Misses qs
          → (c : List ℕ) → ¬ (IsRoute c)
      no_route ps qs started empty misses [] r = r
      no_route ps qs started empty misses (i ∷ c) (n, at, met, alt) = elim (started i n at met) [
        | inl (all, some_pipe) ↦ some_pipe empty
        | inr (more, queued) ↦ elim alt [ inl (all, ends) ↦ cc | inr cont ↦ misses _ queued c cont ]
      ]
