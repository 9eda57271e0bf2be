-- ===== src/Dependency/Shortest.antt =====
-- Under `fastest` the queue is sorted by the length of its chains, so the first pipeline found is
-- as short as any route.
use mathlib.Core.List.{Memᴰ}
use mathlib.Core.List.Memᴰ
use native.Mathlib.Nat.{zero-add}
use open_ark.Prelude.{
  ℕ, zero, suc, ◌+◌, ◌*◌, ◌≤◌, ◌<◌, ◌≡◌, refl, sym, subst, true, inl, inr, ◌||◌, some, List, [],
  ◌∷◌, ◌++◌, PartialEq, nat_eq, is_empty, get_elem?, length, All, length-append, if_rule, arith,
}
use open_ark.Dependency.{
  Node, GraphPipeline, GraphPipelineClaim, GraphVisitState, Outcome, done, room, contains_all,
  is_unmet, is_skipped, is_cut, start_node, visit_node, scan, search, build_pipeline, first_state,
  next_state,
}
use open_ark.Dependency.Path.{IsFrom-zero}
use open_ark.Dependency.Scan.{OutcomeOk, flow_rule, FlowInv, scan_inv}
use open_ark.Dependency.Passes.{PassesAll, scan-Passes}
use open_ark.Dependency.Complete.{
  Continues, Continues-next, IsRoute, Visited, Visited-mono, visit_node-Passes, Started,
  Started-mono, start_node-Passes,
}

module _ {F : Type 0} where
  abbrev depth_of : GraphVisitState F → ℕ
  depth_of s = length s.travelled

  -- The chains of the queue have `k` nodes or more, `hi` or fewer, and do not get shorter.
  abbrev IsLevelled : ℕ → ℕ → List (GraphVisitState F) → Type 0
  IsLevelled k hi [] = k ≤ hi
  IsLevelled k hi (s ∷ qs) = (k ≤ depth_of s) × (depth_of s ≤ hi) × IsLevelled (depth_of s) hi qs

  IsLevelled-push :
      (qs : List (GraphVisitState F)) (k hi : ℕ) (s : GraphVisitState F)
      → IsLevelled k hi qs
      → depth_of s ≡ hi
      → IsLevelled k hi (qs ++ s ∷ [])
  IsLevelled-push [] k hi s h e = (omega arith, omega arith, omega arith)
  IsLevelled-push (t ∷ qs) k hi s h e = (h.0, h.1, IsLevelled-push qs _ hi s h.2 e)

  IsLevelled-mono :
      (qs : List (GraphVisitState F)) (k hi hi' : ℕ)
      → hi ≤ hi'
      → IsLevelled k hi qs
      → IsLevelled k hi' qs
  IsLevelled-mono [] k hi hi' le h = omega arith
  IsLevelled-mono (t ∷ qs) k hi hi' le h = (h.0, omega arith, IsLevelled-mono qs _ hi hi' le h.2)

  le-depth_of :
      (qs : List (GraphVisitState F)) (k hi : ℕ)
      → IsLevelled k hi qs
      → (s : GraphVisitState F) → Memᴰ s qs
      → k ≤ depth_of s
  le-depth_of [] k hi h s m = absurd (Memᴰ.not-nil m)
  le-depth_of (t ∷ qs) k hi h s m = elim (Memᴰ.cases_cons m) [
    | inl same ↦ subst (λ x. k ≤ depth_of x) (sym same) h.0
    | inr later ↦ omega (arith, le-depth_of qs _ hi h.2 s later)
  ]

  -- No pipeline is registered, and the queue stays sorted.
  abbrev IsSorted : ℕ → List GraphPipeline → List (GraphVisitState F) → Type 0
  IsSorted k ps qs = (ps ≡ []) × IsLevelled k (suc k) qs

module _ {F : Type 0} ⦃e : PartialEq F⦄ (nodes : List (Node F)) (claim : GraphPipelineClaim F)
    (fastest : claim.option.fastest ≡ true) where
  visit_node-IsSorted :
      (s : GraphVisitState F) (i : ℕ) (n : Node F) (ps : List GraphPipeline)
      (qs : List (GraphVisitState F))
      → get_elem? nodes i ≡ some n
      → IsSorted (depth_of s) ps qs
      → FlowInv
          (λ p. length p ≡ suc (depth_of s))
          (IsSorted (depth_of s))
          (visit_node claim s i n ps qs)
  unfolding visit_node
  visit_node-IsSorted s i n ps qs at h =
      let P = FlowInv (λ p. length p ≡ suc (depth_of s)) (IsSorted (depth_of s)) in
      let longer = length-append s.travelled (i ∷ []) in
      if_rule P (is_skipped claim s i n) (λ skipped. h)
        λ taken.
          if_rule P (contains_all (s.features ++ n.provided) claim.sink)
            (λ all. if_rule P claim.option.fastest (λ fast. omega arith) (λ slow. absurd (cc)))
            λ more.
              if_rule P (is_cut claim s n) (λ cut. h)
                (λ deep. (h.0, IsLevelled-push qs _ _ (next_state s i n) h.1 (omega arith)))

  start_node-IsSorted :
      (i : ℕ) (n : Node F) (ps : List GraphPipeline) (qs : List (GraphVisitState F))
      → get_elem? nodes i ≡ some n
      → IsSorted 0 ps qs
      → FlowInv (λ p. length p ≡ 1) (IsSorted 0) (start_node claim i n ps qs)
  unfolding start_node
  start_node-IsSorted i n ps qs at h =
      let P = FlowInv (λ p. length p ≡ 1) (IsSorted 0) in
      if_rule P (is_unmet claim n) (λ unmet. h)
        λ met.
          if_rule P (contains_all (claim.src ++ n.provided) claim.sink)
            (λ all. if_rule P claim.option.fastest (λ fast. refl) (λ slow. absurd (cc)))
            λ more. (h.0, IsLevelled-push qs _ _ (first_state claim i n) h.1 refl)

  abbrev IsBounded : ℕ → Outcome → Type 0
  IsBounded m = OutcomeOk (λ p. length p ≤ m)

  Continues-pos : (fs : List F) (t c : List ℕ) → Continues nodes claim fs t c → 0 < length c
  Continues-pos fs t [] h = absurd h
  Continues-pos fs t (i ∷ c) h = omega arith

  search_shortest :
      (m fuel : ℕ) (k : ℕ) (ps : List GraphPipeline) (qs : List (GraphVisitState F))
      → IsSorted k ps qs
      → (s : GraphVisitState F) → Memᴰ s qs
      → (c : List ℕ) → Continues nodes claim s.features s.travelled c
      → depth_of s + length c ≤ m
      → IsBounded m (search nodes claim fuel ps qs)
  unfolding search
  search_shortest m fuel k ps [] sorted s mem c cont le = absurd (Memᴰ.not-nil mem)
  search_shortest m zero k ps (t ∷ qs) sorted s mem c cont le = tt
  search_shortest m (suc fuel) k ps (t ∷ qs) sorted s mem c cont le =
      let rest : IsSorted (depth_of t) ps qs =
        (sorted.0, IsLevelled-mono qs _ _ _ (omega arith) sorted.1.2) in
      let front : depth_of t ≤ depth_of s = elim (Memᴰ.cases_cons mem) [
        | inl same ↦ subst (λ x. depth_of t ≤ depth_of x) (sym same) (omega arith)
        | inr later ↦ le-depth_of qs _ _ rest.1 s later
      ] in
      flow_rule
        (λ f.
          FlowInv (λ p. length p ≡ suc (depth_of t)) (IsSorted (depth_of t)) f
          × PassesAll (Visited nodes claim t) (Visited-mono nodes claim t) 0 nodes ps qs f)
        (IsBounded m) (search nodes claim fuel)
        (λ p h. (omega (arith, Continues-pos _ _ c cont), tt))
        (λ ps' qs' h. elim (Memᴰ.cases_cons mem) [
          | inl same ↦
              elim (Continues-next nodes claim t ps' qs'
                (λ i n at.
                  subst (λ j. Visited nodes claim t j n ps' qs') (zero-add i) (h.1.1 i n at))
                c (subst (λ x. Continues nodes claim x.features x.travelled c) same cont)) [
                  | inl some_pipe ↦ absurd (some_pipe h.0.0)
                  | inr (s'', c', m', cont', deep) ↦
                      search_shortest m fuel (depth_of t) ps' qs' h.0 s'' m' c' cont' (omega arith)
                ]
          | inr later ↦
              search_shortest m fuel (depth_of t) ps' qs' h.0 s (h.1.0.queue s later) c cont le
        ])
        (scan (visit_node claim t) 0 nodes ps qs)
        (
          scan_inv (λ p. length p ≡ suc (depth_of t)) (IsSorted (depth_of t)) nodes
              (visit_node claim t) (visit_node-IsSorted t) 0 nodes ps qs (IsFrom-zero nodes) rest,
          scan-Passes (Visited nodes claim t) (Visited-mono nodes claim t) (visit_node claim t)
              (visit_node-Passes nodes claim t) 0 nodes ps qs,
        )

  -- With `fastest`, a pipeline that `build_pipeline` returns has no more nodes than any route of
  -- the claim.
  pub build_pipeline_shortest :
      (ps : List GraphPipeline) (c : List ℕ)
      → build_pipeline nodes claim ≡ done (some ps)
      → IsRoute nodes claim c
      → All (λ p. length p ≤ length c) ps
  unfolding build_pipeline
  build_pipeline_shortest ps [] out route = absurd route
  build_pipeline_shortest ps (i ∷ c) out (n, at, met, alt) =
      subst (IsBounded (suc (length c))) out (
        if_rule (IsBounded (suc (length c)))
          (is_empty claim.sink || contains_all claim.src claim.sink) (λ trivial. tt)
          (λ _.
            flow_rule
              (λ f.
                FlowInv (λ p. length p ≡ 1) (IsSorted 0) f
                × PassesAll (Started nodes claim) (Started-mono nodes claim) 0 nodes [] [] f)
              (IsBounded (suc (length c))) (search nodes claim (length nodes * room (length nodes)))
              (λ p h. (omega arith, tt))
              (λ ps qs h.
                elim (subst (λ j. Started nodes claim j n ps qs) (zero-add i) (h.1.1 i n at) met) [
                  | inl (all, some_pipe) ↦ absurd (some_pipe h.0.0)
                  | inr (more, queued) ↦ elim alt [
                    | inl (all, ends) ↦ absurd (cc)
                    | inr cont ↦ search_shortest _ _ 0 ps qs h.0 _ queued c cont (omega arith)
                  ]
                ])
              (scan (start_node claim) 0 nodes [] [])
              (
                scan_inv (λ p. length p ≡ 1) (IsSorted 0) nodes (start_node claim)
                    start_node-IsSorted 0 nodes [] [] (IsFrom-zero nodes) (refl, omega arith),
                scan-Passes (Started nodes claim) (Started-mono nodes claim) (start_node claim)
                    (start_node-Passes nodes claim) 0 nodes [] [],
              )))
