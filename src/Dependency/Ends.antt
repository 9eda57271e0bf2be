-- ===== src/Dependency/Ends.antt =====
-- The search of `build_pipeline` ends: a chain visits no node twice, so the fuel
-- `n * room n` for `n` nodes is enough.
use native.Mathlib.Nat.{zero-add, suc-add}
use open_ark.Prelude.{
  ℕ, zero, suc, ◌+◌, ◌-◌, ◌*◌, ◌≤◌, ◌<◌, ◌≡◌, ◌≢◌, refl, subst, ap, false, ◌||◌, eqb, some, List,
  [], ◌∷◌, ◌++◌, PartialEq, nat_eq, contains, get_elem?, is_empty, length, lt-length_of_get_elem?,
  if_rule, ||-eq-false, if◌then◌else◌, arith,
}
use open_ark.Dependency.{
  Node, GraphPipeline, GraphPipelineClaim, GraphVisitState, Flow, found, running, out_of_fuel, room,
  contains_all, is_unmet, is_skipped, is_cut, start_node, visit_node, scan, search, build_pipeline,
  first_state, next_state,
}
use open_ark.Dependency.Path.{IsFrom, IsFrom-zero, IsFrom-head, IsFrom-tail}
use open_ark.Dependency.Scan.{Body, flow_rule, FlowInv}

pub room_pos : (m : ℕ) → 0 < room m
unfolding room
room_pos zero = omega arith
room_pos (suc m) = omega arith

room-suc : (m : ℕ) → room m ≤ room (suc m)
unfolding room
room-suc m = grind arith

room_mono : (m d : ℕ) → room m ≤ room (d + m)
room_mono m zero = rw zero-add (omega arith)
room_mono m (suc d) = rw suc-add (omega (arith, room_mono m d, room-suc (d + m)))

room_le : (m n : ℕ) → m ≤ n → room m ≤ room n
room_le m n le =
    let e : n - m + m ≡ n = omega arith in subst (λ x. room m ≤ room x) e (room_mono m (n - m))

-- The nodes among the `k` from `i` on that the chain `t` has not visited.
free : ℕ → ℕ → List ℕ → ℕ
free i zero t = 0
free i (suc k) t = (if contains t i then 0 else 1) + free (suc i) k t

free-le : (i k : ℕ) (t : List ℕ) → free i k t ≤ k
unfolding free
free-le i zero t = omega arith
free-le i (suc k) t = ground (arith, free-le (suc i) k t)

contains-push : (t : List ℕ) (i j : ℕ) → contains (t ++ i ∷ []) j ≡ contains t j || eqb i j
contains-push [] i j = ground arith
contains-push (x ∷ t) i j = ground (arith, contains-push t i j)

-- A node before `i` does not count, and a new node from `i` on counts once.
free_before : (i k j : ℕ) (t : List ℕ) → j < i → free i k (t ++ j ∷ []) ≡ free i k t
unfolding free
free_before i zero j t h = refl
free_before i (suc k) j t h = ground (arith, contains-push t j i, free_before (suc i) k j t)

free-push :
    (i k j : ℕ) (t : List ℕ)
    → i ≤ j
    → j < i + k
    → contains t j ≡ false
    → suc (free i k (t ++ j ∷ [])) ≡ free i k t
unfolding free
free-push i zero j t lo hi new = absurd (omega arith)
free-push i (suc k) j t lo hi new =
    ground (arith, contains-push t j i, free_before (suc i) k j t, free-push (suc i) k j t)

-- The cost of the nodes from `i` on.
sum_cost : (ℕ → ℕ) → ℕ → ℕ → ℕ
sum_cost cost i zero = 0
sum_cost cost i (suc k) = cost i + sum_cost cost (suc i) k

sum_cost-free :
    (r : ℕ) (t : List ℕ) (i k : ℕ)
    → sum_cost (λ i. if contains t i then 0 else r) i k ≡ free i k t * r
unfolding sum_cost free
sum_cost-free r t i zero = omega arith
sum_cost-free r t i (suc k) = ground (arith, sum_cost-free r t (suc i) k)

sum_cost_const : (r i k : ℕ) → sum_cost (λ _. r) i k ≡ k * r
unfolding sum_cost
sum_cost_const r i zero = omega arith
sum_cost_const r i (suc k) = omega (arith, sum_cost_const r (suc i) k)

module _ {F : Type 0} ⦃e : PartialEq F⦄ (nodes : List (Node F)) (claim : GraphPipelineClaim F) where
  abbrev open_nodes : GraphVisitState F → ℕ
  open_nodes s = free 0 (length nodes) s.travelled

  -- The rounds that the queue can still take.
  abbrev work : List (GraphVisitState F) → ℕ
  work [] = 0
  work (s ∷ qs) = room (open_nodes s) + work qs

  work-push :
      (qs : List (GraphVisitState F)) (s : GraphVisitState F)
      → work (qs ++ s ∷ []) ≡ work qs + room (open_nodes s)
  work-push [] s = omega arith
  work-push (t ∷ qs) s = omega (arith, work-push qs s)

  -- A loop that returns nothing adds at most `cost` to the work.
  abbrev Costs : List (GraphVisitState F) → ℕ → Flow F → Type 0
  Costs qs cost = FlowInv (λ _. Unit) (λ _ qs'. work qs' ≤ work qs + cost)

  Costs-mono :
      (qs' : List (GraphVisitState F)) (x : ℕ) (qs : List (GraphVisitState F)) (y : ℕ) (f : Flow F)
      → work qs' + x ≤ work qs + y
      → Costs qs' x f
      → Costs qs y f
  Costs-mono qs' x qs y (found p) le h = tt
  Costs-mono qs' x qs y (running ps rs) le h = omega arith

  scan-Costs :
      (cost : ℕ → ℕ) (body : Body F)
      → ((i : ℕ) (n : Node F) (ps : List GraphPipeline) (qs : List (GraphVisitState F))
          → get_elem? nodes i ≡ some n
          → Costs qs (cost i) (body i n ps qs))
      → (i : ℕ) (ns : List (Node F)) (ps : List GraphPipeline) (qs : List (GraphVisitState F))
      → IsFrom nodes i ns
      → Costs qs (sum_cost cost i (length ns)) (scan body i ns ps qs)
  unfolding scan sum_cost
  scan-Costs cost body adds i [] ps qs from = omega arith
  scan-Costs cost body adds i (n ∷ ns) ps qs from =
      (elim (body i n ps qs)
          as (λ f.
            Costs qs (cost i) f
            → Costs qs (cost i + sum_cost cost (suc i) (length ns))
                (elim f [ found p ↦ found p | running ps' qs' ↦ scan body (suc i) ns ps' qs' ])) [
                  | found p ↦ λ h. tt
                  | running ps' qs' ↦ λ h.
                      Costs-mono qs' (sum_cost cost (suc i) (length ns)) qs _ _ (omega arith) (
                        scan-Costs cost body adds (suc i) ns ps' qs'
                          (IsFrom-tail nodes i n ns from))
                ])
        (adds i n ps qs (IsFrom-head nodes i n ns from))

  start_node-Costs :
      (i : ℕ) (n : Node F) (ps : List GraphPipeline) (qs : List (GraphVisitState F))
      → get_elem? nodes i ≡ some n
      → Costs qs (room (length nodes)) (start_node claim i n ps qs)
  unfolding start_node
  start_node-Costs i n ps qs at =
      let P = Costs qs (room (length nodes)) in
      if_rule P (is_unmet claim n) (λ unmet. omega arith)
        λ met.
          if_rule P (contains_all (claim.src ++ n.provided) claim.sink)
            (λ all. if_rule P claim.option.fastest (λ fast. tt) (λ slow. omega arith))
            λ more. omega (
              arith,
              work-push qs (first_state claim i n),
              room_le (open_nodes (first_state claim i n)) (length nodes)
                  (free-le 0 (length nodes) (i ∷ [])),
            )

  abbrev visit_cost : GraphVisitState F → ℕ → ℕ
  visit_cost s i = if contains s.travelled i then 0 else room (open_nodes s - 1)

  visit_node-Costs :
      (s : GraphVisitState F) (i : ℕ) (n : Node F) (ps : List GraphPipeline)
      (qs : List (GraphVisitState F))
      → get_elem? nodes i ≡ some n
      → Costs qs (visit_cost s i) (visit_node claim s i n ps qs)
  unfolding visit_node
  visit_node-Costs s i n ps qs at =
      let P = Costs qs (visit_cost s i) in
      if_rule P (is_skipped claim s i n) (λ skipped. omega arith)
        λ taken.
          if_rule P (contains_all (s.features ++ n.provided) claim.sink)
            (λ all. if_rule P claim.option.fastest (λ fast. tt) (λ slow. omega arith))
            λ more.
              if_rule P (is_cut claim s n) (λ cut. omega arith)
                (λ deep.
                  let new = (||-eq-false _ _ taken).0 in
                  let once =
                    free-push 0 (length nodes) i s.travelled (omega arith)
                      (omega (arith, lt-length_of_get_elem? nodes i at)) new in
                  let less : open_nodes (next_state s i n) ≡ open_nodes s - 1 = omega arith in
                  rw new (omega (arith, work-push qs (next_state s i n), ap room less)))

  -- One round of the `while let` makes the work less.
  round : (m : ℕ) → m * room (m - 1) < room m
  unfolding room
  round zero = omega arith
  round (suc m) = let e : suc m - 1 ≡ m = omega arith in rw e (omega arith)

  search_ends :
      (fuel : ℕ) (ps : List GraphPipeline) (qs : List (GraphVisitState F))
      → work qs ≤ fuel
      → search nodes claim fuel ps qs ≢ out_of_fuel
  unfolding search
  search_ends fuel ps [] le = λ h. cc
  search_ends zero ps (s ∷ qs) le = absurd (omega (arith, room_pos (open_nodes s)))
  search_ends (suc fuel) ps (s ∷ qs) le =
      flow_rule (Costs qs (open_nodes s * room (open_nodes s - 1))) (λ o. o ≢ out_of_fuel)
        (search nodes claim fuel) (λ p _ h. cc)
        (λ ps' qs' h. search_ends fuel ps' qs' (omega (arith, round (open_nodes s))))
        (scan (visit_node claim s) 0 nodes ps qs)
        (subst (λ c. Costs qs c (scan (visit_node claim s) 0 nodes ps qs))
          (sum_cost-free _ s.travelled 0 (length nodes))
          (scan-Costs (visit_cost s) (visit_node claim s) (visit_node-Costs s) 0 nodes ps qs
            (IsFrom-zero nodes)))

  -- `build_pipeline` returns: its fuel never runs out.
  pub build_pipeline_ends : build_pipeline nodes claim ≢ out_of_fuel
  unfolding build_pipeline
  build_pipeline_ends =
      if_rule (λ o. o ≢ out_of_fuel) (is_empty claim.sink || contains_all claim.src claim.sink)
        (λ trivial h. cc)
        (λ _.
          flow_rule (Costs [] (length nodes * room (length nodes))) (λ o. o ≢ out_of_fuel)
            (search nodes claim (length nodes * room (length nodes))) (λ p _ h. cc)
            (λ ps qs h. search_ends _ ps qs (omega arith)) (scan (start_node claim) 0 nodes [] [])
            (subst (λ c. Costs [] c (scan (start_node claim) 0 nodes [] []))
              (sum_cost_const (room (length nodes)) 0 (length nodes))
              (scan-Costs (λ _. room (length nodes)) (start_node claim) start_node-Costs 0 nodes []
                [] (IsFrom-zero nodes))))
