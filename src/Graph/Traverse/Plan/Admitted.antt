-- ===== src/Graph/Traverse/Plan/Admitted.antt =====
-- Which traversals crates/brolga-graph/src/traverse.rs plans, and what those return.
use brolga.Prelude.{
  u32_max, ℕ, ◌≤◌, ◌<◌, ◌≡◌, refl, sym, ap, ◌∙◌, inl, inr, ◌↔◌, true, false, Option, some, ltb,
  arith, Bool-cases, Option-cases, subst,
}
use brolga.Prelude.Results.{Result, ok, err, ◌>>=◌, ok-injective, Result-cases, bind-ok}
use brolga.Model.Marking.{MarkingSet}
use brolga.Security.Cancel.{Cancelled}
use brolga.Graph.Traverse.{TraversalLimits, permits}
use brolga.Graph.Traverse.Edges.{NodeRef, entity, observable, StoreRead, TraversalRequest}
use brolga.Graph.Traverse.Walk.{run, Traversal}
use brolga.Graph.Traverse.Returned.{Right, run-Right}
use brolga.Graph.Traverse.Plan.{
  TraversalPlan, from_store, cost, check_start, check_budgets, prepare, traverse,
}

module _ {E : Type 0} (store : StoreRead E) where
  -- A start that the store has and the request may see. An observable is not looked up.
  abbrev pub Startable : TraversalRequest → NodeRef → Type 0
  Startable r (entity id) =
      (markings : MarkingSet) × (store.get_entity id ≡ ok (some markings))
      × (permits r.policy markings ≡ true)
  Startable r (observable id) = Unit

  pub record Admitted (r : TraversalRequest) (degree : ℕ) : Type 0 where
    pub depth : 0 < r.limits.max_depth
    pub nodes : 0 < r.limits.max_nodes
    pub edges : 0 < r.limits.max_edges
    pub fan_out : 0 < r.limits.max_fan_out
    pub start : Startable r r.start
    pub counted : store.degree ≡ ok degree
    pub cheap : degree ≤ r.limits.max_edges

  check_budgets_iff :
      (l : TraversalLimits)
      → (check_budgets store l ≡ ok tt)
        ↔ ((0 < l.max_depth) × (0 < l.max_nodes) × (0 < l.max_edges) × (0 < l.max_fan_out))
  unfolding check_budgets
  check_budgets_iff l = ground arith

  check_start_iff :
      (r : TraversalRequest) (n : NodeRef) → (check_start store r n ≡ ok tt) ↔ Startable r n
  unfolding check_start
  check_start_iff r (observable id) = (λ h. tt, λ h. refl)
  check_start_iff r (entity id) = elim (Result-cases (store.get_entity id)) [
    | inr (x, q) ↦ rw (check_start, q) (ground arith)
    | inl (found, q) ↦ elim (Option-cases found) [
      | inl p ↦ ground arith
      | inr (markings, p) ↦ elim (Bool-cases (permits r.policy markings)) [
        | inl seen ↦ (λ h. (markings, q ∙ ap ok p, seen), λ h. rw (check_start, q, p, seen) refl)
        | inr hidden ↦ ground arith
      ]
    ]
  ]

  from_store-ok : {A : Type 0} (m : Result E A) (a : A) → from_store store m ≡ ok a → m ≡ ok a
  from_store-ok (ok b) a h = ap ok (ok-injective h)
  from_store-ok (err x) a h = absurd (ground arith)

  cost-ok :
      (r : TraversalRequest) (n : ℕ) (plan : TraversalPlan)
      → cost store r n ≡ ok plan
      → (n ≡ plan.start_degree) × (n ≤ r.limits.max_edges) × (plan.request ≡ r)
  cost-ok r n plan h = elim (Bool-cases (ltb r.limits.max_edges n)) [
    | inl q ↦ absurd (ground arith)
    | inr q ↦
        let e = ok-injective (rw q at h) in
        (ap (λ p. p.start_degree) e, ground arith, sym (ap (λ p. p.request) e))
  ]

  prepare-ok :
      (r : TraversalRequest) (plan : TraversalPlan)
      → prepare store r ≡ ok plan
      → Admitted r plan.start_degree × (plan.request ≡ r)
  unfolding prepare
  prepare-ok r plan h =
      let (_, p, h1) =
        bind-ok (check_budgets store r.limits)
          (λ _. check_start store r r.start >>= λ _.
            from_store store store.degree >>= λ n. cost store r n)
          plan h in
      let (_, q, h2) =
        bind-ok (check_start store r r.start)
          (λ _. from_store store store.degree >>= λ n. cost store r n) plan h1 in
      let (n, c, h3) = bind-ok (from_store store store.degree) (λ n. cost store r n) plan h2 in
      let (depth, nodes, edges, fan_out) = (check_budgets_iff r.limits).0 p in
      let (same, cheap, request) = cost-ok r n plan h3 in
      (
        record {
          depth = depth;
          nodes = nodes;
          edges = edges;
          fan_out = fan_out;
          start = (check_start_iff r r.start).0 q;
          counted = from_store-ok store.degree n c ∙ ap ok same;
          cheap = subst (λ k. k ≤ r.limits.max_edges) same cheap;
        },
        request,
      )

  -- The plan is made exactly when every budget is above zero, the start is an observable or an
  -- entity that the store has and the request may see, and the store counts the edges of the start as
  -- no more than the budget of edges. The plan is then for the request, with that count.
  pub prepare_iff :
      (r : TraversalRequest) (plan : TraversalPlan)
      → (prepare store r ≡ ok plan) ↔ (Admitted r plan.start_degree × (plan.request ≡ r))
  unfolding prepare
  prepare_iff r plan = (
    prepare-ok r plan,
    λ (a, same).
        let p : check_budgets store r.limits ≡ ok tt =
          (check_budgets_iff r.limits).1 (a.depth, a.nodes, a.edges, a.fan_out) in
        let q : check_start store r r.start ≡ ok tt = (check_start_iff r r.start).1 a.start in
        let small : ltb r.limits.max_edges plan.start_degree ≡ false = ground (arith, a.cheap) in
        rw (prepare, p, q, a.counted, small)
          (ap (λ s. ok (record { request = s; start_degree = plan.start_degree })) (sym same)),
  )

  -- What a traversal returns, where the budget of hops is a `u32`, holds no more nodes and edges than
  -- its budgets, and only what permitted edges lead to from the start. Its plan had been admitted.
  pub traverse-Right :
      (reason : ℕ → Option Cancelled) (r : TraversalRequest) (t : Traversal)
      → r.limits.max_depth ≤ u32_max
      → traverse store reason r ≡ ok t
      → Right store reason r t × ((degree : ℕ) × Admitted r degree)
  unfolding traverse
  traverse-Right reason r t wide h =
      let (plan, p, h1) =
        bind-ok (prepare store r) (λ plan. from_store store (run store reason plan.request)) t h in
      let (a, same) = prepare-ok r plan p in
      let ran =
        subst (λ s. run store reason s ≡ ok t) same
          (from_store-ok (run store reason plan.request) t h1) in
      (run-Right store reason r t a.nodes wide ran, (plan.start_degree, a))
