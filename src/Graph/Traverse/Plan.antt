-- ===== src/Graph/Traverse/Plan.antt =====
-- crates/brolga-graph/src/traverse.rs, `TraversalPlan::prepare` and `traverse`.
-- The request's predicate is fixed in the store, so of a plan the request and the degree are left.
pub mod Admitted
use brolga.Prelude.{
  u32_max, ℕ, String, ◌≤◌, ◌<◌, ◌≡◌, refl, sym, ap, ◌∙◌, inl, inr, ◌⊎◌, Bool, true, false, Option,
  some, none, ltb, ◌==◌, if◌then◌else◌, arith, Bool-cases, Option-cases, u64_max,
}
use brolga.Prelude.Results.{Result, ok, err, ◌>>=◌, ok-injective, Result-cases}
use brolga.Model.Marking.{MarkingSet}
use brolga.Security.Cancel.{Cancelled}
use brolga.Graph.Traverse.{TraversalLimits, permits}
use brolga.Graph.Traverse.Edges.{NodeRef, entity, observable, StoreRead, TraversalRequest}
use brolga.Graph.Traverse.Walk.{run, Traversal}

pub data PlanRefused : Type 0 where
  empty_budget : String → PlanRefused
  unknown_start policy_refused : ℕ → PlanRefused
  start_node_too_busy : ℕ → ℕ → PlanRefused

pub data TraversalError (E : Type 0) : Type 0 where
  refused : PlanRefused → TraversalError E
  storage : E → TraversalError E

pub record TraversalPlan : Type 0 where
  pub request : TraversalRequest
  pub start_degree : ℕ

module _ {E : Type 0} (store : StoreRead E) where
  -- `?` on what the store answers.
  abbrev pub from_store : {A : Type 0} → Result E A → Result (TraversalError E) A
  from_store (ok a) = ok a
  from_store (err x) = err (storage x)

  abbrev pub admit_start :
      TraversalRequest → ℕ → Option MarkingSet → Result (TraversalError E) (Unit {0})
  admit_start r id none = err (refused (unknown_start id))
  admit_start r id (some markings) =
      if permits r.policy markings then ok tt else err (refused (policy_refused id))

  -- The entity that a request starts at is looked up; an observable has no row of its own.
  unfoldable pub check_start : TraversalRequest → NodeRef → Result (TraversalError E) (Unit {0})
  check_start r (entity id) = from_store (store.get_entity id) >>= λ found. admit_start r id found
  check_start r (observable id) = ok tt

  unfoldable pub check_budgets : TraversalLimits → Result (TraversalError E) (Unit {0})
  check_budgets l =
      if l.max_depth == 0
      then err (refused (empty_budget "depth"))
      else if l.max_nodes == 0
      then err (refused (empty_budget "nodes"))
      else if l.max_edges == 0
      then err (refused (empty_budget "edges"))
      else if l.max_fan_out == 0
      then err (refused (empty_budget "fan-out"))
      else ok tt

  abbrev pub cost : TraversalRequest → ℕ → Result (TraversalError E) TraversalPlan
  cost r degree =
      if ltb r.limits.max_edges degree
      then err (refused (start_node_too_busy degree r.limits.max_edges))
      else ok (record { request = r; start_degree = degree })

  unfoldable pub prepare : TraversalRequest → Result (TraversalError E) TraversalPlan
  prepare r = check_budgets r.limits >>= λ _.
      check_start r r.start >>= λ _. from_store store.degree >>= λ degree. cost r degree

  unfoldable pub traverse :
      (ℕ → Option Cancelled) → TraversalRequest → Result (TraversalError E) Traversal
  traverse reason r = prepare r >>= λ plan. from_store (run store reason plan.request)
