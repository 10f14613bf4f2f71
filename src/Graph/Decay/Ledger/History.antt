-- ===== src/Graph/Decay/Ledger/History.antt =====
-- The transitions of a ledger of crates/brolga-graph/src/decay.rs account for its states.
use mathlib.Core.List.{append_assoc, append-nil}
use brolga.Prelude.{
  ◌≡◌, refl, sym, ap, ◌∙◌, inl, inr, true, false, Option, some, none, List, [], ◌∷◌, ◌++◌, Text,
  text_eq, text_eq_iff, if◌then◌else◌, arith, Bool-cases,
}
use brolga.Prelude.TextMap.{get, get-insert}
use brolga.Model.Temporal.{Timestamp}
use brolga.Graph.Decay.Evaluator.{
  DecayState, undated, live, dormant, exempted, revoked, expired, superseded, DecayInputs, evaluate,
}
use brolga.Graph.Decay.Ledger.{
  state_eq, StateTransition, DecayLedger, state_of, changed, record_evaluation, evaluate_all,
}

-- The state of a subject after transitions, each from the state that the one before left it in.
abbrev pub follow : Text → DecayState → List StateTransition → Option DecayState
follow k s [] = some s
follow k s (t ∷ ts) =
    let on = follow k t.to_state ts in
    let past = follow k s ts in
    if text_eq t.subject k then (if state_eq t.from_state s then on else none) else past

state_eq_refl : (s : DecayState) → state_eq s s ≡ true
state_eq_refl undated = refl
state_eq_refl live = refl
state_eq_refl dormant = refl
state_eq_refl exempted = refl
state_eq_refl revoked = refl
state_eq_refl expired = refl
state_eq_refl superseded = refl

state_eq_same : (s t : DecayState) → state_eq s t ≡ true → s ≡ t
state_eq_same undated t h = ground arith
state_eq_same live t h = ground arith
state_eq_same dormant t h = ground arith
state_eq_same exempted t h = ground arith
state_eq_same revoked t h = ground arith
state_eq_same expired t h = ground arith
state_eq_same superseded t h = ground arith

abbrev moved : Text → Text → DecayState → DecayState → DecayState
moved k subject state s = if text_eq subject k then state else s

-- One evaluation, of the subject itself.
follow-own :
    (k subject : Text) (s state : DecayState) (now : Timestamp) (new : List StateTransition)
    → text_eq subject k ≡ true
    → follow k s (changed (some s) subject state now ++ new) ≡ follow k state new
unfolding changed
follow-own k subject s state now new q = elim (Bool-cases (state_eq s state)) [
  | inl e ↦ rw e (ap (λ x. follow k x new) (state_eq_same s state e))
  | inr e ↦ rw (e, q, state_eq_refl s) refl
]

-- And of another.
follow-other :
    (k subject : Text) (s state : DecayState) (o : Option DecayState) (now : Timestamp)
    (new : List StateTransition)
    → text_eq subject k ≡ false
    → follow k s (changed o subject state now ++ new) ≡ follow k s new
unfolding changed
follow-other k subject s state none now new q = refl
follow-other k subject s state (some previous) now new q =
    elim (Bool-cases (state_eq previous state)) [ inl e ↦ rw e refl | inr e ↦ rw (e, q) refl ]

state_of-recorded :
    (l : DecayLedger) (i : DecayInputs) (k : Text) (s : DecayState)
    → state_of l k ≡ some s
    → state_of (record_evaluation l i) k ≡ some (moved k i.subject (evaluate l.policy i).state s)
unfolding state_of record_evaluation evaluate
state_of-recorded l i k s h =
    let put = get-insert k i.subject (evaluate l.policy i).state l.states in
    elim (Bool-cases (text_eq i.subject k)) [
      | inl q ↦
          let p : text_eq k i.subject ≡ true =
            ground (arith, q, text_eq_iff i.subject k, text_eq_iff k i.subject) in
          rw q (put ∙ (rw p refl))
      | inr q ↦
          let p : text_eq k i.subject ≡ false =
            ground (arith, q, text_eq_iff i.subject k, text_eq_iff k i.subject) in
          rw q (put ∙ (rw p h))
    ]

follow-recorded :
    (l : DecayLedger) (i : DecayInputs) (k : Text) (s : DecayState) (new : List StateTransition)
    → state_of l k ≡ some s
    → follow k s
        (changed (get i.subject l.states) i.subject (evaluate l.policy i).state i.now ++ new)
      ≡ follow k (moved k i.subject (evaluate l.policy i).state s) new
unfolding state_of
follow-recorded l i k s new h = elim (Bool-cases (text_eq i.subject k)) [
  | inr q ↦
      rw q (
        follow-other k i.subject s (evaluate l.policy i).state (get i.subject l.states) i.now new q)
  | inl q ↦
      let same = (text_eq_iff i.subject k).0 q in
      let own : get i.subject l.states ≡ some s = ap (λ x. get x l.states) same ∙ h in
      rw (q, own) (follow-own k i.subject s (evaluate l.policy i).state i.now new q)
]

-- Whatever is evaluated, the transitions that a ledger adds, followed from the state that a subject had,
-- each start in the state the one before led to, and lead to the state that the ledger then holds for it.
pub evaluate_all-follow :
    (l : DecayLedger) (inputs : List DecayInputs) (k : Text) (s : DecayState)
    → state_of l k ≡ some s
    → (new : List StateTransition) × ((evaluate_all l inputs).transitions ≡ l.transitions ++ new)
      × (state_of (evaluate_all l inputs) k ≡ follow k s new)
unfolding evaluate_all record_evaluation evaluate
evaluate_all-follow l [] k s h = ([], sym (append-nil l.transitions), h)
evaluate_all-follow l (i ∷ inputs) k s h =
    let state = (evaluate l.policy i).state in
    let now = state_of-recorded l i k s h in
    let (new, p, q) =
      evaluate_all-follow (record_evaluation l i) inputs k (moved k i.subject state s) now in
    let one = changed (get i.subject l.states) i.subject state i.now in
    (one ++ new, p ∙ append_assoc l.transitions one new, q ∙ sym (follow-recorded l i k s new h))
