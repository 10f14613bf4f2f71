-- ===== src/Graph/Decay/Ledger.antt =====
-- crates/brolga-graph/src/decay.rs, `DecayLedger`: the states of subjects and the changes of them.
pub mod History
use brolga.Prelude.{
  ℕ, take, ltb, leb, ◌||◌, Bool, true, false, not, ◌&&◌, Option, some, none, List, [], ◌∷◌, ◌++◌,
  Text, text_eq, text_leb, if◌then◌else◌,
}
use brolga.Prelude.TextMap.{TextMap, get, insert}
use brolga.Model.Temporal.{Timestamp}
use brolga.Graph.Decay.Policy.{DecayPolicy}
use brolga.Graph.Decay.Evaluator.{
  DecayState, undated, live, dormant, exempted, revoked, expired, superseded, is_live, DecayInputs,
  DecayAssessment, evaluate,
}

-- The derived equality.
abbrev pub state_eq : DecayState → DecayState → Bool
state_eq undated undated = true
state_eq live live = true
state_eq dormant dormant = true
state_eq exempted exempted = true
state_eq revoked revoked = true
state_eq expired expired = true
state_eq superseded superseded = true
state_eq _ _ = false

pub record StateTransition : Type 0 where
  pub subject : Text
  pub from_state : DecayState
  pub to_state : DecayState
  pub at_instant : Timestamp
  pub reactivation : Bool

pub record DecayLedger : Type 0 where
  pub policy : DecayPolicy
  pub states : TextMap DecayState
  pub transitions : List StateTransition

abbrev pub with_policy : DecayPolicy → DecayLedger
with_policy p = record { policy = p; states = []; transitions = [] }

-- `char::is_control`, as the standard library documents it.
abbrev is_control : ℕ → Bool
is_control c = ltb c 32 || (leb 127 c && leb c 159)

abbrev printable : Text → Text
printable [] = []
printable (c ∷ s) = let rest = printable s in if is_control c then rest else c ∷ rest

unfoldable pub bounded : Text → Text
bounded s = take 200 (printable s)

unfoldable pub seed_state : Text → DecayState → DecayLedger → DecayLedger
unfolding insert bounded
seed_state subject state l = record l { states = insert (bounded subject) state l.states }

unfoldable pub state_of : DecayLedger → Text → Option DecayState
unfolding get
state_of l subject = get subject l.states

abbrev reactivated : List StateTransition → List StateTransition
reactivated [] = []
reactivated (t ∷ s) = let rest = reactivated s in if t.reactivation then t ∷ rest else rest

unfoldable pub reactivations : DecayLedger → List StateTransition
reactivations l = reactivated l.transitions

-- The change from a state, where there was one and it differs.
unfoldable pub changed : Option DecayState → Text → DecayState → Timestamp → List StateTransition
unfolding is_live
changed none subject state now = []
changed (some previous) subject state now =
    if state_eq previous state
    then []
    else (record {
      subject = subject;
      from_state = previous;
      to_state = state;
      at_instant = now;
      reactivation = not (is_live previous) && is_live state;
    })
      ∷ []

-- `DecayLedger::evaluate`: what the ledger is after it.
unfoldable pub record_evaluation : DecayLedger → DecayInputs → DecayLedger
unfolding insert get
record_evaluation l i =
    let assessment = evaluate l.policy i in
    record l {
      states = insert assessment.subject assessment.state l.states;
      transitions =
          l.transitions
          ++ changed (get assessment.subject l.states) assessment.subject assessment.state i.now;
    }

unfoldable pub evaluate_all : DecayLedger → List DecayInputs → DecayLedger
unfolding record_evaluation
evaluate_all l [] = l
evaluate_all l (i ∷ inputs) = evaluate_all (record_evaluation l i) inputs
