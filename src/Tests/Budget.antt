-- ===== src/Tests/Budget.antt =====
-- Runs of crates/brolga-graph/src/budget.rs.
use mathlib.Core.List.{Perm}
use brolga.Prelude.{
  ℕ, ◌≡◌, refl, ◌↔◌, Bool, true, false, some, String, List, [], ◌∷◌, ◌++◌, map, All,
}
use brolga.Graph.Budget.{tokens, Limits, unlimited, Item, Fitted, ok, heuristic_tokens}
use brolga.Graph.Budget.Fit.{
  Fitting, start, exceeds, step, rounds, ordered, select, fit, weigh, admit, keep, drop, report,
}
use brolga.Graph.Budget.Loop.{ids, fit-perm, Fits, fit-Fits}
use brolga.Graph.Budget.Required.{fit-keeps_required}
use brolga.Graph.Budget.Afford.{Affords, fit_succeeds_iff}
use brolga.Graph.Budget.Sections.{KeepsSpared, section_stops}

abbrev item : String → String → ℕ → Bool → Item
item id section size required = record {
  id = id;
  section = section;
  bytes = size;
  tokens = size;
  is_relationship = false;
  required = required;
}

-- A large item, then a small one of its section, then a required one.
abbrev pack : List Item
pack = item "a" "x" 90 false ∷ item "b" "x" 5 false ∷ item "c" "y" 20 true ∷ []

abbrev hundred : Limits
hundred = record unlimited { tokens = some 100 }

abbrev clock : ℕ → ℕ
clock n = n

abbrev final : Fitting
final = record {
  used_tokens = 20;
  used_bytes = 20;
  used_objects = 1;
  used_relationships = 0;
  kept = "c" ∷ [];
  dropped = ("a", tokens) ∷ ("b", tokens) ∷ [];
  binding = tokens ∷ [];
  closed = ("x", tokens) ∷ [];
}

abbrev fitted : Fitted
fitted = report hundred heuristic_tokens 3 final

-- The small item is dropped with the large one that precedes it.
pack_fits : fit pack hundred heuristic_tokens clock ≡ ok fitted
unfolding fit ordered rounds step admit weigh exceeds keep drop start
pack_fits = refl

fit_succeeds_iff_example :
    ((f : Fitted) × (fit pack hundred heuristic_tokens clock ≡ ok f))
    ↔ Affords hundred start (select true pack)
fit_succeeds_iff_example = fit_succeeds_iff pack hundred heuristic_tokens clock refl

fit-keeps_required_example : (rest : List String) × (fitted.kept ≡ ids (select true pack) ++ rest)
fit-keeps_required_example = fit-keeps_required pack hundred heuristic_tokens clock pack_fits

fit-perm_example : Perm (fitted.kept ++ map (λ p. p.0) fitted.dropped) (ids pack)
fit-perm_example = fit-perm pack hundred heuristic_tokens clock pack_fits

fit-Fits_example : All Fits fitted.spend
fit-Fits_example = fit-Fits pack hundred heuristic_tokens clock pack_fits

-- The loop's variables once the required item is in.
abbrev after_required : Fitting
after_required = record {
  used_tokens = 20;
  used_bytes = 20;
  used_objects = 1;
  used_relationships = 0;
  kept = "c" ∷ [];
  dropped = [];
  binding = [];
  closed = [];
}

optional_rounds :
    rounds hundred clock 1 after_required (item "a" "x" 90 false ∷ item "b" "x" 5 false ∷ [])
    ≡ ok final
unfolding rounds step admit weigh exceeds keep drop
optional_rounds = refl

section_stops_example : KeepsSpared "x" after_required final (item "b" "x" 5 false ∷ [])
unfolding exceeds
section_stops_example =
    section_stops hundred clock 1 after_required (item "a" "x" 90 false) (item "b" "x" 5 false ∷ [])
      tokens 90 80 refl refl optional_rounds
