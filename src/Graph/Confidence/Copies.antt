-- ===== src/Graph/Confidence/Copies.antt =====
-- What the observations that crates/brolga-graph/src/dedup.rs judges do to the figure that
-- crates/brolga-graph/src/confidence.rs derives.
use mathlib.Core.List.{Memᴰ}
use brolga.Prelude.{
  ℕ, ◌+◌, ◌≡◌, refl, ap, ◌∙◌, Option, none, some, List, [], ◌∷◌, Text, length, arith,
}
use brolga.Graph.Dedup.{
  DedupDecision, RecordLineage, Observation, Deduplicator, increases_corroboration, observe,
  observe_all, lineage_of, prior_of, new,
}
use brolga.Graph.Dedup.Lineage.{count}
use brolga.Graph.Dedup.History.{about, observe_all-Consistent, copy_keeps_corroboration}
use brolga.Graph.Confidence.{ConfidencePolicy, Corroboration, discounted, from_lineage}
use brolga.Graph.Confidence.Scorer.{
  weighted_mean, component_score, derived_of, weigh_components, assess,
}
use brolga.Graph.Confidence.Assessment.{ScoringInputs}
use brolga.Graph.Confidence.Components.{components_of}

discounted-count :
    (ds : List DedupDecision) → count increases_corroboration ds + discounted ds ≡ length ds
discounted-count [] = omega arith
discounted-count (d ∷ ds) = ground (arith, discounted-count ds)

-- After any sequence of observations, a record's corroboration counts each observation of it once: as
-- an independent party or as discounted.
pub from_lineage-observe_all :
    (os : List Observation) (k : Text)
    → let c = from_lineage (lineage_of (observe_all new os) k) in
      c.independent_parties + c.discounted_observations ≡ length (about k os)
unfolding from_lineage
from_lineage-observe_all os k =
    let l = lineage_of (observe_all new os) k in
    let h = (observe_all-Consistent os k).0 in
    omega (arith, h.decided, h.corroborated, discounted-count l.decisions)

-- The inputs with what the deduplicator counted.
abbrev pub corroborated_by : RecordLineage → ScoringInputs → ScoringInputs
corroborated_by l i = record i { corroboration = some (from_lineage l) }

-- The figure depends on no number of discounted observations.
assess-discounted :
    (p : ConfidencePolicy) (i : ScoringInputs) (r k : Option ℕ) (c : Corroboration) (n : ℕ)
    → (assess p (record i {
      source_reliability = r;
      information_credibility = k;
      corroboration = some (record c { discounted_observations = n });
    })).derived
      ≡ (assess p (record i {
        source_reliability = r;
        information_credibility = k;
        corroboration = some c;
      })).derived
unfolding assess components_of derived_of weighted_mean weigh_components component_score
assess-discounted p i none none c n = refl
assess-discounted p i none (some k) c n = refl
assess-discounted p i (some r) none c n = refl
assess-discounted p i (some r) (some k) c n = refl

-- Evidence whose bytes were seen before for a record, from whichever publisher, leaves the figure
-- derived with the record's corroboration as it was.
pub copy_keeps_figure :
    (p : ConfidencePolicy) (i : ScoringInputs) (s : Deduplicator) (o x : Observation)
    → Memᴰ x (prior_of s o.record_id)
    → x.content_hash ≡ o.content_hash
    → (assess p (corroborated_by (lineage_of (observe s o).0 o.record_id) i)).derived
      ≡ (assess p (corroborated_by (lineage_of s o.record_id) i)).derived
unfolding from_lineage
copy_keeps_figure p i s o x m h =
    let before = lineage_of s o.record_id in
    let after = lineage_of (observe s o).0 o.record_id in
    let with_parties = λ (n : ℕ).
      (assess p (record i {
        corroboration = some (record {
          independent_parties = n;
          discounted_observations = discounted after.decisions;
        });
      })).derived in
    ap with_parties (copy_keeps_corroboration s o x m h)
    ∙ assess-discounted p i i.source_reliability i.information_credibility (from_lineage before)
        (discounted after.decisions)
