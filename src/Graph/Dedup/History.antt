-- ===== src/Graph/Dedup/History.antt =====
-- `Deduplicator` of crates/brolga-graph/src/dedup.rs after any sequence of observations.
use mathlib.Core.List.{Memᴰ, append-nil, append_assoc}
use brolga.Prelude.{
  ◌≡◌, ◌≢◌, refl, sym, ap, ◌∙◌, inl, inr, Text, text_eq, text_eq_iff, Bool, true, false, Option,
  some, List, [], ◌∷◌, ◌++◌, arith, if◌then◌else◌, All-Memᴰ, Bool-cases,
}
use brolga.Prelude.TextMap.{get, get-insert}
use brolga.Graph.Dedup.{
  DedupVerdict, increases_corroboration, Observation, RecordLineage, no_lineage, Deduplicator,
  judge, extend, prior_of, lineage_of, or_default, observe, observe_all, new, corroboration,
}
use brolga.Graph.Dedup.Verdict.{
  Judged, is_exact, is_syndicated, is_restated, is_update as as_update, is_independent,
  judge-Judged, SameBytes,
}
use brolga.Graph.Dedup.Lineage.{Consistent, extend-Consistent}
use brolga.Graph.Dedup.Recounts.{Recounts, unseen, extend-Recounts}

or_default-if {ℓ} :
    {A : Type ℓ} (b : Bool) (d a : A) (o : Option A)
    → or_default d (if b then some a else o) ≡ (if b then a else or_default d o)
or_default-if true d a o = refl
or_default-if false d a o = refl

prior_of-observe :
    (s : Deduplicator) (o : Observation) (k : Text)
    → prior_of (observe s o).0 k
      ≡ (if text_eq k o.record_id then prior_of s o.record_id ++ o ∷ [] else prior_of s k)
unfolding observe
prior_of-observe s o k = rw get-insert (or_default-if (text_eq k o.record_id) _ _ _)

lineage_of-observe :
    (s : Deduplicator) (o : Observation) (k : Text)
    → lineage_of (observe s o).0 k ≡ (
        if text_eq k o.record_id
        then extend (lineage_of s o.record_id) o (judge o (prior_of s o.record_id))
        else lineage_of s k)
unfolding observe
lineage_of-observe s o k = rw get-insert (or_default-if (text_eq k o.record_id) _ _ _)

abbrev Accounts : List Observation → RecordLineage → Type 0
Accounts os l = Consistent os l × Recounts os l

extend-Accounts :
    (os : List Observation) (l : RecordLineage) (o : Observation)
    → Accounts os l
    → Accounts (os ++ o ∷ []) (extend l o (judge o os))
extend-Accounts os l o (c, r) = (extend-Consistent os l o c, extend-Recounts os l o c r)

abbrev AllAccounts : Deduplicator → Type 0
AllAccounts s = (k : Text) → Accounts (prior_of s k) (lineage_of s k)

observe-AllAccounts :
    (s : Deduplicator) (o : Observation) → AllAccounts s → AllAccounts (observe s o).0
observe-AllAccounts s o c k =
    rw (prior_of-observe, lineage_of-observe) (split (text_eq k o.record_id))
  where
    split :
        (b : Bool)
        → Accounts (if b then prior_of s o.record_id ++ o ∷ [] else prior_of s k) (
            if b
            then extend (lineage_of s o.record_id) o (judge o (prior_of s o.record_id))
            else lineage_of s k)
    split true = extend-Accounts _ _ o (c o.record_id)
    split false = c k

observe_all-AllAccounts :
    (s : Deduplicator) (os : List Observation) → AllAccounts s → AllAccounts (observe_all s os)
unfolding observe_all
observe_all-AllAccounts s [] c = c
observe_all-AllAccounts s (o ∷ os) c =
    observe_all-AllAccounts (observe s o).0 os (observe-AllAccounts s o c)

new-Consistent : Consistent [] no_lineage
unfolding corroboration
new-Consistent = record {
  decided = refl;
  of_seen = λ p h. h;
  distinct = tt;
  corroborated = refl;
  versioned = refl;
}

new-AllAccounts : AllAccounts new
unfolding new get
new-AllAccounts k = (new-Consistent, unseen refl)

-- The observations of one record, in order.
pub about : Text → List Observation → List Observation
about k [] = []
about k (o ∷ os) = if text_eq k o.record_id then o ∷ about k os else about k os

prior_of-observe_all :
    (s : Deduplicator) (os : List Observation) (k : Text)
    → prior_of (observe_all s os) k ≡ prior_of s k ++ about k os
unfolding observe_all about
prior_of-observe_all s [] k = sym (append-nil _)
prior_of-observe_all s (o ∷ os) k = elim (Bool-cases (text_eq k o.record_id)) [
  | inl e ↦ rw e (
      prior_of-observe_all (observe s o).0 os k
      ∙ ap (λ x. x ++ about k os) (prior_of-observe s o k ∙ rw e refl)
      ∙ append_assoc (prior_of s o.record_id) (o ∷ []) (about k os)
      ∙ ap (λ z. prior_of s z ++ (o ∷ about k os)) (sym ((text_eq_iff k o.record_id).0 e)))
  | inr e ↦ rw (prior_of-observe_all (observe s o).0 os k, prior_of-observe s o k, e) refl
]

prior_of-new : (os : List Observation) (k : Text) → prior_of (observe_all new os) k ≡ about k os
unfolding new get
prior_of-new os k = prior_of-observe_all new os k

-- After any sequence of observations, the lineage of every record is the one that the observations of
-- it come to in their order. Its decisions are one for each observation, with the verdict that the
-- earlier ones call for. Its corroborating publishers are the publishers of the observations that
-- were judged independent, in order, and are distinct. Its versions are the record hash of the first
-- observation and then that of each observation that was judged an update: a publisher that restates
-- in new bytes a later version of its own is judged so, and the version stands again.
pub observe_all-Consistent :
    (os : List Observation) (k : Text)
    → Consistent (about k os) (lineage_of (observe_all new os) k)
      × Recounts (about k os) (lineage_of (observe_all new os) k)
observe_all-Consistent os k =
    rw (← prior_of-new os k) (observe_all-AllAccounts new os new-AllAccounts k)

-- Observing one record changes the lineage of no other.
pub observe_elsewhere :
    (s : Deduplicator) (o : Observation) (k : Text)
    → k ≢ o.record_id
    → (lineage_of (observe s o).0 k ≡ lineage_of s k) × (prior_of (observe s o).0 k ≡ prior_of s k)
observe_elsewhere s o k n =
    let e : text_eq k o.record_id ≡ false = ground (arith, text_eq_iff k o.record_id) in
    (lineage_of-observe s o k ∙ rw e refl, prior_of-observe s o k ∙ rw e refl)

copied :
    (o x : Observation) (os : List Observation)
    → Memᴰ x os
    → x.content_hash ≡ o.content_hash
    → increases_corroboration (judge o os).verdict ≡ false
unfolding increases_corroboration
copied o x os m b = go (judge-Judged o os)
  where
    go : {v : DedupVerdict} → Judged o os v → increases_corroboration v ≡ false
    go (is_exact y f q) = refl
    go (is_syndicated y f q) = refl
    go (is_restated y a f q) = refl
    go (as_update y a f q) = refl
    go (is_independent a c) = absurd (All-Memᴰ (λ y. ¬ SameBytes o y) os a m b)

-- Evidence whose bytes were seen before for the record, from whichever publisher, leaves the
-- record's corroboration as it was.
pub copy_keeps_corroboration :
    (s : Deduplicator) (o x : Observation)
    → Memᴰ x (prior_of s o.record_id)
    → x.content_hash ≡ o.content_hash
    → corroboration (lineage_of (observe s o).0 o.record_id)
      ≡ corroboration (lineage_of s o.record_id)
unfolding corroboration extend
copy_keeps_corroboration s o x m b =
    rw
      (
        lineage_of-observe s o o.record_id,
        (text_eq_iff o.record_id o.record_id).1 refl,
        extend,
        copied o x (prior_of s o.record_id) m b,
      )
      refl
