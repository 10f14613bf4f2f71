-- ===== src/Graph/Resolve.antt =====
-- crates/brolga-graph/src/resolve.rs: the standing decisions about which entities are the same.
-- An `Id<Entity>` is the text that it prints as, by which the code keys its maps. Of a set the code
-- asks only whether it contains something, so its order is left out. `char::is_whitespace`, by which
-- `trim` goes, is a parameter.
pub mod Chain
pub mod Merging
pub mod Pinned
pub mod Signals
pub mod Resolver
pub mod Decisive
pub mod Outcome
pub mod Scores
pub mod Combined
pub mod Review
pub mod Standing
use brolga.Prelude.{
  ℕ, suc, zero, Text, text_eq, text_leb, Bool, true, false, ◌&&◌, ◌||◌, not, Option, none, some,
  List, [], ◌∷◌, ◌++◌, if◌then◌else◌, length, ◌≡◌, refl, ◌⊎◌, inl, inr,
}
use brolga.Prelude.TextMap
use brolga.Prelude.TextMap.{TextMap}

pub data OperationKind : Type 0 where
  merge split reject alias pin : OperationKind

-- `OperationKind::inverse`
unfoldable pub inverse : OperationKind → Option OperationKind
inverse merge = some split
inverse split = some merge
inverse _ = none

pub record ManualOperation : Type 0 where
  pub kind : OperationKind
  pub left : Text
  pub right : Option Text
  pub actor : Text
  pub policy_context : Text
  pub note : Option Text
  pub withdraws : Bool

pub data OperationRefused : Type 0 where
  no_actor no_policy_context needs_pair : OperationKind → OperationRefused
  pinned : Text → OperationRefused

pub data Result {ℓ} (A : Type ℓ) : Type ℓ where
  ok : A → Result A
  err : OperationRefused → Result A

pub ok-injective {ℓ} : {A : Type ℓ} {a b : A} → ok a ≡ ok b → a ≡ b
ok-injective h = cc

pub Result-cases {ℓ} :
    {A : Type ℓ} (r : Result A) → ((a : A) × (r ≡ ok a)) ⊎ ((e : OperationRefused) × (r ≡ err e))
Result-cases (ok a) = inl (a, refl)
Result-cases (err e) = inr (e, refl)

pub record ResolutionState : Type 0 where
  pub aliases : TextMap Text
  pub rejections : List (Text × Text)
  pub pins : List Text
  pub merges : TextMap Text
  pub history : List ManualOperation

unfoldable pub new : ResolutionState
new = record { aliases = []; rejections = []; pins = []; merges = []; history = [] }

-- Sets of identities and of pairs.
unfoldable pub contains : Text → List Text → Bool
contains k [] = false
contains k (j ∷ s) = text_eq k j || contains k s

unfoldable pub without : Text → List Text → List Text
without k [] = []
without k (j ∷ s) = let rest = without k s in if text_eq k j then rest else j ∷ rest

abbrev pub pair_eq : Text × Text → Text × Text → Bool
pair_eq (a, b) (c, d) = text_eq a c && text_eq b d

unfoldable pub contains_pair : Text × Text → List (Text × Text) → Bool
contains_pair p [] = false
contains_pair p (q ∷ s) = pair_eq p q || contains_pair p s

unfoldable pub without_pair : Text × Text → List (Text × Text) → List (Text × Text)
without_pair p [] = []
without_pair p (q ∷ s) = let rest = without_pair p s in if pair_eq p q then rest else q ∷ rest

-- The two texts in their order.
unfoldable pub ordered : Text → Text → Text × Text
ordered left right = if text_leb left right then (left, right) else (right, left)

abbrev needs_right : OperationKind → Bool
needs_right pin = false
needs_right _ = true

abbrev pub unwrap_or_default : Option Text → Text
unwrap_or_default none = []
unwrap_or_default (some t) = t

-- The arms of `apply`'s `match`.
unfoldable pub merged : ResolutionState → Text → Text → Result ResolutionState
merged s left right =
    if contains left s.pins
    then err (pinned left)
    else if contains right s.pins
    then err (pinned right)
    else let (survivor, absorbed) = ordered left right in
      ok (record s { merges = TextMap.insert absorbed survivor s.merges })

unfoldable pub perform : ResolutionState → ManualOperation → OperationKind → Result ResolutionState
perform s o merge = merged s o.left (unwrap_or_default o.right)
perform s o split =
    let (_, absorbed) = ordered o.left (unwrap_or_default o.right) in
    ok (record s { merges = TextMap.remove absorbed s.merges })
perform s o reject =
    let pair = ordered o.left (unwrap_or_default o.right) in
    ok (record s {
      rejections =
          if o.withdraws
          then without_pair pair s.rejections
          else if contains_pair pair s.rejections
          then s.rejections
          else pair ∷ s.rejections;
    })
perform s o alias =
    let (canonical, other) = ordered o.left (unwrap_or_default o.right) in
    ok (record s {
      aliases =
          if o.withdraws
          then TextMap.remove other s.aliases
          else TextMap.insert other canonical s.aliases;
    })
perform s o pin = ok (record s {
  pins =
      if o.withdraws
      then without o.left s.pins
      else if contains o.left s.pins
      then s.pins
      else o.left ∷ s.pins;
})

-- `self.history.push(operation)`, after the arm.
abbrev pub logged : ManualOperation → Result ResolutionState → Result ResolutionState
logged o (ok s) = ok (record s { history = s.history ++ o ∷ [] })
logged o (err e) = err e

module _ (is_whitespace : ℕ → Bool) where
  -- `text.trim().is_empty()`
  unfoldable pub is_blank : Text → Bool
  is_blank [] = true
  is_blank (c ∷ s) = is_whitespace c && is_blank s

  unfoldable pub apply : ResolutionState → ManualOperation → Result ResolutionState
  apply s o =
      if is_blank o.actor
      then err (no_actor o.kind)
      else if is_blank o.policy_context
      then err (no_policy_context o.kind)
      else if needs_right o.kind && is_missing o.right
      then err (needs_pair o.kind)
      else logged o (perform s o o.kind)
    where
      is_missing : Option Text → Bool
      is_missing none = true
      is_missing (some t) = false

  unfoldable pub replay_from : ResolutionState → List ManualOperation → Result ResolutionState
  replay_from s [] = ok s
  replay_from s (o ∷ os) = elim (apply s o) [ ok t ↦ replay_from t os | err e ↦ err e ]

  unfoldable pub replay : List ManualOperation → Result ResolutionState
  replay = replay_from new

unfoldable pub is_rejected : ResolutionState → Text → Text → Bool
is_rejected s left right = contains_pair (ordered left right) s.rejections

unfoldable pub is_pinned : ResolutionState → Text → Bool
is_pinned s id = contains id s.pins

-- The loop of `canonical_identity`, by the rounds left.
unfoldable pub chase : ℕ → TextMap Text → Text → Text
chase zero m current = current
chase (suc n) m current = elim (TextMap.get current m) [
  | some next ↦ elim (text_eq next current) [ true ↦ current | false ↦ chase n m next ]
  | none ↦ current
]

unfoldable pub canonical_identity : ResolutionState → Text → Text
canonical_identity s id = chase (suc (length s.merges)) s.merges id

abbrev pub is_same : Option Text → Text → Bool
is_same none t = false
is_same (some u) t = text_eq u t

unfoldable pub is_alias : ResolutionState → Text → Text → Bool
is_alias s left right =
    let (canonical, other) = ordered left right in is_same (TextMap.get other s.aliases) canonical
