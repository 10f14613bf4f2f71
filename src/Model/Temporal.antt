-- ===== src/Model/Temporal.antt =====
-- crates/brolga-model/src/temporal.rs: instants, and the windows of a record.
-- A `Timestamp` is its whole seconds since some early date and the nanoseconds after them; its text
-- belongs to the time library.
use brolga.Prelude.{
  ℕ, String, Bool, false, ◌&&◌, ◌||◌, Option, some, none, ltb, ◌==◌, if◌then◌else◌,
}
use brolga.Prelude.Results.{Result, ok, err, ◌>>=◌}

pub record Timestamp : Type 0 where
  pub seconds : ℕ
  pub nanosecond : ℕ

abbrev pub before : Timestamp → Timestamp → Bool
before a b = ltb a.seconds b.seconds || (a.seconds == b.seconds && ltb a.nanosecond b.nanosecond)

pub record TemporalState : Type 0 where
  pub first_seen : Option Timestamp
  pub last_seen : Option Timestamp
  pub valid_from : Option Timestamp
  pub valid_until : Option Timestamp

pub record TimeOrder : Type 0 where
  pub earlier : String
  pub earlier_value : Timestamp
  pub later : String
  pub later_value : Timestamp

unfoldable pub check_order :
    String → Option Timestamp → String → Option Timestamp → Result TimeOrder (Unit {0})
check_order earlier none later b = ok tt
check_order earlier (some a) later none = ok tt
check_order earlier (some a) later (some b) =
    if before b a
    then err (record { earlier = earlier; earlier_value = a; later = later; later_value = b })
    else ok tt

-- `TemporalState::validated`
unfoldable pub validated : TemporalState → Result TimeOrder TemporalState
validated t = check_order "first_seen" t.first_seen "last_seen" t.last_seen >>= λ _.
    check_order "valid_from" t.valid_from "valid_until" t.valid_until >>= λ _. ok t

unfoldable pub observed : Timestamp → Timestamp → Result TimeOrder TemporalState
unfolding validated
observed first last = validated (record {
  first_seen = some first;
  last_seen = some last;
  valid_from = none;
  valid_until = none;
})

unfoldable pub is_expired_at : TemporalState → Timestamp → Bool
is_expired_at t now = elim t.valid_until [ none ↦ false | some until ↦ before until now ]
