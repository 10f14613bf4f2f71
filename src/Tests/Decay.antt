-- ===== src/Tests/Decay.antt =====
-- Runs of crates/brolga-graph/src/decay.rs.
use brolga.Prelude.{◌≡◌, refl}
use brolga.Graph.Decay.{half_life, interpolated, shifted, standing_after}

-- One half-life and a half: 50, less half of the 25 that the next one takes.
one_and_a_half : standing_after (half_life 14 5) 21 ≡ 38
unfolding standing_after half_life interpolated shifted
one_and_a_half = refl
