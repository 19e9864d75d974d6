-- ===== src/Session/Budgets.antt =====
-- The budgets of crates/misy-core/src/core/compaction/metrics.rs.
use misy.Common.{ℕ, ◌+◌, ◌/◌, ◌≤◌, Option, arith}
use misy.Session.Compaction.{reserve_tokens, compaction_threshold, summary_output_tokens}

record Budgets (scaled : ℕ) (configured : Option ℕ) (window : ℕ) : Type 0 where
  together :
      compaction_threshold scaled configured window + reserve_tokens configured window ≤ window
  half : reserve_tokens configured window ≤ window / 2
  least : 2000 ≤ summary_output_tokens window configured
  most : summary_output_tokens window configured ≤ 16000

reserve-half : (configured : Option ℕ) (window : ℕ) → reserve_tokens configured window ≤ window / 2
unfolding reserve_tokens
reserve-half configured window = ground arith

-- The threshold and the reserve fit in the window together, and the reserve is half of it at most; a
-- summary has 2,000 to 16,000 tokens, whatever is configured.
reserve_tokens-Budgets :
    (scaled : ℕ) (configured : Option ℕ) (window : ℕ) → Budgets scaled configured window
unfolding compaction_threshold summary_output_tokens
reserve_tokens-Budgets scaled configured window = record {
  together = omega (arith, reserve-half configured window);
  half = reserve-half configured window;
  least = omega arith;
  most = omega arith;
}
