-- ===== src/Retry.antt =====
-- utils/bridges/wormhole-execution.ts, lines 23 to 52: the retries of destination setup.
use governance_seatbelt.Prelude.{ℕ, zero, suc, ◌-◌}
use governance_seatbelt.Exec.{Exec, pure, try_catch}

abbrev pub destination_setup_max_attempts : ℕ
destination_setup_max_attempts = 3

-- The attempts from one on after which `left` more may follow; the last one's error is thrown.
unfoldable pub attempt : {A S : Type 0} → ℕ → Exec S A → Exec S A
attempt zero operation = operation
attempt (suc left) operation = try_catch operation pure (λ e. attempt left operation)

unfoldable pub with_destination_setup_retry : {A S : Type 0} → Exec S A → Exec S A
with_destination_setup_retry operation = attempt (destination_setup_max_attempts - 1) operation
