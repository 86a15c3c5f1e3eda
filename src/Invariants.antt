-- ===== src/Invariants.antt =====
-- The runtime invariant guards RI-1 to RI-8 (src/libs/invariants/guards.py). A guard returns
-- unit, or the `InvariantViolationError` with the numbers of its context; the message texts are
-- left out. `duration_ms` is a float in the source and a number of microseconds here.
use voice_os.Prelude.{ℕ, Key, Bool, not, ◌&&◌, List, Result, raise_if, ltb, leb, ◌==◌, contains}
use Prim.Native.String.{String}
use text.Mathlib.Text.{◌==◌ as str_eq}

pub data Violation : Type 0 where
  ri1 : ℕ → Violation
  ri2 : Key → Key → Violation
  ri3 : Key → ℕ → ℕ → Violation
  ri4 : Key → Violation
  ri5 : Key → Key → List Key → Violation
  ri6 : Key → Key → Violation
  ri7 : Key → Key → Key → Violation
  ri8 : Key → ℕ → ℕ → Violation

abbrev pub Guard : Type 0
Guard = Result Violation (Unit {0})

unfoldable pub assert_ri1_realtime_purity : Bool → ℕ → Guard
assert_ri1_realtime_purity is_blocking_call duration_us =
    raise_if (is_blocking_call && ltb 1000 duration_us) (ri1 duration_us)

unfoldable pub assert_ri2_single_writer : Key → Key → String → Guard
assert_ri2_single_writer resource_id writer_id lock_token =
    raise_if (str_eq lock_token "") (ri2 resource_id writer_id)

unfoldable pub assert_ri3_bounded_buffer : ℕ → ℕ → Key → Guard
assert_ri3_bounded_buffer queue_depth max_depth queue_name =
    raise_if (leb max_depth queue_depth) (ri3 queue_name queue_depth max_depth)

unfoldable pub assert_ri4_commit_before_act : Bool → Key → Guard
assert_ri4_commit_before_act event_committed action_name =
    raise_if (not event_committed) (ri4 action_name)

-- The `value` argument is for logging only.
unfoldable pub assert_ri5_law_of_authority : Key → List Key → Key → Guard
assert_ri5_law_of_authority fact_key authorized_sources source =
    raise_if (not (contains source authorized_sources)) (ri5 fact_key source authorized_sources)

unfoldable pub assert_ri6_output_coherence : Key → Key → Guard
assert_ri6_output_coherence response_plan_id llm_output_plan_id =
    raise_if (not (response_plan_id == llm_output_plan_id))
      (ri6 response_plan_id llm_output_plan_id)

unfoldable pub assert_ri7_deterministic_prompt : Key → Key → Key → Guard
assert_ri7_deterministic_prompt prompt_hash prompt_version expected_hash =
    raise_if (not (prompt_hash == expected_hash)) (ri7 prompt_version prompt_hash expected_hash)

unfoldable pub assert_ri8_oom_by_construction : ℕ → ℕ → Key → Guard
assert_ri8_oom_by_construction requested_vram_mb available_vram_mb service_name =
    raise_if (ltb available_vram_mb requested_vram_mb)
      (ri8 service_name requested_vram_mb available_vram_mb)
