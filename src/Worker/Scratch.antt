-- ===== src/Worker/Scratch.antt =====
-- The scratch space a job may use (optimize-pdf/internal/worker/tmpfs.go).
use fyredocs_backend.Prelude.{ℕ, String, List, [], ◌∷◌}
use fyredocs_backend.Prelude.Int.{ℤ, pos, to_nat, scale64, quotient, plus64}
use fyredocs_backend.Config.{Env, get_env_int}
use fyredocs_backend.Worker.Outside.{Try, done, fails, Outside}

abbrev pub bytes_per_mib : ℕ
bytes_per_mib = 1048576

unfoldable pub tmpfs_budget_bytes : Env → ℤ
unfolding get_env_int scale64
tmpfs_budget_bytes env = scale64 (get_env_int env "TMPFS_BUDGET_MB" (pos 900)) bytes_per_mib

unfoldable pub large_job_threshold_bytes : Env → ℤ
unfolding get_env_int scale64
large_job_threshold_bytes env =
    scale64 (get_env_int env "LARGE_JOB_THRESHOLD_MB" (pos 100)) bytes_per_mib

-- The inputs and an output of so many percent of them; a negative factor counts as 0. The sum of
-- the sizes is an int64.
unfoldable pub projected_footprint : Env → ℤ → ℤ
unfolding get_env_int scale64 quotient plus64
projected_footprint env total_input =
    let pct = to_nat (get_env_int env "TMPFS_OUTPUT_FACTOR_PCT" (pos 200)) in
    plus64 total_input (quotient (scale64 total_input pct) 100)

-- The total is an int64: it wraps round.
add_size : Try ℕ → Try ℤ → Try ℤ
unfolding plus64
add_size (fails e) rest = fails e
add_size (done n) (fails e) = fails e
add_size (done n) (done total) = done (plus64 (pos n) total)

-- The first failure ends the loop.
unfoldable pub total_input_size : Outside → List String → Try ℤ
unfolding add_size
total_input_size out [] = done (pos 0)
total_input_size out (key ∷ keys) = add_size (out.object_size key) (total_input_size out keys)
