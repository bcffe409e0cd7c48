-- ===== src/Tests/WorkerTests.antt =====
-- Deliveries at concrete inputs.
use fyredocs_backend.Prelude.{true, ◌≡◌, refl, List, ◌++◌, arith}
use fyredocs_backend.Worker.Effects.{Effect}
use fyredocs_backend.Worker.Failure.{delivery_count}
use fyredocs_backend.Worker.Process.{is_duplicate, process_message}
use fyredocs_backend.Worker.Attempts.{Attempt, announce}
use fyredocs_backend.Worker.Protocol.{process_message-Attempt}
use fyredocs_backend.Worker.Settlement.{
  settles, is_answer, is_ack, process_message-settles_once, process_message-acks_last,
}
use fyredocs_backend.Worker.Mirror.{
  told, written, ends_well, process_message-mirrored, process_message-ends_well,
}
use fyredocs_backend.Tests.FakeOutside.{config, payload, delivery, outside, merged, timed_out}

process_message-settles_once_example :
    settles is_answer (process_message config (outside timed_out) (delivery 2)) ≡ true
process_message-settles_once_example =
    process_message-settles_once config (outside timed_out) (delivery 2)

process_message-acks_last_example :
    settles is_ack (process_message config (outside timed_out) (delivery 4)) ≡ true
unfolding delivery_count
process_message-acks_last_example =
    process_message-acks_last config (outside timed_out) (delivery 4) (omega arith)

process_message-Attempt_example :
    (fx : List Effect) × (process_message config (outside merged) (delivery 1)
      ≡ announce config payload "j1" "processing" 20 "" 0 ++ fx)
    × Attempt config (delivery 1) payload "j1" fx
unfolding is_duplicate
process_message-Attempt_example =
    process_message-Attempt config (delivery 1) payload "j1" (outside merged) refl refl refl refl

process_message-mirrored_example :
    told (process_message config (outside timed_out) (delivery 1))
    ≡ written (process_message config (outside timed_out) (delivery 1))
process_message-mirrored_example =
    process_message-mirrored config refl (outside timed_out) (delivery 1)

process_message-ends_well_example :
    ends_well "queued" (process_message config (outside merged) (delivery 1)) ≡ true
unfolding is_duplicate
process_message-ends_well_example =
    process_message-ends_well config (outside merged) (delivery 1) payload "j1" "queued" refl refl
      refl refl
