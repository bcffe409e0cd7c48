-- ===== src/Tests/GatewayTests.antt =====
-- The rate limiter at concrete inputs.
use fyredocs_backend.Prelude.{
  ℕ, ◌*◌, ◌^◌, true, ◌≡◌, refl, none, some, List, [], ◌∷◌, length, arith,
}
use fyredocs_backend.Prelude.Int.{pos, gtb_ℤ}
use fyredocs_backend.Text.Space.{trim_space, to_lower}
use fyredocs_backend.Text.Decimal.{itoa}
use fyredocs_backend.Gateway.RateLimit.{
  RateConfig, Request, pass, middleware, plan_limit, bucket, limited, allow, sliding_window, decide,
  remaining, identity, guest_identity, client_ip, limit_for_plan, plan_label, should_limit,
}
use fyredocs_backend.Gateway.RateLimit.Scores.{after, recent}
use fyredocs_backend.Gateway.RateLimit.Window.{middleware-WithinLimit}
use fyredocs_backend.Tests.FakeScores.{score_in, fake_scores, fake-ScoreLaws}

abbrev minute : RateConfig
minute = record {
  has_client = true;
  window = 60 * 10 ^ 9;
  guest_limit = pos 2;
  free_limit = pos 120;
  pro_limit = pos 600;
  key_prefix = "apilimit";
}

abbrev guest : Request
guest = record {
  path = "/api/jobs";
  auth = none;
  forwarded_for = "10.0.0.1, 10.0.0.2";
  remote_addr = "10.0.0.2:4000";
  host = some "10.0.0.2";
}

-- One request a second earlier, and one two minutes earlier.
abbrev earlier : List (ℕ × Request)
earlier = (299 * 10 ^ 9, guest) ∷ (180 * 10 ^ 9, guest) ∷ []

second_passes :
    (middleware fake_scores minute (300 * 10 ^ 9) guest (after fake_scores minute earlier [])).0
    ≡ pass (pos 2) 0 360
unfolding middleware limited should_limit allow sliding_window after decide remaining plan_limit
    limit_for_plan identity guest_identity client_ip bucket plan_label trim_space to_lower itoa
second_passes = refl

middleware-WithinLimit_example :
    gtb_ℤ
      (plan_limit fake_scores minute guest)
      (pos (length (recent fake_scores minute (bucket minute guest) (300 * 10 ^ 9) earlier)))
    ≡ true
middleware-WithinLimit_example =
    middleware-WithinLimit fake_scores minute score_in fake-ScoreLaws (omega arith) (λ w. refl)
      earlier (300 * 10 ^ 9) guest [] (pos 2) 0 360 (omega arith, (omega arith, tt)) (omega arith)
      second_passes
