-- ===== src/Gateway/RateLimit/Window.antt =====
-- The limiter's promise: within the window, no more requests than the limit pass.
use fyredocs_backend.Prelude.{
  ℕ, ◌-◌, ◌*◌, ◌/◌, ◌^◌, ◌≤◌, String, true, false, ◌&&◌, ◌=ₛ◌, ltb, ◌≡◌, Option, some, List, [],
  ◌∷◌, map, length, All, Bool-cases, inl, inr, arith,
}
use fyredocs_backend.Prelude.Int.{ℤ, pos, negsuc, gtb_ℤ}
use fyredocs_backend.Store.{ok}
use fyredocs_backend.Text.Decimal.{itoa}
use fyredocs_backend.Gateway.RateLimit.{
  RateConfig, Request, SortedSets, pass, bucket, sliding_window, allow, decide, limited, plan_limit,
  middleware,
}
use fyredocs_backend.Gateway.RateLimit.Scores.{
  ScoreLaws, Distinct, Before, after, recent, recent-Before, after-Held, Held, fresh-All,
  length-map,
}

module _ {W : Type 0} (redis : SortedSets W) (cfg : RateConfig) where
  module _ (score_of : W → String → String → Option ℕ) (laws : ScoreLaws redis score_of)
      (seconds : 10 ^ 9 ≤ cfg.window) (runs : (w : W) → redis.run_fails w ≡ false) where
    recent-Distinct :
        (k : String) (now t : ℕ) (past : List (ℕ × Request))
        → Before t past
        → t ≤ 2 ^ 63
        → Distinct (map itoa (recent redis cfg k now past))
    unfolding recent
    recent-Distinct k now t [] b small = tt
    recent-Distinct k now t ((u, r) ∷ past) b small =
        let rest = recent-Distinct k now u past b.1 (omega (arith, b.0, small)) in
        elim (Bool-cases (
          limited redis cfg r
          && bucket cfg r =ₛ k
          && ltb (redis.bound (now - cfg.window)) (redis.score u))) [
            | inr e ↦ rw (e, recent) rest
            | inl e ↦
                rw (e, recent)
                  (
                    fresh-All u (recent redis cfg k now past) (omega (arith, b.0, small))
                        (recent-Before redis cfg k now u past b.1),
                    rest,
                  )
          ]

    trimmed-Held :
        (k : String) (now : ℕ) (w : W) (ts : List ℕ)
        → All (Held redis cfg score_of laws seconds runs w k now) ts
        → All
            (λ m.
              (s : ℕ) × (score_of
                  (redis.zremrangebyscore k 0 (redis.bound (now - cfg.window)) w)
                  k
                  m
                ≡ some s)
              × (redis.bound (now - cfg.window) ≤ s))
            (map itoa ts)
    trimmed-Held k now w [] hs = tt
    trimmed-Held k now w (t ∷ ts) hs = (
      (
        redis.score t,
        laws.trim_keeps k k (itoa t) _ (redis.score t) w hs.0.0 hs.0.1,
        omega (arith, hs.0.1),
      ),
      trimmed-Held k now w ts hs.1,
    )

    -- The count that the script returns is at least that of the recent requests.
    counted :
        (k : String) (past : List (ℕ × Request)) (now : ℕ) (w : W)
        → Before now past
        → now ≤ 2 ^ 63
        → length (recent redis cfg k now past)
          ≤ (sliding_window redis k
              (now - cfg.window)
              now
              (itoa now)
              (cfg.window / 10 ^ 9 * 2)
              (after redis cfg past w)).0
    unfolding sliding_window
    counted k past now w b small =
        let ts = recent redis cfg k now past in
        let all = trimmed-Held k now (after redis cfg past w) ts (
          after-Held redis cfg score_of laws seconds runs k past now now w b (omega arith) small) in
        omega (
          arith,
          length-map ts,
          laws.count_all _ k _ (map itoa ts) (recent-Distinct k now now past b small) all,
        )

    gtb_ℤ-mono : (x : ℤ) (a b : ℕ) → a ≤ b → gtb_ℤ x (pos b) ≡ true → gtb_ℤ x (pos a) ≡ true
    gtb_ℤ-mono (pos n) a b h g = ground (arith, h, g)
    gtb_ℤ-mono (negsuc n) a b h g = cc

    decide-pass :
        (l : ℤ) (now count : ℕ) (x : ℤ) (left reset : ℕ)
        → decide redis cfg l now (ok count) ≡ pass x left reset
        → gtb_ℤ l (pos count) ≡ true
    unfolding decide
    decide-pass l now count x left reset e = elim (Bool-cases (gtb_ℤ l (pos count))) [
      | inl t ↦ t
      | inr f ↦ let e' = rw (f) at e in cc
    ]

    -- Whatever requests came before, from whomever and each at a later time than the last: if the
    -- limiter lets a request pass, then fewer limited requests came under its key within the window
    -- than its plan's limit (those refused included). This is for a window of a second at least, as
    -- long as the script's runs succeed, with the window's start and the times as Lua's numbers have
    -- them.
    pub middleware-WithinLimit :
        (past : List (ℕ × Request)) (now : ℕ) (r : Request) (w : W) (x : ℤ) (left reset : ℕ)
        → Before now past
        → now ≤ 2 ^ 63
        → (middleware redis cfg now r (after redis cfg past w)).0 ≡ pass x left reset
        → gtb_ℤ (plan_limit redis cfg r) (pos (length (recent redis cfg (bucket cfg r) now past)))
          ≡ true
    unfolding middleware allow
    middleware-WithinLimit past now r w x left reset b small e =
        elim (Bool-cases (limited redis cfg r)) [
          | inr f ↦ let e' = rw (f, middleware) at e in cc
          | inl f ↦ gtb_ℤ-mono _ _ _ (counted (bucket cfg r) past now w b small) (
              decide-pass (plan_limit redis cfg r) now _ x left reset
                (rw (f, middleware, runs (after redis cfg past w), allow) at e))
        ]
