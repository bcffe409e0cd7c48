-- ===== src/Gateway/RateLimit/Scores.antt =====
-- What the limiter's sorted sets hold: the requests of the window.
use fyredocs_backend.Prelude.{
  ℕ, suc, ◌-◌, ◌*◌, ◌/◌, ◌^◌, ◌≤◌, ◌<◌, String, true, false, ◌&&◌, ◌=ₛ◌, ltb, if◌then◌else◌, ltb→lt,
  ◌≡◌, ◌≢◌, refl, sym, ◌∙◌, ap, subst, Option, some, List, [], ◌∷◌, map, length, All, Bool-cases,
  inl, inr, arith, eq_iff,
}
use fyredocs_backend.Prelude.Int.{pos}
use fyredocs_backend.Text.Decimal.{itoa, atoi}
use fyredocs_backend.Text.Decimal.RoundTrip.{atoi-itoa}
use fyredocs_backend.Gateway.RateLimit.{
  RateConfig, Request, SortedSets, bucket, sliding_window, allow, limited, middleware,
}

-- No element occurs twice.
abbrev pub Distinct : List String → Type 0
Distinct [] = Unit
Distinct (x ∷ xs) = All (λ y. x ≢ y) xs × Distinct xs

-- The documented effect of the commands on the score of a member, if it has one. A key that lives
-- on keeps its members.
pub record ScoreLaws {W : Type 0} (redis : SortedSets W) (score_of : W → String → String → Option ℕ)
    : Type 0 where
  pub bound_mono : (a b : ℕ) → a ≤ b → redis.bound a ≤ redis.bound b
  pub trim_keeps :
      (key k m : String) (hi s : ℕ) (w : W)
      → score_of w k m ≡ some s
      → hi < s
      → score_of (redis.zremrangebyscore key 0 hi w) k m ≡ some s
  pub add_new : (key m : String) (s : ℕ) (w : W) → score_of (redis.zadd key s m w) key m ≡ some s
  pub add_keeps :
      (key k m n : String) (s : ℕ) (w : W)
      → m ≢ n
      → score_of (redis.zadd key s m w) k n ≡ score_of w k n
  pub expire_keeps :
      (key k m : String) (ttl : ℕ) (w : W)
      → 0 < ttl
      → score_of (redis.expire key ttl w) k m ≡ score_of w k m
  pub count_all :
      (w : W) (key : String) (lo : ℕ) (ms : List String)
      → Distinct ms
      → All (λ m. (s : ℕ) × (score_of w key m ≡ some s) × (lo ≤ s)) ms
      → length ms ≤ redis.zcount w key lo

itoa-injective : (a b : ℕ) → a < 2 ^ 63 → b < 2 ^ 63 → itoa a ≡ itoa b → a ≡ b
itoa-injective a b ha hb e =
    let same : some (pos a) ≡ some (pos b) = sym (atoi-itoa a ha) ∙ (ap atoi e ∙ atoi-itoa b hb) in
    cc

pub fresh-All :
    (t : ℕ) (us : List ℕ) → t < 2 ^ 63 → All (λ u. u < t) us → All (λ m. itoa t ≢ m) (map itoa us)
fresh-All t [] small h = tt
fresh-All t (u ∷ us) small h = (
  λ e. omega (arith, h.0, itoa-injective t u small (omega (arith, h.0, small)) e),
  fresh-All t us small h.1,
)

pub length-map : (us : List ℕ) → length (map itoa us) ≡ length us
length-map [] = refl
length-map (u ∷ us) = ap suc (length-map us)

-- Requests with their times, the latest first, each before the one that follows it.
abbrev pub Before : ℕ → List (ℕ × Request) → Type 0
Before now [] = Unit
Before now ((t, r) ∷ past) = (t < now) × Before t past

Before-later : (a b : ℕ) (past : List (ℕ × Request)) → a ≤ b → Before a past → Before b past
Before-later a b [] h p = tt
Before-later a b ((t, r) ∷ past) h p = (omega (arith, h, p.0), p.1)

module _ {W : Type 0} (redis : SortedSets W) (cfg : RateConfig) where
  -- The world after the requests.
  unfoldable pub after : List (ℕ × Request) → W → W
  after [] w = w
  after ((t, r) ∷ past) w = (middleware redis cfg t r (after past w)).1

  -- The times of the limited requests under the key that the window still holds at `now`.
  unfoldable pub recent : String → ℕ → List (ℕ × Request) → List ℕ
  recent key now [] = []
  recent key now ((t, r) ∷ past) =
      let rest = recent key now past in
      if limited redis cfg r
        && bucket cfg r =ₛ key
        && ltb (redis.bound (now - cfg.window)) (redis.score t)
      then t ∷ rest
      else rest

  pub recent-Before :
      (key : String) (now t : ℕ) (past : List (ℕ × Request))
      → Before t past
      → All (λ u. u < t) (recent key now past)
  unfolding recent
  recent-Before key now t [] b = tt
  recent-Before key now t ((u, r) ∷ past) b =
      elim (Bool-cases (
        limited redis cfg r
        && bucket cfg r =ₛ key
        && ltb (redis.bound (now - cfg.window)) (redis.score u))) [
          | inl e ↦
              rw (e, recent)
                (b.0, recent-Before key now t past (Before-later u t past (omega (arith, b.0)) b.1))
          | inr e ↦
              rw (e, recent)
                (recent-Before key now t past (Before-later u t past (omega (arith, b.0)) b.1))
        ]

  module _ (score_of : W → String → String → Option ℕ) (laws : ScoreLaws redis score_of)
      (seconds : 10 ^ 9 ≤ cfg.window) (runs : (w : W) → redis.run_fails w ≡ false) where
    abbrev pub Held : W → String → ℕ → ℕ → Type 0
    Held w key now t =
        (score_of w key (itoa t) ≡ some (redis.score t))
        × (redis.bound (now - cfg.window) < redis.score t)

    -- The world that the script leaves.
    abbrev scripted : String → ℕ → W → W
    scripted key t w =
        (sliding_window redis key (t - cfg.window) t (itoa t) (cfg.window / 10 ^ 9 * 2) w).1

    middleware-limited :
        (t : ℕ) (r : Request) (w : W)
        → limited redis cfg r ≡ true
        → (middleware redis cfg t r w).1 ≡ scripted (bucket cfg r) t w
    unfolding middleware allow sliding_window
    middleware-limited t r w e = rw (e, middleware, runs w, allow) refl

    middleware-unlimited :
        (t : ℕ) (r : Request) (w : W)
        → limited redis cfg r ≡ false
        → (middleware redis cfg t r w).1 ≡ w
    unfolding middleware
    middleware-unlimited t r w e = rw (e, middleware) refl

    lower : (t now : ℕ) → t ≤ now → redis.bound (t - cfg.window) ≤ redis.bound (now - cfg.window)
    lower t now h = laws.bound_mono (t - cfg.window) (now - cfg.window) (omega (arith, h))

    Held-scripted :
        (key k : String) (t u now : ℕ) (w : W)
        → t ≤ now
        → u < t
        → t < 2 ^ 63
        → Held w k now u
        → Held (scripted key t w) k now u
    unfolding sliding_window
    Held-scripted key k t u now w h lt small held =
        let w1 = redis.zremrangebyscore key 0 (redis.bound (t - cfg.window)) w in
        let w2 = redis.zadd key (redis.score t) (itoa t) w1 in
        let other : itoa t ≢ itoa u =
          λ e. omega (arith, lt, itoa-injective t u small (omega (arith, lt, small)) e) in
        let low = lower t now h in
        (
          laws.expire_keeps key k (itoa u) _ w2 (omega (arith, seconds))
              ∙ (laws.add_keeps key k (itoa t) (itoa u) (redis.score t) w1 other
                  ∙ laws.trim_keeps key k (itoa u) _ (redis.score u) w held.0
                      (omega (arith, low, held.1))),
          held.1,
        )

    scripted-new :
        (key : String) (t : ℕ) (w : W)
        → score_of (scripted key t w) key (itoa t) ≡ some (redis.score t)
    unfolding sliding_window
    scripted-new key t w =
        laws.expire_keeps key key (itoa t) _ _ (omega (arith, seconds))
        ∙ laws.add_new key (itoa t) (redis.score t) _

    Held-All :
        (key k : String) (t now : ℕ) (w : W) (ts : List ℕ)
        → t ≤ now
        → t < 2 ^ 63
        → All (λ u. u < t) ts
        → All (Held w k now) ts
        → All (Held (scripted key t w) k now) ts
    Held-All key k t now w [] h small b hs = tt
    Held-All key k t now w (u ∷ ts) h small b hs =
        (Held-scripted key k t u now w h b.0 small hs.0, Held-All key k t now w ts h small b.1 hs.1)

    recent-Held :
        (k : String) (t now : ℕ) (r : Request) (past : List (ℕ × Request)) (w : W)
        → limited redis cfg r ≡ true
        → All (Held (scripted (bucket cfg r) t w) k now) (recent k now past)
        → All (Held (scripted (bucket cfg r) t w) k now) (recent k now ((t, r) ∷ past))
    unfolding recent
    recent-Held k t now r past w e kept = elim (Bool-cases (bucket cfg r =ₛ k)) [
      | inr f ↦ rw (e, recent, f) kept
      | inl f ↦ elim (Bool-cases (ltb (redis.bound (now - cfg.window)) (redis.score t))) [
        | inr g ↦ rw (e, recent, f, g) kept
        | inl g ↦
            rw (e, recent, f, g)
              (
                (
                  subst
                      (λ j.
                        score_of (scripted (bucket cfg r) t w) j (itoa t) ≡ some (redis.score t))
                      ((eq_iff (bucket cfg r) k).0 f) (scripted-new (bucket cfg r) t w),
                  ltb→lt _ _ g,
                ),
                kept,
              )
      ]
    ]

    pub after-Held :
        (k : String) (past : List (ℕ × Request)) (bound now : ℕ) (w : W)
        → Before bound past
        → bound ≤ now
        → now ≤ 2 ^ 63
        → All (Held (after past w) k now) (recent k now past)
    unfolding after recent
    after-Held k [] bound now w b h small = tt
    after-Held k ((t, r) ∷ past) bound now w b h small =
        let held = after-Held k past t now w b.1 (omega (arith, h, b.0)) small in
        let older = recent-Before k now t past b.1 in
        elim (Bool-cases (limited redis cfg r)) [
          | inr e ↦ rw (e, after, middleware-unlimited t r (after past w) e, recent) held
          | inl e ↦
              rw (after, middleware-limited t r (after past w) e)
                (recent-Held k t now r past (after past w) e (
                  Held-All (bucket cfg r) k t now (after past w) (recent k now past)
                    (omega (arith, h, b.0)) (omega (arith, h, b.0, small)) older held))
        ]
