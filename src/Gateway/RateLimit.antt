-- ===== src/Gateway/RateLimit.antt =====
-- The sliding-window rate limiter (api-gateway/internal/ratelimit/ratelimit.go).
use Prim.Native.Char.{code}
use Prim.Native.String.{◌++◌ as concat}
use text.Mathlib.Text.{starts_with}
use fyredocs_backend.Prelude.{
  ℕ, ◌+◌, ◌-◌, ◌*◌, ◌/◌, ◌^◌, String, Bool, true, false, not, ◌||◌, ◌&&◌, ◌=ₛ◌, ◌==◌, ltb, leb,
  if◌then◌else◌, Option, none, some,
}
use fyredocs_backend.Prelude.Int.{ℤ, pos, negsuc, is_positive, gtb_ℤ}
use fyredocs_backend.Store.{Result, ok, err, broken}
use fyredocs_backend.Text.Decimal.{itoa}
use fyredocs_backend.Text.Space.{trim_space, to_lower}
pub mod Scores
pub mod Window

-- The window is in nanoseconds.
pub record RateConfig : Type 0 where
  pub has_client : Bool
  pub window : ℕ
  pub guest_limit : ℤ
  pub free_limit : ℤ
  pub pro_limit : ℤ
  pub key_prefix : String

-- The defaults for what is not set. A window below 0 is written 0.
unfoldable pub with_defaults : RateConfig → RateConfig
with_defaults cfg = record cfg {
  key_prefix = if cfg.key_prefix =ₛ "" then "apilimit" else cfg.key_prefix;
  window = if ltb 0 cfg.window then cfg.window else 60 * 10 ^ 9;
  guest_limit = if is_positive cfg.guest_limit then cfg.guest_limit else pos 30;
  free_limit = if is_positive cfg.free_limit then cfg.free_limit else pos 120;
  pro_limit = if is_positive cfg.pro_limit then cfg.pro_limit else pos 600;
}

unfoldable pub limit_for_plan : RateConfig → String → ℤ
limit_for_plan cfg plan =
    let p = to_lower (trim_space plan) in
    if p =ₛ "pro" then cfg.pro_limit else if p =ₛ "free" then cfg.free_limit else cfg.guest_limit

unfoldable pub plan_label : String → String
plan_label plan =
    let p = to_lower (trim_space plan) in
    if p =ₛ "pro" then "pro" else if p =ₛ "free" then "free" else "anon"

unfoldable pub should_limit : String → Bool
should_limit path = starts_with path "/api/" || path =ₛ "/api"

-- The fields of `authverify.AuthContext` that the limiter reads.
pub record AuthContext : Type 0 where
  pub user_id : String
  pub plan : String
  pub is_guest : Bool

-- A request: its path, the context that the authentication left (if any), the header
-- X-Forwarded-For, the connection's address and what `net.SplitHostPort` takes from it.
pub record Request : Type 0 where
  pub path : String
  pub auth : Option AuthContext
  pub forwarded_for : String
  pub remote_addr : String
  pub host : Option String

unfoldable pub guest_identity : String → String × String
guest_identity ip = (concat "ip:" ip, "")

unfoldable pub identity : Option AuthContext → String → String × String
identity none ip = guest_identity ip
identity (some a) ip =
    if not a.is_guest && not (trim_space a.user_id =ₛ "")
    then (concat "user:" a.user_id, a.plan)
    else guest_identity ip

before_comma : String → String
before_comma String.[] = ""
before_comma (String.◌∷◌ c s) =
    let rest = before_comma s in if code c == b',' then "" else String.◌∷◌ c rest

unfoldable pub client_ip : Request → String
unfolding before_comma
client_ip r =
    let first = trim_space (before_comma r.forwarded_for) in
    if first =ₛ "" then elim r.host [ some host ↦ host | none ↦ r.remote_addr ] else first

unfoldable pub bucket : RateConfig → Request → String
bucket cfg r =
    let (subject, plan) = identity r.auth (client_ip r) in
    concat cfg.key_prefix (concat ":" (concat (plan_label plan) (concat ":" subject)))

-- Redis' sorted sets, as the script uses them, and Lua's numbers: `bound` is a number as
-- `tostring(tonumber(text))` writes it, `score` as ZADD stores it. `run_fails` tells that the
-- script's call fails, and `after_failure` what the world is then.
pub record SortedSets (W : Type 0) : Type 0 where
  pub bound : ℕ → ℕ
  pub score : ℕ → ℕ
  pub run_fails : W → Bool
  pub after_failure : W → W
  pub zremrangebyscore : String → ℕ → ℕ → W → W
  pub zcount : W → String → ℕ → ℕ
  pub zadd : String → ℕ → String → W → W
  pub expire : String → ℕ → W → W

-- What the middleware decides, with the headers that it has set: the limit, what remains, the
-- reset (in seconds).
pub data Decision : Type 0 where
  unlimited : Decision
  pass : ℤ → ℕ → ℕ → Decision
  too_many : ℤ → ℕ → ℕ → Decision

module _ {W : Type 0} (redis : SortedSets W) where
  unfoldable pub sliding_window : String → ℕ → ℕ → String → ℕ → W → ℕ × W
  sliding_window key window_start now member ttl w =
      let trimmed = redis.zremrangebyscore key 0 (redis.bound window_start) w in
      (
        redis.zcount trimmed key (redis.bound window_start),
        redis.expire key ttl (redis.zadd key (redis.score now) member trimmed),
      )

  -- Times in nanoseconds, the window no longer than the time since 1970.
  unfoldable pub allow : RateConfig → String → ℕ → W → Result ℕ × W
  allow cfg key now w =
      if redis.run_fails w
      then (err (broken "redis"), redis.after_failure w)
      else let (count, w') =
          sliding_window key (now - cfg.window) now (itoa now) (cfg.window / 10 ^ 9 * 2) w in
        (ok count, w')

  -- limit - count - 1, at least 0.
  unfoldable pub remaining : ℤ → ℕ → ℕ
  remaining (pos limit) count = limit - count - 1
  remaining (negsuc n) count = 0

  unfoldable pub decide : RateConfig → ℤ → ℕ → Result ℕ → Decision
  decide cfg limit now (err e) = unlimited
  decide cfg limit now (ok count) =
      let reset = (now + cfg.window) / 10 ^ 9 in
      if gtb_ℤ limit (pos count)
      then pass limit (remaining limit count) reset
      else too_many limit (remaining limit count) reset

  unfoldable pub limited : RateConfig → Request → Bool
  limited cfg r = cfg.has_client && should_limit r.path

  unfoldable pub plan_limit : RateConfig → Request → ℤ
  plan_limit cfg r = limit_for_plan cfg (identity r.auth (client_ip r)).1

  -- The handler of `Middleware`, the defaults filled in.
  unfoldable pub middleware : RateConfig → ℕ → Request → W → Decision × W
  middleware cfg now r w =
      if limited cfg r
      then (let (result, w') = allow cfg (bucket cfg r) now w in
          (decide cfg (plan_limit cfg r) now result, w'))
      else (unlimited, w)
