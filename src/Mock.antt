-- ===== src/Mock.antt =====
-- mock/src/lib.rs: the mock target, whose failures depend on the load that it measures. The clock is
-- an argument, in milliseconds since the start.
pub mod Meter
pub mod Injection
pub mod Race
pub mod Judged
pub mod Handled
pub mod Response
use correctness_bench.Common.{
  ℕ, zero, suc, ◌+◌, ◌-◌, ◌/◌, ◌%◌, Bool, true, false, ◌&&◌, not, Option, none, some, List, [], ◌∷◌,
  String, ltb, leb, ◌==◌, if◌then◌else◌, replicate, u64_max, u64_add, saturating_sub,
}
use correctness_bench.Float.{Float, whole, fclamp}

abbrev pub slow_penalty_ms : ℕ
slow_penalty_ms = 500

abbrev pub healthy_body : String
healthy_body = "{\"status\":\"ok\",\"count\":3,\"items\":[\"a\",\"b\",\"c\"]}"

abbrev pub wrong_value_body : String
wrong_value_body = "{\"status\":\"ok\",\"count\":-1,\"items\":[\"a\",\"b\",\"c\"]}"

abbrev pub truncate_body : String
truncate_body = "{\"status\":\"ok\",\"count\":3,\"items\":[\"a\",\"b"

abbrev pub error_body : String
error_body = "{\"status\":\"error\",\"code\":500}"

abbrev pub ratelimit_body : String
ratelimit_body = "{\"status\":\"error\",\"code\":429}"

abbrev pub slot_ms : ℕ
slot_ms = 100

abbrev pub slots : ℕ
slots = 10

pub record Bucket : Type 0 where
  pub slot : ℕ
  pub count : ℕ

-- a bucket that was never used
abbrev pub unused : Bucket
unused = record { slot = u64_max; count = 0 }

-- `RpsMeter::new`
abbrev pub RpsMeter : Type 0
RpsMeter = List Bucket

unfoldable pub new : RpsMeter
new = replicate slots unused

-- One request of slot `s` in its bucket, with no other thread in between: a stale bucket is claimed.
unfoldable pub touch : ℕ → Bucket → Bucket
touch s b =
    if b.slot == s then record b { count = u64_add b.count 1 } else record { slot = s; count = 1 }

-- `self.buckets[i]`
unfoldable pub touch_at : ℕ → ℕ → RpsMeter → RpsMeter
unfolding touch
touch_at i s [] = []
touch_at zero s (b ∷ bs) = touch s b ∷ bs
touch_at (suc i) s (b ∷ bs) = b ∷ touch_at i s bs

-- `RpsMeter::record`
unfoldable pub record_at : ℕ → RpsMeter → RpsMeter
unfolding touch_at
record_at now_ms m = let slot = now_ms / slot_ms in touch_at (slot % slots) slot m

-- whether a bucket counts towards the last second
abbrev pub is_recent : ℕ → Bucket → Bool
is_recent now_slot b =
    not (b.slot == u64_max)
    && leb (saturating_sub now_slot (slots - 1)) b.slot
    && leb b.slot now_slot

unfoldable pub sum_recent : ℕ → ℕ → RpsMeter → ℕ
sum_recent now_slot sum [] = sum
sum_recent now_slot sum (b ∷ bs) =
    sum_recent now_slot (if is_recent now_slot b then u64_add sum b.count else sum) bs

-- `RpsMeter::current_rps`, before the cast to `f64`
unfoldable pub current_requests : ℕ → RpsMeter → ℕ
unfolding sum_recent
current_requests now_ms m = sum_recent (now_ms / slot_ms) 0 m

pub data Mode : Type 0 where
  healthy fast500 truncate wrong_value slow_ok ratelimit : Mode

pub record Params (F : Type 0) : Type 0 where
  pub mode : Mode
  pub cliff_rps : F
  pub pct : F
  pub base_latency_ms : ℕ

pub record Decision : Type 0 where
  pub above_cliff : Bool
  pub injected : Bool
  pub status : ℕ
  pub body : String
  pub latency_ms : ℕ
  pub retry_after_secs : Option ℕ

abbrev pub is_healthy : Mode → Bool
is_healthy healthy = true
is_healthy _ = false

-- The `match` on the mode of an injected response. The healthy mode injects nothing, and the code panics
-- there.
unfoldable pub inject : Mode → Bool → ℕ → Decision
inject m above base =
    let d : Decision = record {
      above_cliff = above;
      injected = true;
      status = 200;
      body = healthy_body;
      latency_ms = base;
      retry_after_secs = none;
    } in
    elim m [
      | healthy ↦ d
      | fast500 ↦ record d { status = 500; body = error_body }
      | truncate ↦ record d { body = truncate_body }
      | wrong_value ↦ record d { body = wrong_value_body }
      | slow_ok ↦ record d { latency_ms = u64_add base slow_penalty_ms }
      | ratelimit ↦ record d { status = 429; body = ratelimit_body; retry_after_secs = some 1 }
    ]

module _ {F : Type 0} ⦃f : Float F⦄ where
  -- `default_cliff` and `default_pct`
  abbrev pub default_params : Params F
  default_params = record {
    mode = healthy;
    cliff_rps = whole 100;
    pct = whole 100;
    base_latency_ms = 0;
  }

  -- whether the request of this number gets the failure
  unfoldable pub is_injected : Params F → F → ℕ → Bool
  is_injected p rps seq =
      f.lt p.cliff_rps rps
      && ltb (seq % 100) (f.to_u64 (fclamp p.pct (whole 0) (whole 100)))
      && not (is_healthy p.mode)

  unfoldable pub decide : Params F → F → ℕ → Decision
  unfolding is_injected inject
  decide p rps seq =
      let above_cliff = f.lt p.cliff_rps rps in
      if not (is_injected p rps seq)
      then record {
        above_cliff = above_cliff;
        injected = false;
        status = 200;
        body = healthy_body;
        latency_ms = p.base_latency_ms;
        retry_after_secs = none;
      }
      else inject p.mode above_cliff p.base_latency_ms

-- `AppState`; the clock stands outside
pub record AppState : Type 0 where
  pub meter : RpsMeter
  pub counter : ℕ

unfoldable pub start : AppState
unfolding new
start = record { meter = new; counter = 0 }

-- `handle`: the state after a request, and the decision that the response executes
unfoldable pub handle : {F : Type 0} ⦃f : Float F⦄ → ℕ → Params F → AppState → AppState × Decision
unfolding record_at current_requests decide
handle ⦃f⦄ now params st =
    let meter = record_at now st.meter in
    let rps = f.of_u64 (current_requests now meter) in
    (record { meter = meter; counter = u64_add st.counter 1 }, decide params rps st.counter)
