-- ===== src/Worker/Run/Books.antt =====
-- The books of a run agree: the shared counters, the results of the tasks and the histograms
-- (worker.rs).
use correctness_bench.Common.{
  ℕ, zero, suc, ◌+◌, ◌%◌, ◌<◌, ◌≡◌, refl, sym, ap, ◌∙◌, not, ◌&&◌, if◌then◌else◌, Bool, true, false,
  some, List, [], ◌∷◌, map, All, arith, get_elem?, set, u64_mod, option_cases, if_cases,
}
use mathlib.Core.Path.{subst}
use mathlib.Core.Option.{some-injective}
use correctness_bench.Float.{Float}
use correctness_bench.Hist.Library.{Hdr}
use correctness_bench.Worker.Spec.{RunSpec}
use correctness_bench.Worker.Counters.{ConnResult, no_result, LiveCounters, fresh}
use correctness_bench.Worker.Connection.{Shared, Config, Turn}
use correctness_bench.Worker.Turn.{checked}
use correctness_bench.Worker.Turn.Tally.{
  Tier, completed, passed, bad_status, slow, bad_size, bad_type, limited, backed_off, own, live,
  checked-Together,
}
use correctness_bench.Worker.Turn.Balance.{IsBalanced, checked-IsBalanced}
use correctness_bench.Worker.Run.{
  Task, World, Happening, enters, turns, cancelled, goes_on, is_over, spawn_from, start, config_of,
  enter, take_turn, happen, happen_all, join_result, join_all, report, RunReport,
}

live_abort : (tier : Tier) (c : LiveCounters) → live tier (record c { abort = true }) ≡ live tier c
live_abort tier c = ground arith

module _ {F : Type 0} where
  abbrev pub result : Task F → ConnResult
  result task = task.conn.res

  -- the sum of one tier over the tasks
  abbrev pub total : Tier → List (Task F) → ℕ
  total tier [] = 0
  total tier (task ∷ tasks) = own tier task.conn.res + total tier tasks

  total-set :
      (tier : Tier) (tasks : List (Task F)) (id : ℕ) (old new : Task F)
      → get_elem? tasks id ≡ some old
      → total tier (set tasks id new) + own tier old.conn.res
        ≡ total tier tasks + own tier new.conn.res
  total-set tier [] id old new e = ground arith
  total-set tier (t ∷ tasks) zero old new e = ground arith
  total-set tier (t ∷ tasks) (suc id) old new e = omega (arith, total-set tier tasks id old new e)

  All-set :
      (P : Task F → Type 0) (tasks : List (Task F)) (id : ℕ) (new : Task F)
      → All P tasks
      → P new
      → All P (set tasks id new)
  All-set P [] id new ps p = tt
  All-set P (t ∷ tasks) zero new ps p = (p, ps.1)
  All-set P (t ∷ tasks) (suc id) new ps p = (ps.0, All-set P tasks id new ps.1 p)

  All-get :
      (P : Task F → Type 0) (tasks : List (Task F)) (id : ℕ) (task : Task F)
      → All P tasks
      → get_elem? tasks id ≡ some task
      → P task
  All-get P [] id task ps e = ground arith
  All-get P (t ∷ tasks) zero task ps e = subst P (some-injective _ _ e) ps.0
  All-get P (t ∷ tasks) (suc id) task ps e = All-get P tasks id task ps.1 e

-- Each counter of the worker is the sum of the tasks' own, modulo 2 ^ 64, and each task's results
-- are balanced.
pub record Agrees {F H : Type 0} (w : World F H) : Type 0 where
  pub counted : (tier : Tier) → live tier w.shared.counters ≡ total tier w.tasks % u64_mod
  pub balanced : All (λ task. IsBalanced task.conn.res) w.tasks

module _ {F : Type 0} ⦃f : Float F⦄ where
  spawn_from_total :
      {U : Type 0} (spec : RunSpec F U) (id : ℕ) (connects : List Bool)
      → ((tier : Tier) → total tier (spawn_from spec id connects) ≡ 0)
        × All (λ task. IsBalanced task.conn.res) (spawn_from spec id connects)
  unfolding spawn_from no_result
  spawn_from_total spec id [] = (λ tier. refl, tt)
  spawn_from_total spec id (c ∷ cs) =
      let (sum, each) = spawn_from_total spec (suc id) cs in
      (λ tier. omega (arith, sum tier, spawned tier c), (spawned_balanced c, each))
    where
      spawned :
          (tier : Tier) (c : Bool)
          → own tier (if c then no_result else record no_result { conn_errors = 1 }) ≡ 0
      spawned tier c = ground arith

      spawned_balanced :
          (c : Bool) → IsBalanced (if c then no_result else record no_result { conn_errors = 1 })
      spawned_balanced c = ground arith

module _ {F H : Type 0} ⦃f : Float F⦄ ⦃h : Hdr H⦄ where
  abbrev after : Config F → Turn → Shared F H → Task F → Task F
  after cfg t sh task =
      let (sh', conn, flow) = checked cfg t sh task.conn in
      record { conn = conn; running = goes_on flow; under_way = false }

  enter-Agrees :
      (id : ℕ) (task : Task F) (w : World F H)
      → get_elem? w.tasks id ≡ some task
      → Agrees w
      → Agrees (enter id task w)
  unfolding enter
  enter-Agrees id task w e a =
      if_cases Agrees (task.running && not task.under_way) _ _
        (λ _. if_cases entered w.shared.counters.abort _ _ (λ _. moves _ refl) (λ _. moves _ refl))
        (λ _. a)
    where
      entered : Task F → Type 0
      entered new = Agrees (record w { tasks = set w.tasks id new })

      moves : (new : Task F) → new.conn.res ≡ task.conn.res → entered new
      moves new same = record {
        counted = λ tier.
            omega (arith, a.counted tier, ap (own tier) same, total-set tier w.tasks id task new e);
        balanced =
            All-set _ w.tasks id new a.balanced
              (rw same (All-get (λ task. IsBalanced task.conn.res) w.tasks id task a.balanced e));
      }

  take_turn-Agrees :
      (cfg : Config F) (t : Turn) (id : ℕ) (task : Task F) (w : World F H)
      → get_elem? w.tasks id ≡ some task
      → Agrees w
      → Agrees (take_turn cfg t id task w)
  unfolding take_turn
  take_turn-Agrees cfg t id task w e a =
      let (_, _, flow) = checked cfg t w.shared task.conn in
      if_cases Agrees (task.running && task.under_way && is_over flow) _ _
        (λ _. record {
          counted = λ tier.
              let moved = checked-Together cfg t w.shared task.conn tier in
              let fits = moved.fits (omega (arith, a.counted tier)) in
              omega (
                arith,
                a.counted tier,
                moved.same,
                fits,
                total-set tier w.tasks id task (after cfg t w.shared task) e,
              );
          balanced = All-set _ w.tasks id (after cfg t w.shared task) a.balanced (
              checked-IsBalanced cfg t w.shared task.conn
                (All-get (λ task. IsBalanced task.conn.res) w.tasks id task a.balanced e));
        })
        (λ _. a)

  happen-Agrees :
      (cfg : Config F) (w : World F H) (e : Happening) → Agrees w → Agrees (happen cfg w e)
  unfolding happen
  happen-Agrees cfg w (enters id) a =
      option_cases Agrees (get_elem? w.tasks id) _ _ (λ _. a) (λ task e. enter-Agrees id task w e a)
  happen-Agrees cfg w (turns id t) a =
      option_cases Agrees (get_elem? w.tasks id) _ _ (λ _. a)
        (λ task e. take_turn-Agrees cfg t id task w e a)
  happen-Agrees cfg w cancelled a = record {
    counted = λ tier. live_abort tier w.shared.counters ∙ a.counted tier;
    balanced = a.balanced;
  }

  pub happen_all-Agrees :
      (cfg : Config F) (w : World F H) (es : List Happening)
      → Agrees w
      → Agrees (happen_all cfg w es)
  unfolding happen_all
  happen_all-Agrees cfg w [] a = a
  happen_all-Agrees cfg w (e ∷ es) a =
      happen_all-Agrees cfg (happen cfg w e) es (happen-Agrees cfg w e a)

  pub start-Agrees :
      {U : Type 0} (spec : RunSpec F U) (connects : List Bool)
      → Agrees (start {F = F} {H = H} spec connects)
  unfolding start fresh
  start-Agrees spec connects =
      let (sum, each) = spawn_from_total spec 0 connects in
      record { counted = λ tier. rw (sum tier) (zero_live tier); balanced = each }
    where
      zero_live : (tier : Tier) → live tier fresh ≡ 0 % u64_mod
      zero_live tier = ground arith

module _ {F : Type 0} where
  join_all-own :
      (tier : Tier) (t : ConnResult) (tasks : List (Task F))
      → own tier t < u64_mod
      → own tier (join_all t (map result tasks)) ≡ (own tier t + total tier tasks) % u64_mod
  unfolding join_all
  join_all-own tier t [] small = omega arith
  join_all-own tier t (task ∷ tasks) small =
      let (joined, bound) = join_result-own tier t task.conn.res in
      omega (arith, joined, join_all-own tier (join_result t task.conn.res) tasks bound)
    where
      join_result-own :
          (tier : Tier) (t r : ConnResult)
          → (own tier (join_result t r) ≡ (own tier t + own tier r) % u64_mod)
            × (own tier (join_result t r) < u64_mod)
      join_result-own tier t r = ground arith

  total_balanced :
      (tasks : List (Task F))
      → All (λ task. IsBalanced task.conn.res) tasks
      → total completed tasks % u64_mod
        ≡ (total passed tasks
            + total bad_status tasks
            + total slow tasks
            + total bad_size tasks
            + total bad_type tasks
            + total limited tasks)
          % u64_mod
  total_balanced [] each = refl
  total_balanced (task ∷ tasks) (b, each) = omega (arith, b, total_balanced tasks each)

-- What a report says of the run whose counters are `c`.
pub record IsHonest {F H U : Type 0} (c : LiveCounters) (r : RunReport F H U) : Type 0 where
  pub completed_live : r.completed ≡ c.completed
  pub pass_live : r.pass ≡ c.pass
  pub fail_status_live : r.fail_status ≡ c.fail_status
  pub fail_latency_live : r.fail_latency ≡ c.fail_latency
  pub fail_size_live : r.fail_size ≡ c.fail_size
  pub fail_content_type_live : r.fail_content_type ≡ c.fail_content_type
  pub rate_limited_live : r.rate_limited ≡ c.rate_limited
  pub backoff_live : r.backoff_us_total ≡ c.backoff_us_total
  pub all_counted :
      r.completed
      ≡ (r.pass + r.fail_status + r.fail_latency + r.fail_size + r.fail_content_type
          + r.rate_limited)
        % u64_mod

no_result_zero : (tier : Tier) → own tier no_result ≡ 0
unfolding no_result
no_result_zero tier = ground arith

module _ {F H U : Type 0} ⦃f : Float F⦄ ⦃h : Hdr H⦄ where
  pub Agrees-IsHonest :
      (spec : RunSpec F U) (elapsed_ns : ℕ) (w : World F H)
      → Agrees w
      → IsHonest w.shared.counters (report spec elapsed_ns w (map result w.tasks))
  unfolding report
  Agrees-IsHonest spec elapsed_ns w a = record {
    completed_live = same completed;
    pass_live = same passed;
    fail_status_live = same bad_status;
    fail_latency_live = same slow;
    fail_size_live = same bad_size;
    fail_content_type_live = same bad_type;
    rate_limited_live = same limited;
    backoff_live = same backed_off;
    all_counted = omega (
      arith,
      total_balanced w.tasks a.balanced,
      summed completed,
      summed passed,
      summed bad_status,
      summed slow,
      summed bad_size,
      summed bad_type,
      summed limited,
    );
  }
    where
      summed :
          (tier : Tier)
          → own tier (join_all no_result (map result w.tasks)) ≡ total tier w.tasks % u64_mod
      summed tier = omega (
        arith,
        no_result_zero tier,
        join_all-own tier no_result w.tasks (omega (arith, no_result_zero tier)),
      )

      same :
          (tier : Tier)
          → own tier (join_all no_result (map result w.tasks)) ≡ live tier w.shared.counters
      same tier = summed tier ∙ sym (a.counted tier)

  -- After any interleaving of turns of any number of connections, with an abort at any point, the
  -- report made from the tasks' own results has the totals of the shared counters in every tier, and
  -- its completed responses are the passes, the failures of all tiers and the 429s (modulo 2 ^ 64).
  pub report-IsHonest :
      (spec : RunSpec F U) (connects : List Bool) (es : List Happening) (elapsed_ns : ℕ)
      → let w : World F H = happen_all (config_of spec) (start spec connects) es in
        IsHonest w.shared.counters (report spec elapsed_ns w (map result w.tasks))
  report-IsHonest spec connects es elapsed_ns =
      Agrees-IsHonest spec elapsed_ns _
        (happen_all-Agrees (config_of spec) (start spec connects) es (start-Agrees spec connects))
