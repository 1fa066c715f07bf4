-- ===== src/Worker/Turn/Rises.antt =====
-- By how much one turn moves the counters that a tick reads (worker.rs).
use correctness_bench.Common.{ℕ, ◌+◌, ◌<◌, ◌≤◌, ◌≡◌, ◌∙◌, Option, Bytes, arith, u64_mod, u64_add}
use correctness_bench.Float.{Float}
use correctness_bench.Hist.Library.{Hdr}
use correctness_bench.Sched.{intended_send_time}
use correctness_bench.Worker.Spec.{RlAction, RlConfig}
use correctness_bench.Worker.Assert.{Verdict, InlineAssert, classify}
use correctness_bench.Worker.Counters.{LiveCounters}
use correctness_bench.Worker.Connection.{
  ParsedResponse, Shared, Conn, Config, Turn, latencies, record_onset, rate_limit_policy,
  sample_response, count_verdict,
}
use correctness_bench.Worker.Ticks.{seen}
use correctness_bench.Worker.Ticks.Deltas.{Column, entry}
use correctness_bench.Worker.Turn.{complete, on_response, checked}
use correctness_bench.Worker.Turn.Cases.{paced, checked_cases}

-- how much of a column a verdict is
abbrev counted : Column → Verdict → ℕ
counted Column.pass Verdict.pass = 1
counted Column.fail_status Verdict.fail_status = 1
counted Column.fail_latency Verdict.fail_latency = 1
counted Column.fail_size Verdict.fail_size = 1
counted Column.fail_content_type Verdict.fail_content_type = 1
counted Column.rate_limited Verdict.rate_limited = 1
counted _ _ = 0

-- and how much of it a response is, whatever the verdict
abbrev per_response : Column → ℕ
per_response Column.total = 1
per_response _ = 0

-- A counter goes up by one or stays.
pub record Rises (k : Column) (c c' : LiveCounters) : Type 0 where
  pub added : ℕ
  pub small : added ≤ 1
  pub moved : entry k (seen c') ≡ u64_add (entry k (seen c)) added

at_most_one : (k : Column) (v : Verdict) → per_response k + counted k v ≤ 1
at_most_one k v = ground arith

module _ {F : Type 0} ⦃f : Float F⦄ where
  policy_column :
      (a : RlAction) (rl : RlConfig F) (ra : Option ℕ) (conn : Conn F) (c : LiveCounters)
      (k : Column)
      → entry k (seen (rate_limit_policy a rl ra conn c).1) ≡ entry k (seen c)
  unfolding rate_limit_policy seen
  policy_column a rl ra conn c k = ground arith

  onset_column :
      (rl : RlConfig F) (intended : ℕ) (c : LiveCounters) (k : Column)
      → entry k (seen (record_onset rl intended c)) ≡ entry k (seen c)
  unfolding record_onset seen
  onset_column rl intended c k = ground arith

  count_verdict_column :
      (v : Verdict) (rl : RlConfig F) (intended : ℕ) (ra : Option ℕ) (conn : Conn F)
      (c : LiveCounters) (k : Column)
      → entry k (seen c) < u64_mod
      → entry k (seen (count_verdict v rl intended ra conn c).1)
        ≡ u64_add (entry k (seen c)) (counted k v)
  unfolding count_verdict seen
  count_verdict_column Verdict.rate_limited rl intended ra conn c k small =
      let r = conn.res in
      let c' = record c { rate_limited = u64_add c.rate_limited 1 } in
      let conn' = record conn { res = record r { rate_limited = u64_add r.rate_limited 1 } } in
      policy_column rl.action rl ra conn' (record_onset rl intended c') k
      ∙ onset_column rl intended c' k
      ∙ ground arith
  count_verdict_column v rl intended ra conn c k small = ground arith

module _ {F H : Type 0} ⦃f : Float F⦄ ⦃h : Hdr H⦄ where
  sample_column :
      (rules : InlineAssert) (parsed : ParsedResponse) (buf : Bytes) (lat : ℕ) (sh : Shared F H)
      (k : Column)
      → entry k (seen (sample_response rules parsed buf lat sh).counters)
        ≡ entry k (seen sh.counters)
  unfolding sample_response seen
  sample_column rules parsed buf lat sh k = ground arith

  complete_column :
      (lat : ℕ × ℕ) (sh : Shared F H) (conn : Conn F) (k : Column)
      → entry k (seen sh.counters) < u64_mod
      → entry k (seen (complete lat sh conn).0.counters)
        ≡ u64_add (entry k (seen sh.counters)) (per_response k)
  unfolding complete seen
  complete_column lat sh conn k small = ground arith

  on_response-Rises :
      (cfg : Config F) (intended : ℕ) (t : Turn) (parsed : ParsedResponse) (sh : Shared F H)
      (conn : Conn F) (k : Column)
      → entry k (seen sh.counters) < u64_mod
      → Rises k sh.counters (on_response cfg intended t parsed sh conn).0.counters
  unfolding on_response
  on_response-Rises cfg intended t parsed sh conn k small =
      let lat = latencies intended t in
      let a = complete lat sh conn in
      let b = sample_response cfg.rules parsed t.buf lat.0 a.0 in
      let v = classify cfg.rules parsed.status lat.0 parsed.content_length parsed.content_type_lc in
      let first = complete_column lat sh conn k small in
      let sampled = sample_column cfg.rules parsed t.buf lat.0 a.0 k in
      let last =
        count_verdict_column v cfg.rl intended parsed.retry_after_ms a.1 b.counters k
          (omega (arith, first, sampled)) in
      record {
        added = per_response k + counted k v;
        small = at_most_one k v;
        moved = omega (arith, first, sampled, last);
      }

  -- A turn that passed the abort check, however it ends, moves each count of the next tick up by one or leaves it.
  pub checked-Rises :
      (cfg : Config F) (t : Turn) (sh : Shared F H) (conn : Conn F) (k : Column)
      → entry k (seen sh.counters) < u64_mod
      → Rises k sh.counters (checked cfg t sh conn).0.counters
  checked-Rises cfg t sh conn k small =
      checked_cases (λ sh' conn' flow. Rises k sh.counters sh'.counters) cfg t sh conn idle idle
        idle idle idle
        (λ w parsed e.
          on_response-Rises cfg (intended_send_time conn.sched) t parsed sh (paced t conn) k small)
    where
      idle : Rises k sh.counters sh.counters
      idle = record { added = 0; small = omega arith; moved = omega (arith, small) }
