-- ===== src/EngineWorker/Local/TickTask.antt =====
-- The task that takes the run's ticks off their channel (engine/src/bin/worker.rs).
use correctness_bench.Common.{
  ℕ, ◌≡◌, refl, sym, ◌∙◌, none, some, List, [], ◌∷◌, ◌++◌, map, Bytes, arith, codes, if◌then◌else◌,
}
use correctness_bench.Float.{Float}
use correctness_bench.Worker.Ticks.{Tick, Bucket}
use correctness_bench.EngineWorker.{BucketCounts, accumulate}
use correctness_bench.EngineWorker.Local.{Cli, internal_url}

pub data Output (F : Type 0) : Type 0 where
  printed : Tick F → Output F
  posted : Bytes → Tick F → Output F

module _ {F : Type 0} ⦃f : Float F⦄ where
  -- what one tick puts out: a line if they are wanted, and a post if there is where to
  unfoldable pub output : Cli F → Tick F → List (Output F)
  output cli tick =
      (if cli.ticks then printed tick ∷ [] else [])
      ++ (elim (internal_url (codes "tick") cli) [ none ↦ [] | some url ↦ posted url tick ∷ [] ])

  -- the task, over the ticks that it receives
  unfoldable pub tick_task :
      Cli F
      → List (Tick F)
      → List (ℕ × BucketCounts F)
      → List (ℕ × BucketCounts F) × List (Output F)
  unfolding output accumulate
  tick_task cli [] m = (m, [])
  tick_task cli (tick ∷ ticks) m =
      let (m', out) = tick_task cli ticks (accumulate tick.buckets m) in
      (m', output cli tick ++ out)

  abbrev pub all_buckets : List (Tick F) → List (Bucket F)
  all_buckets [] = []
  all_buckets (tick ∷ ticks) = tick.buckets ++ all_buckets ticks

  -- the ticks put out in one of the two ways
  abbrev pub lines : List (Output F) → List (Tick F)
  lines [] = []
  lines (printed t ∷ out) = t ∷ lines out
  lines (posted url t ∷ out) = lines out

  abbrev pub posts : List (Output F) → List (Bytes × Tick F)
  posts [] = []
  posts (printed t ∷ out) = posts out
  posts (posted url t ∷ out) = (url, t) ∷ posts out

  accumulate-append :
      (bs cs : List (Bucket F)) (m : List (ℕ × BucketCounts F))
      → accumulate (bs ++ cs) m ≡ accumulate cs (accumulate bs m)
  unfolding accumulate
  accumulate-append [] cs m = refl
  accumulate-append (b ∷ bs) cs m = accumulate-append bs cs _

  lines-output :
      (cli : Cli F) (tick : Tick F) (out : List (Output F))
      → lines (output cli tick ++ out) ≡ (if cli.ticks then tick ∷ lines out else lines out)
  unfolding output
  lines-output cli tick out = ground arith

  posts-output :
      (cli : Cli F) (tick : Tick F) (out : List (Output F))
      → posts (output cli tick ++ out) ≡ (elim (internal_url (codes "tick") cli) [
        | none ↦ posts out
        | some url ↦ (url, tick) ∷ posts out
      ])
  unfolding output
  posts-output cli tick out = ground arith

  -- The task counts the buckets of all ticks, prints every tick in order just when lines are wanted, and
  -- posts every tick in order just when there is a control plane and a run to post to.
  pub tick_task-accumulate :
      (cli : Cli F) (ticks : List (Tick F)) (m : List (ℕ × BucketCounts F))
      → let (last, out) = tick_task cli ticks m in
        (last ≡ accumulate (all_buckets ticks) m)
        × (lines out ≡ (if cli.ticks then ticks else []))
        × (posts out ≡ (elim (internal_url (codes "tick") cli) [
          | none ↦ []
          | some url ↦ map (λ t. (url, t)) ticks
        ]))
  unfolding tick_task
  tick_task-accumulate cli [] m = ground arith
  tick_task-accumulate cli (tick ∷ ticks) m =
      let more = tick_task-accumulate cli ticks (accumulate tick.buckets m) in
      let out = (tick_task cli ticks (accumulate tick.buckets m)).1 in
      (
        more.0 ∙ sym (accumulate-append tick.buckets (all_buckets ticks) m),
        lines-output cli tick out ∙ rw more.1 (ground arith),
        ground (arith, posts-output cli tick out, more.2),
      )
