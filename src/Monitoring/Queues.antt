-- ===== src/Monitoring/Queues.antt =====
-- The queues in the metrics and in the health check.
use scheduling_service.Base.{
  ℕ, ◌*◌, ◌≤◌, ◌≡◌, ◌↔◌, true, false, String, str_eq, some, List, [], ◌∷◌, ap, arith,
}
use scheduling_service.Base.Action.{ok}
use scheduling_service.Queue.Service.{QueueStats, get_all_queue_stats, get_queue_stats}
use scheduling_service.Monitoring.Model.{Outside, Indicator}
use scheduling_service.Monitoring.Metrics.{get_queue_metrics, map_queue_stats, has_queue_name}
use scheduling_service.Monitoring.Health.{
  queue_health_indicator, queue_status, total_jobs_of, failed_jobs_of, is_ratio_healthy,
}

failed-le-total : (qs : List QueueStats) → failed_jobs_of qs ≤ total_jobs_of qs
failed-le-total [] = omega arith
failed-le-total (q ∷ qs) = omega (arith, failed-le-total qs)

is_ratio_healthy_iff :
    (total failed : ℕ)
    → failed ≤ total
    → (is_ratio_healthy total failed ≡ true) ↔ (20 * failed ≤ total)
is_ratio_healthy_iff total failed h = (λ e. ground arith, λ e. ground arith)

module _ (outside : Outside) where
  open outside use {World, bull}

  -- If the counts of the queues can be read, then the queue indicator answers, and it is healthy
  -- exactly when the failed jobs are at most a twentieth of the sum of all counts.
  pub queue_health_indicator_healthy :
      (w w' : World) (qs : List QueueStats)
      → get_all_queue_stats bull w ≡ (ok qs, w')
      → (i : Indicator) × (queue_health_indicator outside w ≡ (ok i, w'))
        × ((i.is_healthy ≡ true) ↔ (20 * failed_jobs_of qs ≤ total_jobs_of qs))
  unfolding queue_health_indicator
  queue_health_indicator_healthy w w' qs h = (
    queue_status outside qs,
    ground arith,
    is_ratio_healthy_iff (total_jobs_of qs) (failed_jobs_of qs) (failed-le-total qs),
  )

  stats_name :
      (name : String) (w w' : World) (s : QueueStats)
      → get_queue_stats bull name w ≡ (ok s, w')
      → s.queue_name ≡ name
  unfolding get_queue_stats
  stats_name name w w' s h = ground arith

  all_stats :
      (high medium low : QueueStats) (w₁ w₂ w₃ w₄ : World)
      → get_queue_stats bull "high-priority" w₁ ≡ (ok high, w₂)
      → get_queue_stats bull "medium-priority" w₂ ≡ (ok medium, w₃)
      → get_queue_stats bull "low-priority" w₃ ≡ (ok low, w₄)
      → get_all_queue_stats bull w₁ ≡ (ok (high ∷ medium ∷ low ∷ []), w₄)
  unfolding get_all_queue_stats
  all_stats high medium low w₁ w₂ w₃ w₄ h m l = ground arith

  name_is :
      (q : QueueStats) (name other : String)
      → q.queue_name ≡ name
      → has_queue_name other q ≡ str_eq name other
  name_is q name other e = ap (λ n. str_eq n other) e

  -- If the counts of the three queues can be read one after the other, then getQueueMetrics answers, and its entry for
  -- each queue is made of the counts of the queue of that name.
  pub get_queue_metrics_lem :
      (high medium low : QueueStats) (w₁ w₂ w₃ w₄ : World)
      → get_queue_stats bull "high-priority" w₁ ≡ (ok high, w₂)
      → get_queue_stats bull "medium-priority" w₂ ≡ (ok medium, w₃)
      → get_queue_stats bull "low-priority" w₃ ≡ (ok low, w₄)
      → get_queue_metrics outside w₁ ≡ (
        ok (record {
          high_priority = map_queue_stats (some high);
          medium_priority = map_queue_stats (some medium);
          low_priority = map_queue_stats (some low);
        }),
        w₄,
      )
  unfolding get_queue_metrics
  get_queue_metrics_lem high medium low w₁ w₂ w₃ w₄ h m l =
      let e = all_stats high medium low w₁ w₂ w₃ w₄ h m l in
      let hh : has_queue_name "high-priority" high ≡ true =
        name_is high _ _ (stats_name _ w₁ w₂ high h) in
      let hm : has_queue_name "medium-priority" high ≡ false =
        name_is high _ _ (stats_name _ w₁ w₂ high h) in
      let hl : has_queue_name "low-priority" high ≡ false =
        name_is high _ _ (stats_name _ w₁ w₂ high h) in
      let mm : has_queue_name "medium-priority" medium ≡ true =
        name_is medium _ _ (stats_name _ w₂ w₃ medium m) in
      let ml : has_queue_name "low-priority" medium ≡ false =
        name_is medium _ _ (stats_name _ w₂ w₃ medium m) in
      let ll : has_queue_name "low-priority" low ≡ true =
        name_is low _ _ (stats_name _ w₃ w₄ low l) in
      ground arith
