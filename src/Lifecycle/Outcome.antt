-- ===== src/Lifecycle/Outcome.antt =====
-- pkg/lifecycle/lifecycle.go: `PodTerminated` and `ReportReceived`, the outcome of a pod. `none` is a
-- panic; an error is returned beside the state.
pub mod Termination
pub mod Reception
use batch_job_controller.Base.{
  ℕ, String, Bool, true, false, ◌&&◌, List, [], ◌∷◌, Option, none, some, get_elem?, set, ◌>>=◌,
  ◌==◌, if◌then◌else◌,
}
use batch_job_controller.Base.Dict.{Dict, has}
use batch_job_controller.Metrics.Prom.{Prom}
use batch_job_controller.Metrics.Collector.{
  Collector, Result, Results, metric_for, processing_finished, duration,
}
use batch_job_controller.Lifecycle.State.{
  Pod, Error, unknown_execution, unknown_pod, Controller, elapsed_ms,
}
use batch_job_controller.Lifecycle.Controller.{add_progress, for_id, pod_of}

module _ (p : Prom) where
  open p use {of_int}

  -- a write through a pointer to a pod
  abbrev pub set_pod : Controller p → ℕ → Pod → Controller p
  set_pod c r q = record c { pods_made = set c.pods_made r q }

  -- `podForID`
  unfoldable pub pod_for_id : Controller p → (id node : String) → Option ℕ
  unfolding for_id pod_of
  pod_for_id c id node = elim (for_id p c id) [ none ↦ none | some e ↦ pod_of p c e node ]

  -- the part of `PodTerminated` behind its early return, for the pod at a place
  unfoldable pub terminate :
      Controller p → (execution_id node phase : String) → ℕ → ℕ → Pod → Option (Controller p)
  unfolding add_progress
  terminate c execution_id node phase now r q = do
    let c' = set_pod (add_progress p c 1) r (record q { terminated = some now; status = phase })
    prom ← duration p c'.prom node execution_id (of_int (elapsed_ms now q.started))
    let received : Bool = elim q.report_received [ none ↦ false | some t ↦ true ]
    prom' ←
        (if phase == "Succeeded" && received
          then some prom
          else processing_finished p prom node execution_id true)
    some (record c' { prom = prom' })

  -- the error of `podForID`
  abbrev pub missing : Controller p → (id node : String) → Error
  missing c id node = if has id c.executions then unknown_pod node else unknown_execution id

  -- `PodTerminated`
  unfoldable pub pod_terminated :
      Controller p → (execution_id node phase : String) → ℕ → Option (Controller p × Option Error)
  unfolding pod_for_id terminate
  pod_terminated c execution_id node phase now = elim (pod_for_id c execution_id node) [
    | none ↦ some (c, some (missing c execution_id node))
    | some r ↦ elim (get_elem? c.pods_made r) [
      | none ↦ none
      | some q ↦ elim q.terminated [
        | some t ↦ some (c, none)
        | none ↦ terminate c execution_id node phase now r q >>= λ c'. some (c', none)
      ]
    ]
  ]

  -- the loops of `ReportReceived` over the results
  unfoldable pub report_each :
      Collector p → (execution_id node name : String) → List (Result p) → Option (Collector p)
  report_each m execution_id node name [] = some m
  report_each m execution_id node name (r ∷ rs) =
      metric_for p m execution_id node name r >>= λ m'. report_each m' execution_id node name rs

  unfoldable pub report_all :
      Collector p → (execution_id node : String) → Results p → Option (Collector p)
  unfolding report_each
  report_all m execution_id node [] = some m
  report_all m execution_id node ((name, rs) ∷ results) =
      report_each m execution_id node name rs >>= λ m'. report_all m' execution_id node results

  -- the end of `ReportReceived`: the pod remembers the report
  unfoldable pub note_report : Controller p → (execution_id node : String) → ℕ → Controller p
  unfolding pod_for_id
  note_report c execution_id node now = elim (pod_for_id c execution_id node) [
    | none ↦ c
    | some r ↦ elim (get_elem? c.pods_made r) [
      | none ↦ c
      | some q ↦ set_pod c r (record q { report_received = some now; status = "ReportReceived" })
    ]
  ]

  -- `ReportReceived`
  unfoldable pub report_received :
      Controller p
      → (execution_id node : String) → (processing_error : Bool) → Results p
      → ℕ
      → Option (Controller p)
  unfolding report_all note_report
  report_received c execution_id node processing_error results now = do
    m ← report_all c.prom execution_id node results
    m' ← processing_finished p m node execution_id processing_error
    some (note_report (record c { prom = m' }) execution_id node now)
