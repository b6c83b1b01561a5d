-- ===== src/Lifecycle/Outcome/Reception.antt =====
-- `ReportReceived`, and the two orders of a report and the end of its pod.
use batch_job_controller.Base.{
  ℕ, String, Bool, false, List, [], ◌∷◌, none, some, ◌≡◌, refl, ◌∙◌, arith, get_elem?-set_self,
  get_elem?-lt, eq_refl,
}
use batch_job_controller.Base.Int.{pos}
use batch_job_controller.Metrics.Prom.{Prom}
use batch_job_controller.Metrics.Collector.{Collector, Result, Results}
use batch_job_controller.Metrics.Collector.Totals.{
  IsSound, sampled, outcome, processing_finished-IsFinished,
}
use batch_job_controller.Metrics.Collector.Reports.{IsAside, metric_for-total}
use batch_job_controller.Lifecycle.State.{Pod, Controller}
use batch_job_controller.Lifecycle.Outcome.{
  set_pod, pod_for_id, pod_terminated, report_each, report_all, report_received, note_report,
}
use batch_job_controller.Lifecycle.Outcome.Termination.{IsPod, pod_terminated_first}

module _ (p : Prom) where
  IsAside-trans : {a b c : Collector p} → IsAside p a b → IsAside p b c → IsAside p a c
  IsAside-trans h k = record {
    processing = k.processing ∙ h.processing;
    durations = k.durations ∙ h.durations;
    latest = k.latest ∙ h.latest;
  }

  report_each-total :
      (m : Collector p) (id node name : String) (rs : List (Result p))
      → m.latest_metric ≡ false
      → IsSound p m
      → (m' : Collector p) × (report_each p m id node name rs ≡ some m')
        × IsSound p m'
        × IsAside p m m'
  unfolding report_each
  report_each-total m id node name [] off s =
      (m, refl, s, record { processing = refl; durations = refl; latest = refl })
  report_each-total m id node name (r ∷ rs) off s =
      let (n, e, t, a) = metric_for-total p m id node name r off s in
      let (o, f, u, b) = report_each-total n id node name rs (a.latest ∙ off) t in
      (o, rw e f, u, IsAside-trans a b)

  report_all-total :
      (m : Collector p) (id node : String) (results : Results p)
      → m.latest_metric ≡ false
      → IsSound p m
      → (m' : Collector p) × (report_all p m id node results ≡ some m')
        × IsSound p m'
        × IsAside p m m'
  unfolding report_all
  report_all-total m id node [] off s =
      (m, refl, s, record { processing = refl; durations = refl; latest = refl })
  report_all-total m id node ((name, rs) ∷ results) off s =
      let (n, e, t, a) = report_each-total m id node name rs off s in
      let (o, f, u, b) = report_all-total n id node results (a.latest ∙ off) t in
      (o, rw e f, u, IsAside-trans a b)

  -- What `ReportReceived` leaves.
  pub record IsReported (c c' : Controller p) (id node : String) (err : Bool) (now : ℕ)
      : Type 0 where
    pub sound : IsSound p c'.prom
    pub latest : c'.prom.latest_metric ≡ c.prom.latest_metric
    pub processing :
        (ls : List String)
        → p.value c'.prom.proc_error_gauge.gauge ls
          ≡ sampled p c.prom.latest_metric node id
              (outcome p err)
              (p.value c.prom.proc_error_gauge.gauge)
              ls
    pub durations : c'.prom.duration_gauge ≡ c.prom.duration_gauge
    pub progress : c'.progress ≡ c.progress

  note_report-prom :
      (c : Controller p) (id node : String) (now : ℕ) → (note_report p c id node now).prom ≡ c.prom
  unfolding note_report
  note_report-prom c id node now = ground arith

  note_report-progress :
      (c : Controller p) (id node : String) (now : ℕ)
      → (note_report p c id node now).progress ≡ c.progress
  unfolding note_report
  note_report-progress c id node now = ground arith

  note_report-IsPod :
      (c : Controller p) (m : Collector p) (id node : String) (now r : ℕ) (q : Pod)
      → IsPod p c id node r q
      → IsPod p
          (note_report p (record c { prom = m }) id node now)
          id
          node
          r
          (record q { report_received = some now; status = "ReportReceived" })
  unfolding note_report pod_for_id
  note_report-IsPod c m id node now r q is =
      let q' : Pod = record q { report_received = some now; status = "ReportReceived" } in
      let d : Controller p = record c { prom = m } in
      let e : note_report p d id node now ≡ set_pod p d r q' = ground (arith, is.place, is.pod) in
      rw e (record {
        place = is.place;
        pod = get_elem?-set_self c.pods_made r q' (get_elem?-lt c.pods_made r is.pod);
      })

  -- the run of `ReportReceived`, with what the pods make of it
  report_received-run :
      (c : Controller p) (id node : String) (err : Bool) (results : Results p) (now : ℕ)
      → c.prom.latest_metric ≡ false
      → IsSound p c.prom
      → (m : Collector p) × (report_received p c id node err results now
          ≡ some (note_report p (record c { prom = m }) id node now))
        × IsReported c (note_report p (record c { prom = m }) id node now) id node err now
  unfolding report_received
  report_received-run c id node err results now off s =
      let (m, e, t, a) = report_all-total c.prom id node results off s in
      let (m', f, u) = processing_finished-IsFinished p m node id err t in
      let same = note_report-prom (record c { prom = m' }) id node now in
      (
        m',
        rw e (rw f refl),
        record {
          sound = rw same u.sound;
          latest = rw same (u.latest ∙ a.latest);
          processing = λ ls. rw same (u.value ls ∙ rw (a.processing, a.latest) refl);
          durations = rw same (u.durations ∙ a.durations);
          progress = note_report-progress (record c { prom = m' }) id node now;
        },
      )

  -- Where no latest sample is kept, `ReportReceived` never panics on a sound collector, whether the
  -- pod is known or not. It sets the error sample to the outcome of the report, and leaves the other
  -- error samples, the durations and the progress as they are.
  pub report_received_lem :
      (c : Controller p) (id node : String) (err : Bool) (results : Results p) (now : ℕ)
      → c.prom.latest_metric ≡ false
      → IsSound p c.prom
      → (c' : Controller p) × (report_received p c id node err results now ≡ some c')
        × IsReported c c' id node err now
  report_received_lem c id node err results now off s =
      let (m, e, f) = report_received-run c id node err results now off s in
      (note_report p (record c { prom = m }) id node now, e, f)

  -- Where no latest sample is kept, `ReportReceived` for a registered pod never panics on a sound
  -- collector. The pod remembers the report, the error sample is set to its outcome, and the other
  -- error samples, the durations and the progress stay as they are.
  pub report_received_pod :
      (c : Controller p) (id node : String) (err : Bool) (results : Results p) (now r : ℕ) (q : Pod)
      → c.prom.latest_metric ≡ false
      → IsSound p c.prom
      → IsPod p c id node r q
      → (c' : Controller p) × (report_received p c id node err results now ≡ some c')
        × IsReported c c' id node err now
        × IsPod p c' id node r (record q { report_received = some now; status = "ReportReceived" })
  report_received_pod c id node err results now r q off s is =
      let (m, e, f) = report_received-run c id node err results now off s in
      (
        note_report p (record c { prom = m }) id node now,
        e,
        f,
        note_report-IsPod c m id node now r q is,
      )

  -- For a registered pod that has not ended and then succeeds, where no latest sample is kept and the
  -- collector is sound, both orders of its report, with no processing error, and its end go without a
  -- panic or an error, leave the error sample of the node and the execution at 0, and the progress the
  -- same.
  pub success_either_order :
      (c : Controller p) (id node : String) (results : Results p) (r : ℕ) (q : Pod) (t u : ℕ)
      → c.prom.latest_metric ≡ false
      → IsSound p c.prom
      → IsPod p c id node r q
      → q.terminated ≡ none
      → (c₁ : Controller p) × (d₁ : Controller p) × (c₂ : Controller p) × (d₂ : Controller p)
        × (report_received p c id node false results t ≡ some c₁)
        × (pod_terminated p c₁ id node "Succeeded" u ≡ some (d₁, none))
        × (pod_terminated p c id node "Succeeded" u ≡ some (c₂, none))
        × (report_received p c₂ id node false results t ≡ some d₂)
        × (p.value d₁.prom.proc_error_gauge.gauge (node ∷ id ∷ []) ≡ some (p.of_int (pos 0)))
        × (p.value d₂.prom.proc_error_gauge.gauge (node ∷ id ∷ []) ≡ some (p.of_int (pos 0)))
        × (d₁.progress ≡ d₂.progress)
  success_either_order c id node results r q t u off s is running =
      let (c₁, e₁, f₁, k₁) = report_received_pod c id node false results t r q off s is in
      let (d₁, g₁, h₁) = pod_terminated_first p c₁ id node "Succeeded" u r _ k₁ running f₁.sound in
      let (c₂, e₂, f₂) = pod_terminated_first p c id node "Succeeded" u r q is running s in
      let (d₂, g₂, h₂) =
        report_received_lem c₂ id node false results t (f₂.latest ∙ off) f₂.sound in
      let ls = node ∷ id ∷ [] in
      (
        c₁,
        d₁,
        c₂,
        d₂,
        e₁,
        g₁,
        e₂,
        g₂,
        ground (arith, h₁.processing ls, f₁.processing ls, eq_refl node, eq_refl id),
        ground (arith, h₂.processing ls, f₂.latest, eq_refl node, eq_refl id),
        ground (arith, h₁.progress, f₁.progress, h₂.progress, f₂.progress),
      )
