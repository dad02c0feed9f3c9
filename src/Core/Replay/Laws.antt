-- ===== src/Core/Replay/Laws.antt =====
-- What a replay reports, and that it leaves a consistent kernel.
use mathlib.Core.Path.{subst}
use journey_map.Prelude.{
  String, ◌≡◌, refl, sym, ap, ◌∙◌, ◌⊎◌, true, Bool-cases, List, [], ◌∷◌, inl, inr, eq_iff,
}
use journey_map.Prelude.Int.{pos, pos_part}
use journey_map.Prelude.Exec.{Result, ok, err, Result-cases}
use journey_map.Prelude.State.{continue, reads, ◌>>=◌}
use journey_map.Json.{JsonObject, clone_json_object, state_digest}
use journey_map.Json.Members.{and-parts}
use journey_map.Core.Run.{is_created}
use journey_map.Core.Scheduler.{ScheduledEventSpec}
use journey_map.Core.Handlers.{ActionRequest, SystemEventOutcome}
use journey_map.Core.Kernel.State.{SimulationKernel, boot, close, schedule}
use journey_map.Core.Kernel.Advance.{advance_to}
use journey_map.Core.Kernel.Submit.{submit_action}
use journey_map.Core.Kernel.Log.{IsLog}
use journey_map.Core.Kernel.Invariant.{IsConsistent}
use journey_map.Core.Kernel.Follows.{Follows, Follows-refl, Follows-trans}
use journey_map.Core.Kernel.Time.{AdvanceEnds, advance_to-AdvanceEnds}
use journey_map.Core.Kernel.Completion.{submit_action-Follows}
use journey_map.Core.Kernel.Lifecycle.{schedule-Follows}
use journey_map.Core.Kernel.Status.{
  BootEnds, CloseEnds, IsStopped, boot-BootEnds, close-CloseEnds, BootEnds-IsConsistent,
  CloseEnds-IsConsistent,
}
use journey_map.Core.Replay.{
  ReplayInput, ReplayReport, schedule_all, submit_all, make_report, replay_inputs, closed, matches,
  run,
}

module _ {W : Type 0} where
  continue-Follows :
      {A B : Type 0} (k l : SimulationKernel W) (r : Result A)
      (f : A → SimulationKernel W → Result B × SimulationKernel W)
      → Follows k l
      → ((a : A) → Follows l (f a l).1)
      → Follows k (continue r f l).1
  continue-Follows k l (ok a) f h later = Follows-trans k l (f a l).1 h (later a)
  continue-Follows k l (err x) f h later = h

  schedule_all-Follows :
      (specs : List ScheduledEventSpec) (k : SimulationKernel W)
      → IsConsistent k
      → Follows k (schedule_all specs k).1
  unfolding schedule_all ◌>>=◌
  schedule_all-Follows [] k c = Follows-refl k c
  schedule_all-Follows (spec ∷ specs) k c =
      let f = schedule-Follows spec k c in
      continue-Follows k (schedule spec k).1 (schedule spec k).0 (λ _. schedule_all specs) f
        (λ _. schedule_all-Follows specs (schedule spec k).1 f.consistent)

module _ {W : Type 0} (sha256 : JsonObject → String) where
  submit_all-Follows :
      (requests : List ActionRequest) (k : SimulationKernel W)
      → IsConsistent k
      → Follows k (submit_all sha256 requests k).1
  unfolding submit_all ◌>>=◌
  submit_all-Follows [] k c = Follows-refl k c
  submit_all-Follows (request ∷ requests) k c =
      let f = submit_action-Follows sha256 request k c in
      continue-Follows k (submit_action sha256 request k).1 (submit_action sha256 request k).0
        (λ _. submit_all sha256 requests) f
        (λ _. submit_all-Follows requests (submit_action sha256 request k).1 f.consistent)

-- How the inputs of a replay end: they raise in a kernel that follows, or the report has the
-- events, results and outcomes of a kernel that follows, whose clock stands at the final time.
abbrev pub InputsEnd :
    {W : Type 0}
    → ReplayInput
    → SimulationKernel W
    → Result ReplayReport × SimulationKernel W
    → Type 0
InputsEnd input k (err x, l) = Follows k l
InputsEnd input k (ok report, l) =
    Follows k l
    × (report.events ≡ l.events)
    × (report.action_results ≡ l.action_results)
    × (report.system_event_outcomes ≡ l.system_event_outcomes)
    × (report.final_simulation_time ≡ input.advance_to)
    × IsLog k.run.manifest.run_id 1 (pos_part k.run.manifest.start_time) report.events

module _ {W : Type 0} (sha256 : JsonObject → String) where
  reported-InputsEnd :
      (input : ReplayInput) (k l : SimulationKernel W)
      → Follows k l
      → l.run.now ≡ input.advance_to
      → InputsEnd input k (make_report sha256 l, l)
  unfolding make_report
  reported-InputsEnd input k l f now = elim (Result-cases (clone_json_object l.state)) [
    | inr (x, e) ↦ rw e f
    | inl (snapshot, e) ↦ elim (Result-cases (state_digest sha256 l.state)) [
      | inr (x, d) ↦ rw e (rw d f)
      | inl (digest, d) ↦ rw e (rw d (f, refl, refl, refl, now, rw (← f.same_run) f.consistent.log))
    ]
  ]

  advanced-InputsEnd :
      (input : ReplayInput) (k l : SimulationKernel W)
      (out : Result (List SystemEventOutcome) × SimulationKernel W)
      → Follows k l
      → AdvanceEnds input.advance_to l out
      → InputsEnd input k (continue out.0 (λ _ m. (make_report sha256 m, m)) out.1)
  advanced-InputsEnd input k l (err x, m) f g = Follows-trans k l m f g
  advanced-InputsEnd input k l (ok outs, m) f (g, now, late, p) =
      reported-InputsEnd input k m (Follows-trans k l m f g) now

  submitted-InputsEnd :
      (input : ReplayInput) (k : SimulationKernel W) (out : Result (Unit {0}) × SimulationKernel W)
      → Follows k out.1
      → InputsEnd input k (
          continue out.0
            (λ _. advance_to sha256 (pos input.advance_to) >>= λ _. (reads (make_report sha256)))
            out.1)
  unfolding ◌>>=◌
  submitted-InputsEnd input k (err x, l) f = f
  submitted-InputsEnd input k (ok _, l) f =
      advanced-InputsEnd input k l (advance_to sha256 (pos input.advance_to) l) f
        (advance_to-AdvanceEnds sha256 input.advance_to l f.consistent)

  scheduled-InputsEnd :
      (input : ReplayInput) (k : SimulationKernel W) (out : Result (Unit {0}) × SimulationKernel W)
      → Follows k out.1
      → InputsEnd input k (
          continue out.0
            (λ _. submit_all sha256 input.actions >>= λ _.
              advance_to sha256 (pos input.advance_to) >>= λ _. (reads (make_report sha256)))
            out.1)
  unfolding ◌>>=◌
  scheduled-InputsEnd input k (err x, l) f = f
  scheduled-InputsEnd input k (ok _, l) f =
      submitted-InputsEnd input k (submit_all sha256 input.actions l) (
        Follows-trans k l (submit_all sha256 input.actions l).1 f
          (submit_all-Follows sha256 input.actions l f.consistent))

  -- The inputs of a replay on a consistent kernel: whatever happens, the kernel that is left follows
  -- the one before them, and if they return, the report has its events, its action results, its
  -- system outcomes and the final time, and the events reported are a gapless log of the run.
  pub replay_inputs-InputsEnd :
      (input : ReplayInput) (k : SimulationKernel W)
      → IsConsistent k
      → InputsEnd input k (replay_inputs sha256 input k)
  unfolding replay_inputs ◌>>=◌
  replay_inputs-InputsEnd input k c =
      let f = schedule_all-Follows input.schedule.events k c in
      scheduled-InputsEnd input k (schedule_all input.schedule.events k) f

-- What a replay reports of the kernel that it leaves stopped.
pub record IsReported {W : Type 0} (sha256 : JsonObject → String) (input : ReplayInput)
    (k : SimulationKernel W) (report : ReplayReport) (l : SimulationKernel W) : Type 0 where
  pub scenario : k.run.manifest.scenario_id ≡ input.schedule.scenario_id
  pub version : k.run.manifest.scenario_version ≡ input.schedule.scenario_version
  pub fresh : is_created k.run.status ≡ true
  pub consistent : IsConsistent l
  pub stopped : IsStopped sha256 l
  pub events : report.events ≡ l.events
  pub results : report.action_results ≡ l.action_results
  pub outcomes : report.system_event_outcomes ≡ l.system_event_outcomes
  pub at_end : report.final_simulation_time ≡ input.advance_to
  pub log : IsLog k.run.manifest.run_id 1 (pos_part k.run.manifest.start_time) report.events

-- How a replay ends: it raises in a consistent kernel, which is as it was, or of a boot that
-- raised, or was closed after the inputs; or it reports on a kernel that is stopped.
abbrev pub RunEnds :
    {W : Type 0}
    → (JsonObject → String)
    → ReplayInput
    → SimulationKernel W
    → Result ReplayReport × SimulationKernel W
    → Type 0
RunEnds {W} sha256 input k (err x, l) =
    IsConsistent l
    × ((l ≡ k)
        ⊎ (boot k ≡ (err x, l))
        ⊎ ((b : SimulationKernel W) × (boot k ≡ (ok tt, b))
            × (l ≡ (close (replay_inputs sha256 input b).1).1)))
RunEnds sha256 input k (ok report, l) = IsReported sha256 input k report l

module _ {W : Type 0} (sha256 : JsonObject → String) where
  -- A close that returns leaves the record of the run as it is.
  CloseEnds-kept :
      (m l : SimulationKernel W) (u : Unit {0})
      → CloseEnds sha256 m (ok u, l)
      → (l.events ≡ m.events)
        × (l.action_results ≡ m.action_results)
        × (l.system_event_outcomes ≡ m.system_event_outcomes)
  CloseEnds-kept m l u (_, inl (_, e)) = rw e (refl, refl, refl)
  CloseEnds-kept m l u (_, inr (_, (w, _, e))) = rw e (refl, refl, refl)

  reported-RunEnds :
      (input : ReplayInput) (k b m : SimulationKernel W) (report : ReplayReport)
      (shut : Result (Unit {0}) × SimulationKernel W)
      → matches sha256 input k ≡ true
      → BootEnds k (ok tt, b)
      → boot k ≡ (ok tt, b)
      → replay_inputs sha256 input b ≡ (ok report, m)
      → InputsEnd input b (ok report, m)
      → close m ≡ shut
      → CloseEnds sha256 m shut
      → RunEnds sha256 input k (elim shut.0 [ err e ↦ err e | ok _ ↦ ok report ], shut.1)
  reported-RunEnds input k b m report (err x, l) same ends booted_ ran inputs shut closing = (
    CloseEnds-IsConsistent sha256 m (err x, l) inputs.0.consistent closing,
    inr (inr (b, booted_, rw ran (sym (ap (λ o. o.1) shut)))),
  )
  reported-RunEnds input k b m report (ok u, l) same (new, _, (w, _, status), _) booted_ ran
        (f, es, rs, os, now, log) shut closing =
      let (le, lr, lo) = CloseEnds-kept m l u closing in
      let (id, version) = and-parts _ _ same in
      record {
        scenario = (eq_iff k.run.manifest.scenario_id input.schedule.scenario_id).0 id;
        version =
            (eq_iff k.run.manifest.scenario_version input.schedule.scenario_version).0 version;
        fresh = new;
        consistent = CloseEnds-IsConsistent sha256 m (ok u, l) f.consistent closing;
        stopped = closing.0;
        events = es ∙ sym le;
        results = rs ∙ sym lr;
        outcomes = os ∙ sym lo;
        at_end = now;
        log =
            subst
              (λ (c : SimulationKernel W).
                IsLog c.run.manifest.run_id 1 (pos_part c.run.manifest.start_time) report.events)
              status log;
      }

  closed-RunEnds :
      (input : ReplayInput) (k b : SimulationKernel W)
      (out : Result ReplayReport × SimulationKernel W)
      → matches sha256 input k ≡ true
      → BootEnds k (ok tt, b)
      → boot k ≡ (ok tt, b)
      → replay_inputs sha256 input b ≡ out
      → InputsEnd input b out
      → RunEnds sha256 input k (closed sha256 out)
  unfolding closed
  closed-RunEnds input k b (err x, m) same ends booted_ ran inputs =
      raised (close m) refl (close-CloseEnds sha256 m)
    where
      raised :
          (shut : Result (Unit {0}) × SimulationKernel W)
          → close m ≡ shut
          → CloseEnds sha256 m shut
          → RunEnds sha256 input k (elim shut.0 [ err e ↦ err e | ok _ ↦ err x ], shut.1)
      raised (err y, l) shut closing = (
        CloseEnds-IsConsistent sha256 m (err y, l) inputs.consistent closing,
        inr (inr (b, booted_, rw ran (sym (ap (λ o. o.1) shut)))),
      )
      raised (ok u, l) shut closing = (
        CloseEnds-IsConsistent sha256 m (ok u, l) inputs.consistent closing,
        inr (inr (b, booted_, rw ran (sym (ap (λ o. o.1) shut)))),
      )
  closed-RunEnds input k b (ok report, m) same ends booted_ ran inputs =
      reported-RunEnds input k b m report (close m) same ends booted_ ran inputs refl
        (close-CloseEnds sha256 m)

  booted-RunEnds :
      (input : ReplayInput) (k : SimulationKernel W) (out : Result (Unit {0}) × SimulationKernel W)
      → matches sha256 input k ≡ true
      → IsConsistent k
      → boot k ≡ out
      → BootEnds k out
      → RunEnds sha256 input k
          (continue out.0 (λ _ l. closed sha256 (replay_inputs sha256 input l)) out.1)
  booted-RunEnds input k (err x, l) same c booted_ ends =
      (BootEnds-IsConsistent k (err x, l) c ends, inr (inl booted_))
  booted-RunEnds input k (ok u, b) same c booted_ ends =
      closed-RunEnds input k b (replay_inputs sha256 input b) same ends booted_ refl
        (replay_inputs-InputsEnd sha256 input b (BootEnds-IsConsistent k (ok u, b) c ends))

  -- A replay on a consistent kernel leaves a consistent kernel. If it reports, the schedule is of
  -- the kernel's scenario and version, the kernel was not booted before and is stopped now, the
  -- report has its events, results and outcomes and the final time, and the events are a gapless
  -- log of the run. If it raises, the kernel is as it was, or as its boot left it when it raised,
  -- or was closed after the inputs.
  pub run-RunEnds :
      (input : ReplayInput) (k : SimulationKernel W)
      → IsConsistent k
      → RunEnds sha256 input k (run sha256 input k)
  unfolding run ◌>>=◌
  run-RunEnds input k c = elim (Bool-cases (matches sha256 input k)) [
    | inl same ↦
        rw same (unfold closed in booted-RunEnds input k (boot k) same c refl (boot-BootEnds k))
    | inr other ↦ rw other (c, inl refl)
  ]
