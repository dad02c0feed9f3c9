-- ===== src/Core/Kernel/Atomic.antt =====
-- A commit writes everything or nothing.
use journey_map.Prelude.{◌+◌, String, ◌≡◌, refl, ◌⊎◌, inl, inr, true, ◌++◌, arith, length}
use journey_map.Prelude.Exec.{Error, Result, ok, err, >>=-eq-ok}
use journey_map.Json.{JsonObject, state_digest}
use journey_map.Core.Rng.{DeterministicRng, IsWord, restore}
use journey_map.Core.Run.{
  SimulationRun, TransitionIdentity, EventSourceKind, is_running, pending_transition,
  commit_sequences,
}
use journey_map.Core.Handlers.{TransitionPlan}
use journey_map.Core.Kernel.State.{SimulationKernel}
use journey_map.Core.Kernel.Commit.{
  Prepared, Source, prepare, install, commit_plan, candidate_state,
}

-- The kernel after the commit of what was prepared.
abbrev pub after_commit :
    {W : Type 0} → Prepared → DeterministicRng → SimulationKernel W → SimulationKernel W
after_commit p rng k = record k {
  run = record k.run {
    transition_sequence = k.run.transition_sequence + 1;
    event_sequence = k.run.event_sequence + length p.emitted_events;
    rng = rng;
  };
  state = p.candidate;
  events = k.events ++ p.emitted_events;
}

-- How a commit ends.
abbrev pub CommitEnds :
    {W : Type 0}
    → Result Prepared
    → DeterministicRng
    → SimulationKernel W
    → Result Prepared × SimulationKernel W
    → Type 0
CommitEnds {W} prepared rng k out =
    ((e : Error) × (out ≡ (err e, k)))
    ⊎ ((p : Prepared) × (prepared ≡ ok p) × (out ≡ (ok p, after_commit p rng k)))

restore_lem :
    (snapshot rng : DeterministicRng) → IsWord snapshot → restore snapshot rng ≡ ok snapshot
unfolding restore
restore_lem snapshot rng h = ground arith

pending_transition-running :
    (kind : EventSourceKind) (a b c : String) (run : SimulationRun) (t : TransitionIdentity)
    → pending_transition kind a b c run ≡ ok t
    → is_running run.status ≡ true
unfolding pending_transition
pending_transition-running kind a b c run t h = ground arith

module _ {W : Type 0} where
  install-CommitEnds :
      (r : Result Prepared) (rng : DeterministicRng) (k : SimulationKernel W)
      → ((p : Prepared) → r ≡ ok p → is_running k.run.status ≡ true)
      → IsWord rng
      → CommitEnds r rng k (install r rng k)
  unfolding install commit_sequences
  install-CommitEnds (err e) rng k running word = inl (e, refl)
  install-CommitEnds (ok p) rng k running word =
      rw (running p refl) (rw (restore_lem rng _ word) (inr (p, refl, refl)))

module _ {W : Type 0} (sha256 : JsonObject → String) where
  prepare-running :
      (plan : TransitionPlan) (source : Source) (k : SimulationKernel W) (p : Prepared)
      → prepare sha256 plan source k ≡ ok p
      → is_running k.run.status ≡ true
  unfolding prepare
  prepare-running plan source k p h =
      let (candidate, _, h₁) = >>=-eq-ok (candidate_state plan k.state) _ h in
      let (digest, _, h₂) = >>=-eq-ok (state_digest sha256 candidate) _ h₁ in
      let (t, got, h₃) =
        >>=-eq-ok
          (pending_transition source.source_kind source.source_ref source.causation_id
            source.correlation_id k.run)
          _ h₂ in
      pending_transition-running source.source_kind source.source_ref source.causation_id
        source.correlation_id k.run t got

  -- A commit that draws a word either raises and leaves the kernel as it was, or it was prepared
  -- and writes all of it: sequences, state, generator and log.
  pub commit_plan-CommitEnds :
      (plan : TransitionPlan) (source : Source) (rng : DeterministicRng) (k : SimulationKernel W)
      → IsWord rng
      → CommitEnds (prepare sha256 plan source k) rng k (commit_plan sha256 plan source rng k)
  unfolding commit_plan
  commit_plan-CommitEnds plan source rng k word =
      install-CommitEnds (prepare sha256 plan source k) rng k (prepare-running plan source k) word
