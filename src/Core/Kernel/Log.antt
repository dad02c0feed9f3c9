-- ===== src/Core/Kernel/Log.antt =====
-- The event log that commits build: numbered from one, in time order, of one run.
use journey_map.Prelude.{ℕ, ◌+◌, ◌≤◌, String, ◌≡◌, List, [], ◌∷◌, ◌++◌, arith, length, All}
use mathlib.Core.Path.{subst}
use journey_map.Prelude.Exec.{ok, >>=-eq-ok, ok-injective}
use journey_map.Core.Ids.{scoped_id}
use journey_map.Core.Run.{SimulationRun, TransitionIdentity, pending_event_identity}
use journey_map.Core.Events
use journey_map.Core.Events.{EventDraft, EventEnvelope}
use journey_map.Core.Kernel.Commit.{make_envelope, envelopes}

-- The events of run `run_id`, numbered from `first`, none before `time` or before an earlier one.
abbrev pub IsLog : String → ℕ → ℕ → List EventEnvelope → Type 0
IsLog run_id first time [] = Unit
IsLog run_id first time (e ∷ es) =
    (e.run_id ≡ run_id)
    × (e.event_sequence ≡ first)
    × (e.event_id ≡ scoped_id run_id ":event:" first)
    × (time ≤ e.simulation_time)
    × IsLog run_id (first + 1) e.simulation_time es

-- No event of the log is later than `now`.
abbrev pub IsPast : ℕ → List EventEnvelope → Type 0
IsPast now = All (λ e. e.simulation_time ≤ now)

pub IsPast-mono : (t u : ℕ) (es : List EventEnvelope) → t ≤ u → IsPast t es → IsPast u es
IsPast-mono t u [] h p = tt
IsPast-mono t u (e ∷ es) h p = (omega arith, IsPast-mono t u es h p.1)

pub IsLog-weaken :
    (run_id : String) (first t u : ℕ) (es : List EventEnvelope)
    → t ≤ u
    → IsLog run_id first u es
    → IsLog run_id first t es
IsLog-weaken run_id first t u [] h l = tt
IsLog-weaken run_id first t u (e ∷ es) h l = (l.0, l.1, l.2, omega arith, l.4)

pub IsLog-append :
    (run_id : String) (first time now n : ℕ) (es fs : List EventEnvelope)
    → time ≤ now
    → n ≡ first + length es
    → IsLog run_id first time es
    → IsPast now es
    → IsLog run_id n now fs
    → IsLog run_id first time (es ++ fs)
IsLog-append run_id first time now n [] fs h c l p m =
    let e : n ≡ first = omega arith in rw e at (IsLog-weaken run_id n time now fs h m)
IsLog-append run_id first time now n (e ∷ es) fs h c l p m = (
  l.0,
  l.1,
  l.2,
  l.3,
  IsLog-append run_id (first + 1) e.simulation_time now n es fs p.0 (omega arith) l.4 p.1 m,
)

-- What one call of `make_envelope` and its copy give.
envelope-fields :
    (draft : EventDraft) (offset : ℕ) (identity : String × ℕ) (transition : TransitionIdentity)
    (run : SimulationRun) (event : EventEnvelope)
    → pending_event_identity offset run ≡ ok identity
    → Events.detached (make_envelope draft identity transition run) ≡ ok event
    → (event.run_id ≡ run.manifest.run_id)
      × (event.event_sequence ≡ run.event_sequence + offset)
      × (event.event_id ≡ scoped_id run.manifest.run_id ":event:" (run.event_sequence + offset))
      × (event.simulation_time ≡ run.now)
unfolding pending_event_identity Events.detached make_envelope
envelope-fields draft offset identity transition run event h k =
    (ground arith, ground arith, ground arith, ground arith)

IsLog-cons :
    (run_id : String) (first next now : ℕ) (e : EventEnvelope) (es : List EventEnvelope)
    → next ≡ first + 1
    → (e.run_id ≡ run_id)
      × (e.event_sequence ≡ first)
      × (e.event_id ≡ scoped_id run_id ":event:" first)
      × (e.simulation_time ≡ now)
    → IsLog run_id next now es × IsPast now es
    → IsLog run_id first now (e ∷ es) × IsPast now (e ∷ es)
IsLog-cons run_id first next now e es n (r, s, i, t) (l, p) =
    ((r, s, i, omega arith, rw (t, ← n) l), (omega arith, p))

-- The prepared events continue the log at the run's clock.
pub envelopes-IsLog :
    (offset : ℕ) (drafts : List EventDraft) (transition : TransitionIdentity) (run : SimulationRun)
    (es : List EventEnvelope)
    → envelopes offset drafts transition run ≡ ok es
    → IsLog run.manifest.run_id (run.event_sequence + offset) run.now es × IsPast run.now es
unfolding envelopes
envelopes-IsLog offset [] transition run [] h = (tt, tt)
envelopes-IsLog offset [] transition run (e ∷ es) h = cc
envelopes-IsLog offset (draft ∷ drafts) transition run es h =
    let (identity, got, h₁) = >>=-eq-ok (pending_event_identity offset run) _ h in
    let (event, copied, h₂) =
      >>=-eq-ok (Events.detached (make_envelope draft identity transition run)) _ h₁ in
    let (rest, later, h₃) = >>=-eq-ok (envelopes (offset + 1) drafts transition run) _ h₂ in
    let known : IsLog run.manifest.run_id (run.event_sequence + offset) run.now (event ∷ rest)
        × IsPast run.now (event ∷ rest) =
      IsLog-cons run.manifest.run_id (run.event_sequence + offset)
        (run.event_sequence + (offset + 1)) run.now event rest (omega arith)
        (envelope-fields draft offset identity transition run event got copied)
        (envelopes-IsLog (offset + 1) drafts transition run rest later) in
    subst
      (λ l. IsLog run.manifest.run_id (run.event_sequence + offset) run.now l × IsPast run.now l)
      (ok-injective h₃) known
