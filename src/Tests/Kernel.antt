-- ===== src/Tests/Kernel.antt =====
-- The kernel's theorems at a small run.
use journey_map.Prelude.{◌≡◌, refl, ap, [], ◌∷◌, arith}
use journey_map.Prelude.Int.{pos}
use mathlib.Core.Path.{subst}
use journey_map.Prelude.Exec.{ok, ok-injective}
use journey_map.Json.{empty, state_digest, clone_json_object, is_canonical_object, canonical_object}
use journey_map.Core.Rng.{IsWord, next_u64-IsWord, next_u64, make_rng}
use journey_map.Core.Run.{make_run, start_clock}
use journey_map.Core.Scheduler
use journey_map.Core.Scheduler.{ScheduledEventSpec}
use journey_map.Core.Kernel.State.{schedule, make_kernel, boot, close}
use journey_map.Core.Kernel.Commit.{prepare, commit_plan}
use journey_map.Core.Kernel.Advance.{advance_to, advance_loop, dispatch_system_event, system_source}
use journey_map.Core.Kernel.Submit.{submit_action, submit_inner}
use journey_map.Core.Kernel.Atomic.{CommitEnds, commit_plan-CommitEnds}
use journey_map.Core.Kernel.Invariant.{IsConsistent, DrawsWords}
use journey_map.Core.Kernel.Dispatch.{DispatchEnds, dispatch-DispatchEnds}
use journey_map.Core.Kernel.Loop.{LoopEnds, advance_loop-LoopEnds}
use journey_map.Core.Kernel.Time.{AdvanceEnds, advance_to-AdvanceEnds}
use journey_map.Core.Kernel.Follows.{Follows}
use journey_map.Core.Kernel.Actions.{SubmitEnds}
use journey_map.Core.Kernel.Completion.{submit_inner-SubmitEnds, submit_action-Follows}
use journey_map.Core.Kernel.Lifecycle.{schedule-Follows, make_kernel-IsConsistent}
use journey_map.Core.Kernel.Status.{BootEnds, CloseEnds, boot-BootEnds, close-CloseEnds}
use journey_map.Core.Replay.{ReplayInput, replay_inputs, run}
use journey_map.Core.Replay.Laws.{InputsEnd, replay_inputs-InputsEnd, RunEnds, run-RunEnds}
use journey_map.Tests.Fixtures.{
  sha256, manifest, tick_resolve, tick_plan, tick_spec, persistence, actions, systems, scheduled,
  kernel, fresh, request,
}

tick_resolve-DrawsWords : {Input : Type 0} → DrawsWords (tick_resolve {Input = Input})
tick_resolve-DrawsWords input context plan rng word h =
    subst IsWord (ap (λ p. p.1) (ok-injective h)) (next_u64-IsWord context.rng).1

pub kernel-IsConsistent : IsConsistent kernel
kernel-IsConsistent = record {
  log = tt;
  counted = refl;
  past = tt;
  started = omega arith;
  future = (omega arith, tt);
  queue = record { sorted = (tt, tt); numbered = (omega arith, tt) };
  word = omega arith;
  systems_draw = (tick_resolve-DrawsWords, tt);
  actions_draw = (tick_resolve-DrawsWords, tt);
}

fresh-IsConsistent : IsConsistent fresh
fresh-IsConsistent = record {
  log = tt;
  counted = refl;
  past = tt;
  started = omega arith;
  future = tt;
  queue = record { sorted = tt; numbered = tt };
  word = omega arith;
  systems_draw = (tick_resolve-DrawsWords, tt);
  actions_draw = (tick_resolve-DrawsWords, tt);
}

commit_plan-CommitEnds_example :
    CommitEnds
      (prepare sha256 tick_plan (system_source scheduled) kernel)
      (next_u64 kernel.run.rng).1
      kernel
      (commit_plan sha256 tick_plan (system_source scheduled) (next_u64 kernel.run.rng).1 kernel)
commit_plan-CommitEnds_example =
    commit_plan-CommitEnds sha256 tick_plan (system_source scheduled) (next_u64 kernel.run.rng).1
      kernel (next_u64-IsWord kernel.run.rng).1

dispatch-DispatchEnds_example :
    DispatchEnds sha256 scheduled kernel (dispatch_system_event sha256 scheduled kernel)
dispatch-DispatchEnds_example = dispatch-DispatchEnds sha256 scheduled kernel kernel-IsConsistent

advance_loop-LoopEnds_example : LoopEnds 12 [] kernel (advance_loop sha256 1 12 [] kernel)
advance_loop-LoopEnds_example =
    advance_loop-LoopEnds sha256 1 12 [] kernel (omega arith) (omega arith) kernel-IsConsistent

advance_to-AdvanceEnds_example : AdvanceEnds 12 kernel (advance_to sha256 (pos 12) kernel)
advance_to-AdvanceEnds_example = advance_to-AdvanceEnds sha256 12 kernel kernel-IsConsistent

submit_inner-SubmitEnds_example :
    SubmitEnds sha256 request 10 kernel (submit_inner sha256 request 10 kernel)
submit_inner-SubmitEnds_example =
    submit_inner-SubmitEnds sha256 request 10 kernel kernel-IsConsistent

submit_action-Follows_example : Follows kernel (submit_action sha256 request kernel).1
submit_action-Follows_example = submit_action-Follows sha256 request kernel kernel-IsConsistent

schedule-Follows_example : Follows kernel (schedule tick_spec kernel).1
schedule-Follows_example = schedule-Follows tick_spec kernel kernel-IsConsistent

fresh_made : make_kernel sha256 [] persistence manifest empty actions systems [] 0 ≡ ok fresh
unfolding make_kernel make_run start_clock make_rng state_digest clone_json_object
    Scheduler.make_scheduler is_canonical_object canonical_object
fresh_made = refl

make_kernel-IsConsistent_example : IsConsistent fresh
make_kernel-IsConsistent_example =
    make_kernel-IsConsistent sha256 [] persistence manifest empty actions systems [] 0 fresh
      fresh_made (tick_resolve-DrawsWords, tt) (tick_resolve-DrawsWords, tt)

boot-BootEnds_example : BootEnds fresh (boot fresh)
boot-BootEnds_example = boot-BootEnds fresh

close-CloseEnds_example : CloseEnds sha256 kernel (close kernel)
close-CloseEnds_example = close-CloseEnds sha256 kernel

abbrev input : ReplayInput
input = record {
  schedule = record { scenario_id = "alderwick"; scenario_version = "1"; events = tick_spec ∷ [] };
  actions = request ∷ [];
  advance_to = 30;
}

replay_inputs-InputsEnd_example : InputsEnd input kernel (replay_inputs sha256 input kernel)
replay_inputs-InputsEnd_example = replay_inputs-InputsEnd sha256 input kernel kernel-IsConsistent

run-RunEnds_example : RunEnds sha256 input fresh (run sha256 input fresh)
run-RunEnds_example = run-RunEnds sha256 input fresh fresh-IsConsistent
