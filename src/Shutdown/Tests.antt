-- ===== src/Shutdown/Tests.antt =====
-- A shutdown of two workers and a queue, and witnesses.
use cloudshield_enterprise.Prelude.{◌≡◌, refl, true, false, some, List, [], ◌∷◌, is_some}
use cloudshield_enterprise.Shutdown.{
  Dependencies, ShutdownResult, Event, snapshot, close, tasks, start, step, run,
}
use cloudshield_enterprise.Shutdown.Laws.{run-settles}
use cloudshield_enterprise.Shutdown.Complete.{run-ok}

abbrev runtime : Dependencies
runtime = record { timers_stop = true; workers = "jobs" ∷ "monitoring" ∷ []; queues = "jobs" ∷ [] }

abbrev four_ends : List Event
four_ends = Event.ended true ∷ Event.ended true ∷ Event.ended true ∷ Event.ended true ∷ []

abbrev success : ShutdownResult
success = record {
  ok = true;
  timed_out = false;
  closed_workers = "jobs" ∷ "monitoring" ∷ [];
  closed_queues = "jobs" ∷ [];
  prisma_disconnected = true;
  close_failures = [];
}

succeeds : (run four_ends (start runtime)).settled ≡ some success
unfolding run start tasks step close snapshot
succeeds = refl

-- The second worker hangs until the timer fires, and the first one has thrown.
late :
    (run (Event.ended false ∷ Event.timer ∷ []) (start runtime)).settled
    ≡ some (record {
      ok = false;
      timed_out = true;
      closed_workers = [];
      closed_queues = [];
      prisma_disconnected = false;
      close_failures = "jobs" ∷ [];
    })
unfolding run start tasks step close snapshot
late = refl

run-ok_example :
    (success.closed_workers ≡ runtime.workers)
    × (success.closed_queues ≡ runtime.queues)
    × (success.prisma_disconnected ≡ true)
    × (success.timed_out ≡ false)
    × (success.close_failures ≡ [])
run-ok_example = run-ok runtime four_ends success succeeds refl

run-settles_example : is_some (run four_ends (start runtime)).settled ≡ true
unfolding tasks
run-settles_example = run-settles runtime four_ends refl
