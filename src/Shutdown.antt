-- ===== src/Shutdown.antt =====
-- The shutdown of the worker (apps/worker/src/shutdown.ts). What happens is a list of events: the close
-- that is awaited ends, well or by throwing, or the timer fires. `stopTimers` is called before any of
-- them. A close that never ends is one whose event does not come.
pub mod Laws
pub mod Complete
mod Tests
use cloudshield_enterprise.Prelude.{
  String, ℕ, Bool, true, false, not, ◌&&◌, Option, none, some, List, [], ◌∷◌, ◌++◌, map,
  if◌then◌else◌,
}

-- `WorkerShutdownDependencies`: the names of the resources, and whether stopping the timers throws.
pub record Dependencies : Type 0 where
  pub timers_stop : Bool
  pub workers : List String
  pub queues : List String

pub record ShutdownProgress : Type 0 where
  pub closed_workers : List String
  pub closed_queues : List String
  pub prisma_disconnected : Bool
  pub close_failures : List String

pub record ShutdownResult : Type 0 where
  pub ok : Bool
  pub timed_out : Bool
  pub closed_workers : List String
  pub closed_queues : List String
  pub prisma_disconnected : Bool
  pub close_failures : List String

-- What the sequence awaits.
pub data Task : Type 0 where
  worker : String → Task
  queue : String → Task
  prisma : Task

pub data Event : Type 0 where
  ended : Bool → Event
  timer : Event

abbrev pub is_empty : List String → Bool
is_empty [] = true
is_empty (_ ∷ _) = false

unfoldable pub snapshot : Bool → ShutdownProgress → ShutdownResult
snapshot timed_out p = record {
  ok = not timed_out && is_empty p.close_failures;
  timed_out = timed_out;
  closed_workers = p.closed_workers;
  closed_queues = p.closed_queues;
  prisma_disconnected = p.prisma_disconnected;
  close_failures = p.close_failures;
}

-- `closeResource`, and the end of the sequence: a close that throws is a failure by its name.
unfoldable pub close : Task → Bool → ShutdownProgress → ShutdownProgress
close (worker name) true p = record p { closed_workers = p.closed_workers ++ (name ∷ []) }
close (worker name) false p = record p { close_failures = p.close_failures ++ (name ∷ []) }
close (queue name) true p = record p { closed_queues = p.closed_queues ++ (name ∷ []) }
close (queue name) false p = record p { close_failures = p.close_failures ++ (name ∷ []) }
close prisma true p = record p { prisma_disconnected = true }
close prisma false p = record p { close_failures = p.close_failures ++ ("prisma" ∷ []) }

-- `settled` is what the promise has been resolved with.
pub record Shutdown : Type 0 where
  pub progress : ShutdownProgress
  pub pending : List Task
  pub settled : Option ShutdownResult

-- `finish`: only the first result counts.
abbrev pub finish : Option ShutdownResult → ShutdownResult → Option ShutdownResult
finish none result = some result
finish (some first) result = some first

-- The sequence goes on, whether or not the promise has been resolved, and finishes at its end.
abbrev pub advance : ShutdownProgress → List Task → Option ShutdownResult → Shutdown
advance p [] settled = record {
  progress = p;
  pending = [];
  settled = finish settled (snapshot false p);
}
advance p (t ∷ ts) settled = record { progress = p; pending = t ∷ ts; settled = settled }

unfoldable pub tasks : Dependencies → List Task
tasks d = map Task.worker d.workers ++ (map Task.queue d.queues ++ (prisma ∷ []))

unfoldable pub start : Dependencies → Shutdown
start d = record {
  progress = record {
    closed_workers = [];
    closed_queues = [];
    prisma_disconnected = false;
    close_failures = if d.timers_stop then [] else "timers" ∷ [];
  };
  pending = tasks d;
  settled = none;
}

abbrev pub end_task : Bool → ShutdownProgress → List Task → Option ShutdownResult → Shutdown
end_task well p [] settled = record { progress = p; pending = []; settled = settled }
end_task well p (t ∷ ts) settled = advance (close t well p) ts settled

unfoldable pub step : Event → Shutdown → Shutdown
step (ended well) s = end_task well s.progress s.pending s.settled
step timer s = record s { settled = finish s.settled (snapshot true s.progress) }

-- `shutdownWorkerRuntime` through a list of events
unfoldable pub run : List Event → Shutdown → Shutdown
run [] s = s
run (e ∷ es) s = run es (step e s)
