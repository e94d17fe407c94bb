-- ===== src/Shutdown/Laws.antt =====
-- The shutdown ends, and its result tells what it has done.
use cloudshield_enterprise.Prelude.{
  String, ◌≤◌, ◌<◌, ◌≡◌, refl, Bool, true, false, ◌||◌, Option, none, some, List, [], ◌∷◌, ◌++◌,
  map, any, length, arith, is_some, leb, inl, inr, Bool-cases, Option-cases,
}
use cloudshield_enterprise.Shutdown.{
  Dependencies, ShutdownProgress, ShutdownResult, Task, Event, Shutdown, snapshot, close, advance,
  finish, tasks, start, end_task, step, run,
}

abbrev pub is_timer : Event → Bool
is_timer Event.timer = true
is_timer (Event.ended well) = false

finish-settles : (o : Option ShutdownResult) (r : ShutdownResult) → is_some (finish o r) ≡ true
finish-settles none r = refl
finish-settles (some first) r = refl

-- A resolved promise stays resolved with the same result.
step-keeps :
    (e : Event) (s : Shutdown) (r : ShutdownResult)
    → s.settled ≡ some r
    → (step e s).settled ≡ some r
unfolding step
step-keeps Event.timer s r h = rw h refl
step-keeps (Event.ended well) s r h = kept s.pending
  where
    kept : (ts : List Task) → (end_task well s.progress ts s.settled).settled ≡ some r
    kept [] = h
    kept (t ∷ []) = rw h refl
    kept (t ∷ u ∷ ts) = h

pub run-keeps :
    (es : List Event) (s : Shutdown) (r : ShutdownResult)
    → s.settled ≡ some r
    → (run es s).settled ≡ some r
unfolding run
run-keeps [] s r h = h
run-keeps (e ∷ es) s r h = run-keeps es (step e s) r (step-keeps e s r h)

run-settled :
    (es : List Event) (s : Shutdown) → is_some s.settled ≡ true → is_some (run es s).settled ≡ true
run-settled es s h = elim (Option-cases s.settled) [
  | inl none_ ↦ let k = rw none_ at h in cc
  | inr (r, e) ↦ rw (run-keeps es s r e) refl
]

-- Tasks that are left, and at least as many events as tasks, a timer or not, end the shutdown.
abbrev left : ShutdownProgress → List Task → Option ShutdownResult → Shutdown
left p ts settled = record { progress = p; pending = ts; settled = settled }

timer-settles :
    (es : List Event) (s : Shutdown) → is_some (run es (step Event.timer s)).settled ≡ true
unfolding step
timer-settles es s =
    run-settled es (step Event.timer s) (finish-settles s.settled (snapshot true s.progress))

run-enough :
    (es : List Event) (p : ShutdownProgress) (t : Task) (ts : List Task)
    (settled : Option ShutdownResult)
    → length ts < length es
    → is_some (run es (left p (t ∷ ts) settled)).settled ≡ true
unfolding run step
run-enough [] p t ts settled h = absurd (omega arith)
run-enough (Event.timer ∷ es) p t ts settled h = timer-settles es (left p (t ∷ ts) settled)
run-enough (Event.ended well ∷ es) p t [] settled h =
    run-settled es (advance (close t well p) [] settled)
      (finish-settles settled (snapshot false (close t well p)))
run-enough (Event.ended well ∷ es) p t (u ∷ ts) settled h =
    run-enough es (close t well p) u ts settled (omega arith)

run-timer :
    (es : List Event) (s : Shutdown) → any is_timer es ≡ true → is_some (run es s).settled ≡ true
unfolding run
run-timer [] s h = cc
run-timer (Event.timer ∷ es) s h = timer-settles es s
run-timer (Event.ended well ∷ es) s h = run-timer es (step (Event.ended well) s) h

tasks-cons : (d : Dependencies) → (t : Task) × (ts : List Task) × (tasks d ≡ t ∷ ts)
unfolding tasks
tasks-cons d = first d.workers d.queues
  where
    first :
        (ws qs : List String)
        → (t : Task) × (ts : List Task) × (map Task.worker ws
              ++ (map Task.queue qs ++ (Task.prisma ∷ []))
            ≡ t ∷ ts)
    first (w ∷ ws) qs = (_, _, refl)
    first [] (q ∷ qs) = (_, _, refl)
    first [] [] = (_, _, refl)

-- The shutdown ends once the timer has fired or each of the closes and the disconnection has ended,
-- whichever of them threw.
pub run-settles :
    (d : Dependencies) (es : List Event)
    → (any is_timer es || leb (length (tasks d)) (length es)) ≡ true
    → is_some (run es (start d)).settled ≡ true
unfolding start
run-settles d es h = elim (Bool-cases (any is_timer es)) [
  | inl fired ↦ run-timer es (start d) fired
  | inr quiet ↦
      let (t, ts, e) = tasks-cons d in
      let enough : length (tasks d) ≤ length es = ground arith in
      rw e (run-enough es _ t ts none (rw e at enough))
]
