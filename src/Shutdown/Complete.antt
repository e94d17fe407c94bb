-- ===== src/Shutdown/Complete.antt =====
-- A shutdown that reports success has closed everything.
use mathlib.Core.List.{append-nil, append_assoc}
use cloudshield_enterprise.Prelude.{
  String, ◌≡◌, refl, sym, ap, ◌∙◌, Bool, true, false, Option, none, some, List, [], ◌∷◌, ◌++◌, map,
  arith, inl, inr, Bool-cases,
}
use cloudshield_enterprise.Shutdown.{
  Dependencies, ShutdownProgress, ShutdownResult, Task, Event, Shutdown, is_empty, snapshot, close,
  finish, tasks, start, end_task, step, run,
}

-- What is closed if every close that is left ends well.
finished : List Task → ShutdownProgress → ShutdownProgress
finished [] p = p
finished (t ∷ ts) p = finished ts (close t true p)

abbrev fresh : ShutdownProgress
fresh = record {
  closed_workers = [];
  closed_queues = [];
  prisma_disconnected = false;
  close_failures = [];
}

finished-queues :
    (qs : List String) (p : ShutdownProgress)
    → finished (map Task.queue qs ++ (Task.prisma ∷ [])) p
      ≡ record p { closed_queues = p.closed_queues ++ qs; prisma_disconnected = true }
unfolding finished close
finished-queues [] p = rw (append-nil p.closed_queues) refl
finished-queues (q ∷ qs) p =
    finished-queues qs (close (Task.queue q) true p)
    ∙ rw (append_assoc p.closed_queues (q ∷ []) qs) refl

finished-tasks :
    (ws qs : List String) (p : ShutdownProgress)
    → finished (map Task.worker ws ++ (map Task.queue qs ++ (Task.prisma ∷ []))) p ≡ record p {
      closed_workers = p.closed_workers ++ ws;
      closed_queues = p.closed_queues ++ qs;
      prisma_disconnected = true;
    }
unfolding finished close
finished-tasks [] qs p = finished-queues qs p ∙ rw (append-nil p.closed_workers) refl
finished-tasks (w ∷ ws) qs p =
    finished-tasks ws qs (close (Task.worker w) true p)
    ∙ rw (append_assoc p.closed_workers (w ∷ []) ws) refl

abbrev complete : Dependencies → ShutdownProgress
complete d = record {
  closed_workers = d.workers;
  closed_queues = d.queues;
  prisma_disconnected = true;
  close_failures = [];
}

-- Without a failure so far, what is left leads to a complete shutdown; a result that reports success is
-- one.
record IsSound (d : Dependencies) (s : Shutdown) : Type 0 where
  on_course : is_empty s.progress.close_failures ≡ true → finished s.pending s.progress ≡ complete d
  told : (r : ShutdownResult) → s.settled ≡ some r → r.ok ≡ true → r ≡ snapshot false (complete d)

start-IsSound : (d : Dependencies) → IsSound d (start d)
unfolding start tasks
start-IsSound d = elim (Bool-cases d.timers_stop) [
  | inl e ↦
      rw e (record { on_course = λ h. finished-tasks d.workers d.queues fresh; told = λ r h. cc })
  | inr e ↦ rw e (record { on_course = λ h. cc; told = λ r h. cc })
]

nonempty-append : (xs : List String) (x : String) → is_empty (xs ++ (x ∷ [])) ≡ false
nonempty-append [] x = refl
nonempty-append (y ∷ xs) x = refl

-- A close after which there is still no failure ended well.
close-failures :
    (t : Task) (well : Bool) (p : ShutdownProgress)
    → is_empty (close t well p).close_failures ≡ true
    → (is_empty p.close_failures ≡ true) × (close t well p ≡ close t true p)
unfolding close
close-failures (Task.worker name) true p h = (h, refl)
close-failures (Task.worker name) false p h = cc (nonempty-append p.close_failures name)
close-failures (Task.queue name) true p h = (h, refl)
close-failures (Task.queue name) false p h = cc (nonempty-append p.close_failures name)
close-failures Task.prisma true p h = (h, refl)
close-failures Task.prisma false p h = cc (nonempty-append p.close_failures "prisma")

snapshot-ok :
    (late : Bool) (p : ShutdownProgress)
    → (snapshot late p).ok ≡ true
    → (late ≡ false) × (is_empty p.close_failures ≡ true)
unfolding snapshot
snapshot-ok late p h = (ground arith, ground arith)

finish-told :
    (d : Dependencies) (settled : Option ShutdownResult) (late : Bool) (p : ShutdownProgress)
    (r : ShutdownResult)
    → ((r : ShutdownResult) → settled ≡ some r → r.ok ≡ true → r ≡ snapshot false (complete d))
    → (late ≡ false → is_empty p.close_failures ≡ true → p ≡ complete d)
    → finish settled (snapshot late p) ≡ some r
    → r.ok ≡ true
    → r ≡ snapshot false (complete d)
finish-told d (some first) late p r told now_ e h = told r e h
finish-told d none late p r told now_ e h =
    let same : snapshot late p ≡ r = cc in
    let (on_time, clean) = snapshot-ok late p (ap (λ (x : ShutdownResult). x.ok) same ∙ h) in
    sym same ∙ rw (on_time, now_ on_time clean) refl

end_task-IsSound :
    (d : Dependencies) (well : Bool) (p : ShutdownProgress) (ts : List Task)
    (settled : Option ShutdownResult)
    → IsSound d (record { progress = p; pending = ts; settled = settled })
    → IsSound d (end_task well p ts settled)
unfolding finished
end_task-IsSound d well p [] settled s = s
end_task-IsSound d well p (t ∷ []) settled s =
    let course : is_empty (close t well p).close_failures ≡ true → close t well p ≡ complete d =
      λ h. let (clean, same) = close-failures t well p h in same ∙ s.on_course clean in
    record {
      on_course = course;
      told = λ r e h. finish-told d settled false (close t well p) r s.told (λ _. course) e h;
    }
end_task-IsSound d well p (t ∷ u ∷ ts) settled s = record {
  on_course = λ h.
      let (clean, same) = close-failures t well p h in
      ap (finished (u ∷ ts)) same ∙ s.on_course clean;
  told = s.told;
}

step-IsSound : (d : Dependencies) (e : Event) (s : Shutdown) → IsSound d s → IsSound d (step e s)
unfolding step
step-IsSound d (Event.ended well) s h = end_task-IsSound d well s.progress s.pending s.settled h
step-IsSound d Event.timer s h = record {
  on_course = h.on_course;
  told = λ r e k. finish-told d s.settled true s.progress r h.told (λ late. cc) e k;
}

run-IsSound :
    (d : Dependencies) (es : List Event) (s : Shutdown) → IsSound d s → IsSound d (run es s)
unfolding run
run-IsSound d [] s h = h
run-IsSound d (e ∷ es) s h = run-IsSound d es (step e s) (step-IsSound d e s h)

-- A shutdown that reports success has closed every worker and then every queue in their order, has
-- disconnected the database, and has neither timed out nor had a failure.
pub run-ok :
    (d : Dependencies) (es : List Event) (r : ShutdownResult)
    → (run es (start d)).settled ≡ some r
    → r.ok ≡ true
    → (r.closed_workers ≡ d.workers)
      × (r.closed_queues ≡ d.queues)
      × (r.prisma_disconnected ≡ true)
      × (r.timed_out ≡ false)
      × (r.close_failures ≡ [])
unfolding snapshot
run-ok d es r e ok =
    let same = (run-IsSound d es (start d) (start-IsSound d)).told r e ok in
    (
      ap (λ (x : ShutdownResult). x.closed_workers) same,
      ap (λ (x : ShutdownResult). x.closed_queues) same,
      ap (λ (x : ShutdownResult). x.prisma_disconnected) same,
      ap (λ (x : ShutdownResult). x.timed_out) same,
      ap (λ (x : ShutdownResult). x.close_failures) same,
    )
