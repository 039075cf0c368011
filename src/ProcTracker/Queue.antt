-- ===== src/ProcTracker/Queue.antt =====
-- A tracker is a queue of tasks for its op code, with an exact counter.
use flightos.Common.{
  ℕ, zero, suc, ◌+◌, ◌-◌, ◌%◌, ◌≤◌, ◌<◌, ◌≡◌, refl, sym, ap, subst, ◌≢◌, ◌↔◌, ◌⊎◌, inl, inr, true,
  none, some, List, [], ◌∷◌, ◌++◌, append_assoc, arith, word, ◌==◌, leb→le, ==_iff, Bool-cases,
  length, All, length-append, All-append, success,
}
use flightos.ProcTask.{destroy, Task, get_pend_step_op_code}
use flightos.ProcTracker.{
  level_critical, destroy_tracker, get_task, destroy_loop, get_usage, Tracker, append_task,
  put_task, take_first,
}

-- The counter is the length of the queue, as a word; every task waits for the tracker's op code.
pub record IsValid (pt : Tracker) : Type 0 where
  pub counted : pt.n_tasks ≡ length pt.tasks % word
  pub matched : All (λ (t : Task). get_pend_step_op_code t ≡ pt.op_code) pt.tasks

abbrev pub Waits : ℕ → Task → Type 0
Waits op_code t = get_pend_step_op_code t ≡ op_code

append_task-IsValid :
    (pt : Tracker) (t : Task) → Waits pt.op_code t → IsValid pt → IsValid (append_task pt t)
unfolding append_task
append_task-IsValid pt t e v = record {
  counted = omega (arith, v.counted, length-append pt.tasks (t ∷ []));
  matched = All-append (Waits pt.op_code) pt.tasks (t ∷ []) v.matched (e, tt);
}

-- `pt_track_put` takes exactly the tasks whose next step has the tracker's op code, appends them, and
-- keeps the tracker valid; it leaves the tracker as it is for any other.
pub put_task_lem :
    (pt : Tracker) (t : Task)
    → IsValid pt
    → let (s, pt') = put_task pt t in
      ((s ≡ success) ↔ Waits pt.op_code t)
      × (s ≡ success → pt'.tasks ≡ pt.tasks ++ (t ∷ []))
      × (s ≢ success → pt' ≡ pt)
      × IsValid pt'
unfolding put_task append_task
put_task_lem pt t v = elim (Bool-cases (get_pend_step_op_code t == pt.op_code)) [
  | inl e ↦ rw e (
    ((λ _. (==_iff _ _).0 e), (λ _. refl)),
    (λ _. refl),
    (λ h. absurd (h refl)),
    append_task-IsValid pt t ((==_iff _ _).0 e) v,
  )
  | inr e ↦ rw e ((λ h. cc, (λ h. cc ((==_iff _ _).1 h))), (λ h. cc), (λ _. refl), v)
]

take_first-IsValid :
    (pt : Tracker) (ts : List Task) → pt.tasks ≡ ts → IsValid pt → IsValid (take_first pt ts).1
take_first-IsValid pt [] e v = v
take_first-IsValid pt (t ∷ rest) e v = record {
  counted = omega (arith, v.counted, ap (λ l. length l) e);
  matched = (subst (All (Waits pt.op_code)) e v.matched).1;
}

-- `pt_track_get` gives the oldest task, if there is one, keeps the others in order, and keeps the
-- tracker valid; the task that it gives waits for the op code of the tracker.
pub get_task_lem :
    (pt : Tracker)
    → IsValid pt
    → let (first, pt') = get_task pt in
      IsValid pt'
      × (((first ≡ none) × (pt.tasks ≡ []) × (pt' ≡ pt))
          ⊎ ((t : Task) × (first ≡ some t) × (pt.tasks ≡ t ∷ pt'.tasks) × Waits pt.op_code t))
unfolding get_task
get_task_lem pt v = (take_first-IsValid pt pt.tasks refl v, go pt.tasks refl)
  where
    go :
        (ts : List Task)
        → pt.tasks ≡ ts
        → let (first, pt') = take_first pt ts in
          (((first ≡ none) × (ts ≡ []) × (pt' ≡ pt))
            ⊎ ((t : Task) × (first ≡ some t) × (ts ≡ t ∷ pt'.tasks) × Waits pt.op_code t))
    go [] e = inl (refl, refl, refl)
    go (t ∷ rest) e = inr (t, refl, refl, (subst (All (Waits pt.op_code)) e v.matched).0)

-- Below 2 ^ 32 tasks, `pt_track_get_usage` is the number of tasks, and a tracker is critical exactly
-- from its limit on.
pub usage-critical :
    (pt : Tracker)
    → IsValid pt
    → length pt.tasks < word
    → (get_usage pt ≡ length pt.tasks)
      × ((level_critical pt ≡ true) ↔ (pt.n_tasks_crit ≤ length pt.tasks))
unfolding get_usage level_critical
usage-critical pt v h =
    let e : pt.n_tasks ≡ length pt.tasks = omega (arith, v.counted) in
    (e, ((λ c. omega (arith, leb→le pt.n_tasks_crit pt.n_tasks c)), (λ c. ground arith)))

-- What `pt_track_destroy` is to free for these tasks, before the tracker.
abbrev pub freed_for : List Task → List ℕ
freed_for [] = []
freed_for (t ∷ ts) = destroy t ++ freed_for ts

destroy_loop_lem :
    (ts : List Task) (fuel : ℕ) (pt : Tracker)
    → pt.tasks ≡ ts
    → length ts < fuel
    → destroy_loop fuel pt ≡ some (freed_for ts ++ (pt.addr ∷ []))
unfolding destroy_loop get_task
destroy_loop_lem ts zero pt e h = absurd (omega arith)
destroy_loop_lem [] (suc fuel) pt e h = rw (e, take_first)
destroy_loop_lem (t ∷ rest) (suc fuel) pt e h =
    rw
      (
        e,
        take_first,
        destroy_loop_lem rest fuel
            (record pt { tasks = rest; n_tasks = (pt.n_tasks + word - 1) % word }) refl
            (omega arith),
      )
      (ap some (sym (append_assoc (destroy t) (freed_for rest) (pt.addr ∷ []))))

-- `pt_track_destroy` ends, and frees every tracked task with all that it holds, the oldest first, and
-- then the tracker.
pub destroy_tracker_lem :
    (pt : Tracker) → destroy_tracker (some pt) ≡ some (freed_for pt.tasks ++ (pt.addr ∷ []))
unfolding destroy_tracker
destroy_tracker_lem pt = destroy_loop_lem pt.tasks (suc (length pt.tasks)) pt refl (omega arith)

-- `pt_track_put` takes exactly the tasks whose next step has the tracker's op code, and appends them; it leaves the
-- tracker as it is for any other. `pt_track_get` then gives the oldest task, if there is one, which waits
-- for the op code of the tracker, and keeps the others in order. Both keep the tracker valid.
pub put_get_lem :
    (pt : Tracker) (t : Task)
    → IsValid pt
    → let (s, pt') = put_task pt t in
      let (o, pt'') = get_task pt' in
      ((s ≡ success) ↔ Waits pt.op_code t)
      × (s ≡ success → pt'.tasks ≡ pt.tasks ++ (t ∷ []))
      × (s ≢ success → pt' ≡ pt)
      × IsValid pt'
      × IsValid pt''
      × (((o ≡ none) × (pt'.tasks ≡ []) × (pt'' ≡ pt'))
          ⊎ ((u : Task) × (o ≡ some u) × (pt'.tasks ≡ u ∷ pt''.tasks) × Waits pt'.op_code u))
put_get_lem pt t v =
    let (a, b, c, w) = put_task_lem pt t v in
    let (x, y) = get_task_lem (put_task pt t).1 w in (a, b, c, w, x, y)
