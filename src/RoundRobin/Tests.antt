-- ===== src/RoundRobin/Tests.antt =====
-- A run queue of three tasks, and the theorems at it.
use flightos.Common.{ℕ, ◌+◌, ◌≡◌, refl, true, Option, none, some, List, [], ◌∷◌, map, arith, All}
use flightos.RoundRobin.{State, run, idle, dead_state, Thread, Queues, pick_next, wake}
use flightos.RoundRobin.Verdicts.{Refills, count}
use flightos.RoundRobin.Pick.{Picked, pick_next_lem}
use flightos.RoundRobin.Wake.{Woken, wake_lem}

abbrev thread : ℕ → State → ℕ → Thread
thread a s runtime = record {
  addr = a;
  on_cpu = none;
  state = s;
  runtime = runtime;
  wcet = 160;
  priority = 1;
  is_rr = true;
}

-- The task 1 has used its slice up, 2 is dead on CPU 0, and 3 may run on CPU 1 only.
abbrev queues : Queues
queues = record {
  wake_queue = thread 4 idle 0 ∷ [];
  run_queue =
      thread 1 run 5
      ∷ record (thread 2 dead_state 0) { on_cpu = some 0 }
      ∷ record (thread 3 run 100) { on_cpu = some 1 }
      ∷ [];
  dead = λ c. [];
}

abbrev order_of : Option (Option ℕ × Queues) → List ℕ
order_of none = []
order_of (some (r, q)) = map (λ (t : Thread). t.addr) q.run_queue

abbrev choice_of : Option (Option ℕ × Queues) → Option ℕ
choice_of none = none
choice_of (some (r, q)) = r

first_again : choice_of (pick_next queues 0 10) ≡ some 1
unfolding pick_next
first_again = refl

queued_behind : order_of (pick_next queues 0 10) ≡ 3 ∷ 1 ∷ []
unfolding pick_next
queued_behind = refl

queues-Refills : All (Refills 20) queues.run_queue
queues-Refills = ((λ e. omega arith), ((λ e. omega arith), ((λ e. omega arith), tt)))

pick_next_example :
    (r : Option ℕ) × (q' : Queues) × (pick_next queues 0 10 ≡ some (r, q'))
    × Picked 0 queues.run_queue r
    × ((a : ℕ)
        → count a q'.run_queue + count a (q'.dead 0)
          ≡ count a queues.run_queue + count a (queues.dead 0))
pick_next_example = pick_next_lem queues 0 10 queues-Refills

wake_example : Woken queues 10 (some (thread 4 idle 0)) (wake queues (some (thread 4 idle 0)) 10)
wake_example = wake_lem queues (some (thread 4 idle 0)) 10
