-- ===== src/ProcNet/Tests.antt =====
-- Runs of a network of two nodes, and the theorems at it.
use flightos.Common.{
  ℕ, ◌+◌, ◌≡◌, refl, ◌≢◌, ◌↔◌, ◌⊎◌, Option, none, some, List, [], ◌∷◌, ◌++◌, arith, length, All,
  success, einval,
}
use flightos.ProcTask.{Step, Task, get_pend_step_op_code, next_pend_step_done}
use flightos.ProcTracker.{
  OpFunc, TaskCode, success_code, stop, Tracker, get_task, put_task, level_critical,
}
use flightos.ProcNet.{
  op_node_in, op_node_out, Net, find_tracker, queue_critical_trackers, get_next_pending_tracker,
}
use flightos.ProcNet.Process.{process_next}
use flightos.ProcNet.Io.{process_inputs, process_outputs}
use flightos.ProcNet.Io.Inputs.{strays, Emptied, process_inputs_lem}
use flightos.ProcNet.Io.Outputs.{Drained, process_outputs_lem}
use flightos.ProcNet.Setup.{create, add_node, destroy_net}
use flightos.ProcNet.Setup.Lifetime.{freed_with, create_cases, add_node_cases, destroy_net_lem}
use flightos.ProcNet.Rotate.{Picks, get_next_pending_tracker_lem}
use flightos.ProcNet.Process.Ending.{IsTame, IsGood}
use flightos.ProcNet.Process.Total.{process_next_total}
use flightos.ProcNet.Process.Conserve.{Kept, IsWired, IsFaithful, IsSorted, held}
use flightos.ProcNet.Process.Conserved.{process_next_conserves}

abbrev step : ℕ → Step
step c = record { slot = 0; op_code = c; op_info = 0 }

abbrev task : ℕ → List Step → Task
task a todo = record {
  addr = a;
  data_ptr = 0;
  size = 0;
  nmemb = 0;
  pool = a + 1;
  todo = todo;
  done = [];
  free = [];
  task_type = 0;
  seq = 0;
}

abbrev finish_op : OpFunc
finish_op c t = (success_code, t)

abbrev stop_op : OpFunc
stop_op c t = (stop, t)

-- A node for op code 7 with two tasks, the second of which comes back to it, and a node for op code 8.
abbrev node_7 : Tracker
node_7 = record {
  addr = 10;
  tasks = task 100 (step 7 ∷ step 8 ∷ []) ∷ task 200 (step 7 ∷ step 7 ∷ []) ∷ [];
  n_tasks = 2;
  n_tasks_crit = 2;
  op_code = 7;
  op = finish_op;
}

abbrev node_8 : Tracker
node_8 = record { addr = 20; tasks = []; n_tasks = 0; n_tasks_crit = 4; op_code = 8; op = stop_op }

abbrev node_out : Tracker
node_out = record {
  addr = 30;
  tasks = [];
  n_tasks = 0;
  n_tasks_crit = 1;
  op_code = 0;
  op = finish_op;
}

abbrev node_in : Tracker
node_in = record {
  addr = 40;
  tasks = [];
  n_tasks = 0;
  n_tasks_crit = 1;
  op_code = 0xFFFFFFFF;
  op = finish_op;
}

abbrev net : Net
net = record {
  input = node_in;
  output = node_out;
  nodes = node_8 ∷ node_7 ∷ [];
  n = 2;
  destroyed = [];
  detached = [];
  emitted = [];
}

critical_first : queue_critical_trackers net.nodes ≡ node_7 ∷ node_8 ∷ []
unfolding queue_critical_trackers level_critical
critical_first = refl

abbrev count_of : Option (ℕ × Net) → ℕ
count_of none = 0
count_of (some (k, pn)) = k

-- Task 100 is moved on after one step, task 200 is executed twice and leaves.
three_executed : count_of (process_next net) ≡ 3
unfolding process_next level_critical get_task get_pend_step_op_code next_pend_step_done put_task
    find_tracker
three_executed = refl

get_next_pending_tracker_example : Picks net (get_next_pending_tracker net)
get_next_pending_tracker_example = get_next_pending_tracker_lem net refl

same_op-IsTame : (r : TaskCode) → IsTame (λ c t. (r, t))
same_op-IsTame r = record { shrinks = λ c t. omega arith; codes = λ c t h. h }

same_op-IsFaithful : (r : TaskCode) → IsFaithful (λ c t. (r, t))
same_op-IsFaithful r = record { same = λ c t. refl; again = λ c t h. refl }

net-IsGood : All IsGood net.nodes
net-IsGood = (
  record { tame = same_op-IsTame stop; coded = tt },
  (
    record {
      tame = same_op-IsTame success_code;
      coded = ((omega arith, (omega arith, tt)), ((omega arith, (omega arith, tt)), tt));
    },
    tt,
  ),
)

process_next_total_example : (r : ℕ × Net) × (process_next net ≡ some r)
process_next_total_example = process_next_total net refl net-IsGood

net-IsWired : IsWired net
net-IsWired = record { distinct = λ a. ground arith; reserved = refl }

net-IsSorted : All IsSorted net.nodes
unfolding get_pend_step_op_code
net-IsSorted = (
  record { faithful = same_op-IsFaithful stop; waiting = tt },
  (record { faithful = same_op-IsFaithful success_code; waiting = (refl, (refl, tt)) }, tt),
)

abbrev after_run : ℕ × Net
after_run = (process_next_total net refl net-IsGood).0

process_next_conserves_example : held 200 after_run.1 ≡ held 200 net
process_next_conserves_example =
    process_next_conserves net after_run net-IsWired net-IsSorted
      (process_next_total net refl net-IsGood).1 200

-- The network with input for both nodes, and with a task that no node is for.
abbrev net_fed : Net
net_fed = record net {
  input = record node_in {
    tasks = task 300 (step 8 ∷ []) ∷ task 400 (step 9 ∷ []) ∷ task 500 (step 7 ∷ []) ∷ [];
    n_tasks = 3;
  };
  output = record node_out { tasks = task 600 [] ∷ task 700 [] ∷ []; n_tasks = 2 };
}

process_outputs_example :
    (pn' : Net) × (process_outputs (some net_fed) ≡ some (2, some pn'))
    × Drained net_fed (task 600 [] ∷ task 700 [] ∷ []) pn'
process_outputs_example = process_outputs_lem net_fed

one_stray : strays net_fed.nodes net_fed.input.tasks ≡ task 400 (step 9 ∷ []) ∷ []
unfolding find_tracker get_pend_step_op_code
one_stray = refl

process_inputs_example :
    (pn' : Net) × (process_inputs net_fed ≡ some (success, pn'))
    × Emptied net_fed net_fed.input.tasks pn'
process_inputs_example = process_inputs_lem net_fed refl net-IsWired.distinct

create_example :
    let (o, freed) = create 1000 0 2000 in
    ((o ≡ none)
      × (freed ≡ some (1000 ∷ []))
      × ((◌≡◌ {A = ℕ} 1000 0) ⊎ ((◌≡◌ {A = ℕ} 0 0) ⊎ (◌≡◌ {A = ℕ} 2000 0))))
    ⊎ ((pn : Net) × (o ≡ some pn)
        × (◌≢◌ {A = ℕ} 1000 0)
        × (◌≢◌ {A = ℕ} 0 0)
        × (◌≢◌ {A = ℕ} 2000 0)
        × (pn.n ≡ 0)
        × (pn.nodes ≡ [])
        × (pn.input.tasks ≡ [])
        × (pn.output.tasks ≡ [])
        × Kept pn)
create_example = create_cases 1000 0 2000

add_node_example :
    let (s, o) = add_node (some net) (some node_out) in
    ((s ≡ success) ↔ ((node_out.op_code ≢ op_node_in) × (node_out.op_code ≢ op_node_out)))
    × (s ≢ success → (s ≡ einval) × (o ≡ some net))
    × (s ≡ success
        → (pn' : Net) × (o ≡ some pn')
          × (pn'.nodes ≡ net.nodes ++ (node_out ∷ []))
          × (pn'.n ≡ length pn'.nodes))
add_node_example = add_node_cases net node_out refl (omega arith)

destroy_net_example :
    destroy_net (some net) 1000
    ≡ some (freed_with (net.nodes ++ (net.input ∷ net.output ∷ [])) ++ (1000 ∷ []))
destroy_net_example = destroy_net_lem net 1000
