-- ===== src/ProcTask.antt =====
-- lib/data_proc_task.c and include/data_proc_task.h: a processing task and its lists of steps.
-- A list of nodes is the list of the steps that hold them, first entry first; an element of the
-- pool is told from the others by its index, `slot`. Pointers are numbers, NULL is 0. What
-- `kzalloc` returns is an argument of `create`; `destroy` returns the pointers that it hands to
-- `kfree`, in order.
pub mod Steps
pub mod Pool
mod Tests
use flightos.Common.{
  ℕ, zero, suc, ◌+◌, Bool, true, false, Option, none, some, List, [], ◌∷◌, ◌++◌, map, length,
  Status, success, failure, einval, enomem, ◌==◌, if◌then◌else◌,
}

-- `struct proc_step`, an element of the pool of a task
pub record Step : Type 0 where
  pub slot : ℕ
  pub op_code : ℕ
  pub op_info : ℕ

-- `struct proc_task` at the address `addr`; `pool` is the address of its steps
pub record Task : Type 0 where
  pub addr : ℕ
  pub data_ptr : ℕ
  pub size : ℕ
  pub nmemb : ℕ
  pub pool : ℕ
  pub todo : List Step
  pub done : List Step
  pub free : List Step
  pub task_type : ℕ
  pub seq : ℕ

-- The loop of `pt_rewind_steps_done`: each entry of `done` in turn goes to the head of `todo`.
unfoldable pub rewind_loop : List Step → List Step → List Step
rewind_loop [] todo = todo
rewind_loop (s ∷ done) todo = rewind_loop done (s ∷ todo)

unfoldable pub rewind_steps_done : Task → Task
unfolding rewind_loop
rewind_steps_done t = record t { todo = rewind_loop t.done t.todo; done = [] }

-- The first entry of a list goes to the tail of `free`.
abbrev pub recycle_done : Task → List Step → Status × Task
recycle_done t [] = (failure, t)
recycle_done t (s ∷ rest) = (success, record t { done = rest; free = t.free ++ (s ∷ []) })

unfoldable pub del_last_step_done : Task → Status × Task
del_last_step_done t = recycle_done t t.done

abbrev pub recycle_todo : Task → List Step → Status × Task
recycle_todo t [] = (failure, t)
recycle_todo t (s ∷ rest) = (success, record t { todo = rest; free = t.free ++ (s ∷ []) })

unfoldable pub del_pend_step : Task → Status × Task
del_pend_step t = recycle_todo t t.todo

abbrev pub finish : Task → List Step → Status × Task
finish t [] = (failure, t)
finish t (s ∷ rest) = (success, record t { todo = rest; done = s ∷ t.done })

unfoldable pub next_pend_step_done : Task → Status × Task
next_pend_step_done t = finish t t.todo

abbrev pub head_code : List Step → ℕ
head_code [] = 0
head_code (s ∷ _) = s.op_code

unfoldable pub get_pend_step_op_code : Task → ℕ
get_pend_step_op_code t = head_code t.todo

abbrev pub head_info : List Step → ℕ
head_info [] = 0
head_info (s ∷ _) = s.op_info

unfoldable pub get_pend_step_op_info : Task → ℕ
get_pend_step_op_info t = head_info t.todo

-- `while (pt_get_pend_step_op_code(t)) pt_next_pend_step_done(t);` on fuel. `none` means that the
-- fuel ran out.
unfoldable pub del_pending_loop : ℕ → Task → Option Task
del_pending_loop zero t = none
del_pending_loop (suc fuel) t =
    let rest = del_pending_loop fuel (next_pend_step_done t).1 in
    if get_pend_step_op_code t == 0 then some t else rest

abbrev pub assign : Task → List Step → ℕ → ℕ → Status × Task
assign t [] op_code op_info = (enomem, t)
assign t (s ∷ rest) op_code op_info = (
  success,
  record t {
    free = rest;
    todo = t.todo ++ (record s { op_code = op_code; op_info = op_info } ∷ []);
  },
)

-- The fuel is one more than the steps that can be moved.
unfoldable pub del_all_pending : Task → Option Task
unfolding del_pending_loop
del_all_pending t = del_pending_loop (suc (length t.todo)) t

unfoldable pub add_step : Task → ℕ → ℕ → Status × Task
add_step t op_code op_info = if op_code == 0 then (einval, t) else assign t t.free op_code op_info

unfoldable pub set_nmemb : Task → ℕ → Task
set_nmemb t nmemb = record t { nmemb = nmemb }

unfoldable pub set_size : Task → ℕ → Task
set_size t size = record t { size = size }

unfoldable pub set_data : Task → ℕ → ℕ → Task
set_data t p size = record t { data_ptr = p; size = if p == 0 then 0 else size }

unfoldable pub set_type : Task → ℕ → Task
set_type t task_type = record t { task_type = task_type }

unfoldable pub set_seq : Task → ℕ → Task
set_seq t seq = record t { seq = seq }

-- `for (i = 0; i < steps; i++) list_add_tail(&t->pool[i].node, &t->free);` with `n` rounds left.
-- The memory is zeroed.
unfoldable pub fill_free : ℕ → ℕ → List Step → List Step
fill_free zero i free = free
fill_free (suc n) i free =
    fill_free n (suc i) (free ++ (record { slot = i; op_code = 0; op_info = 0 } ∷ []))

abbrev pub fresh_task : ℕ → ℕ → ℕ → ℕ → ℕ → ℕ → ℕ → Task
unfolding fill_free
fresh_task task_mem pool_mem p size steps task_type seq = record {
  addr = task_mem;
  data_ptr = p;
  size = if p == 0 then 0 else size;
  nmemb = 0;
  pool = pool_mem;
  todo = [];
  done = [];
  free = fill_free steps 0 [];
  task_type = task_type;
  seq = seq;
}

-- What `pt_create` does with the results of its two calls of `kzalloc`: the task if both succeed.
-- The second component is what is freed on the way out.
unfoldable pub create : ℕ → ℕ → ℕ → ℕ → ℕ → ℕ → ℕ → Option Task × List ℕ
unfolding fresh_task
create task_mem pool_mem p size steps task_type seq =
    if task_mem == 0
    then (none, [])
    else if pool_mem == 0
    then (none, task_mem ∷ [])
    else (some (fresh_task task_mem pool_mem p size steps task_type seq), [])

-- The pointers that `pt_destroy` frees.
unfoldable pub destroy : Task → List ℕ
destroy t =
    map (λ s. s.op_info) t.todo
    ++ (map (λ s. s.op_info) t.done ++ (map (λ s. s.op_info) t.free ++ (t.pool ∷ t.addr ∷ [])))
