-- ===== src/ProcTask/Pool.antt =====
-- The pool of a task: each of its steps is in exactly one of the three lists, whatever is called.
use flightos.Common.{
  ℕ, zero, suc, ◌+◌, ◌≡◌, ◌≢◌, refl, sym, ap, subst, ◌∙◌, Option, none, some, List, [], ◌∷◌, ◌++◌,
  arith, length, All, All-append, Bool-cases, ◌==◌, ltb, leb, if◌then◌else◌, inl, inr,
  length-append,
}
use flightos.ProcTask.{
  Step, Task, rewind_loop, rewind_steps_done, next_pend_step_done, del_all_pending, add_step,
  del_last_step_done, del_pend_step, create, fresh_task, fill_free, assign, finish, recycle_todo,
  recycle_done,
}
use flightos.ProcTask.Steps.{IsCoded, del_all_pending_lem, rewind_loop-reverse}

-- How often the step of index `a` is in a list.
abbrev pub count : ℕ → List Step → ℕ
count a [] = 0
count a (s ∷ xs) = (if s.slot == a then 1 else 0) + count a xs

abbrev pub copies : ℕ → Task → ℕ
copies a t = count a t.todo + count a t.done + count a t.free

-- A task with `n` steps: step `a` is in the lists once if `a < n`, and never otherwise; the pending
-- and the completed steps have op codes.
pub record IsValid (n : ℕ) (t : Task) : Type 0 where
  pub owned : (a : ℕ) → copies a t ≡ (if ltb a n then 1 else 0)
  pub sized : length t.todo + length t.done + length t.free ≡ n
  pub coded_todo : All IsCoded t.todo
  pub coded_done : All IsCoded t.done

pub count-append : (a : ℕ) (xs ys : List Step) → count a (xs ++ ys) ≡ count a xs + count a ys
count-append a [] ys = omega arith
count-append a (x ∷ xs) ys = omega (arith, count-append a xs ys)

count-rewind_loop :
    (a : ℕ) (xs ys : List Step) → count a (rewind_loop xs ys) ≡ count a xs + count a ys
unfolding rewind_loop
count-rewind_loop a [] ys = omega arith
count-rewind_loop a (x ∷ xs) ys = omega (arith, count-rewind_loop a xs (x ∷ ys))

length-rewind_loop : (xs ys : List Step) → length (rewind_loop xs ys) ≡ length xs + length ys
unfolding rewind_loop
length-rewind_loop [] ys = omega arith
length-rewind_loop (x ∷ xs) ys = omega (arith, length-rewind_loop xs (x ∷ ys))

All-rewind_loop :
    (xs ys : List Step) → All IsCoded xs → All IsCoded ys → All IsCoded (rewind_loop xs ys)
unfolding rewind_loop
All-rewind_loop [] ys hx hy = hy
All-rewind_loop (x ∷ xs) ys hx hy = All-rewind_loop xs (x ∷ ys) hx.1 (hx.0, hy)

rewind_steps_done-IsValid : (n : ℕ) (t : Task) → IsValid n t → IsValid n (rewind_steps_done t)
unfolding rewind_steps_done
rewind_steps_done-IsValid n t v = record {
  owned = λ a. omega (arith, v.owned a, count-rewind_loop a t.done t.todo);
  sized = omega (arith, v.sized, length-rewind_loop t.done t.todo);
  coded_todo = All-rewind_loop t.done t.todo v.coded_done v.coded_todo;
  coded_done = tt;
}

finish-IsValid :
    (n : ℕ) (t : Task) (todo : List Step)
    → t.todo ≡ todo
    → IsValid n t
    → IsValid n (finish t todo).1
finish-IsValid n t [] e v = v
finish-IsValid n t (s ∷ rest) e v = record {
  owned = λ a. omega (arith, v.owned a, ap (count a) e);
  sized = omega (arith, v.sized, ap (λ l. length l) e);
  coded_todo = (subst (All IsCoded) e v.coded_todo).1;
  coded_done = ((subst (All IsCoded) e v.coded_todo).0, v.coded_done);
}

recycle_todo-IsValid :
    (n : ℕ) (t : Task) (todo : List Step)
    → t.todo ≡ todo
    → IsValid n t
    → IsValid n (recycle_todo t todo).1
recycle_todo-IsValid n t [] e v = v
recycle_todo-IsValid n t (s ∷ rest) e v = record {
  owned = λ a. omega (arith, v.owned a, ap (count a) e, count-append a t.free (s ∷ []));
  sized = omega (arith, v.sized, ap (λ l. length l) e, length-append t.free (s ∷ []));
  coded_todo = (subst (All IsCoded) e v.coded_todo).1;
  coded_done = v.coded_done;
}

recycle_done-IsValid :
    (n : ℕ) (t : Task) (done : List Step)
    → t.done ≡ done
    → IsValid n t
    → IsValid n (recycle_done t done).1
recycle_done-IsValid n t [] e v = v
recycle_done-IsValid n t (s ∷ rest) e v = record {
  owned = λ a. omega (arith, v.owned a, ap (count a) e, count-append a t.free (s ∷ []));
  sized = omega (arith, v.sized, ap (λ l. length l) e, length-append t.free (s ∷ []));
  coded_todo = v.coded_todo;
  coded_done = (subst (All IsCoded) e v.coded_done).1;
}

assign-IsValid :
    (n : ℕ) (t : Task) (free : List Step) (op_code op_info : ℕ)
    → t.free ≡ free
    → op_code ≢ 0
    → IsValid n t
    → IsValid n (assign t free op_code op_info).1
assign-IsValid n t [] op_code op_info e h v = v
assign-IsValid n t (s ∷ rest) op_code op_info e h v = record {
  owned = λ a. omega (arith, v.owned a, ap (count a) e, count-append a t.todo (new ∷ []));
  sized = omega (arith, v.sized, ap (λ l. length l) e, length-append t.todo (new ∷ []));
  coded_todo = All-append IsCoded t.todo (new ∷ []) v.coded_todo (h, tt);
  coded_done = v.coded_done;
}
  where
    new : Step
    new = record s { op_code = op_code; op_info = op_info }

add_step-IsValid :
    (n : ℕ) (t : Task) (op_code op_info : ℕ)
    → IsValid n t
    → IsValid n (add_step t op_code op_info).1
unfolding add_step
add_step-IsValid n t op_code op_info v = elim (Bool-cases (op_code == 0)) [
  | inl e ↦ rw e v
  | inr e ↦ rw e (assign-IsValid n t t.free op_code op_info refl (ground arith) v)
]

del_all-IsValid :
    (n : ℕ) (t : Task)
    → IsValid n t
    → IsValid n (record t { todo = []; done = rewind_loop t.todo t.done })
del_all-IsValid n t v = record {
  owned = λ a. omega (arith, v.owned a, count-rewind_loop a t.todo t.done);
  sized = omega (arith, v.sized, length-rewind_loop t.todo t.done);
  coded_todo = tt;
  coded_done = All-rewind_loop t.todo t.done v.coded_todo v.coded_done;
}

-- The calls that move the steps of a task.
pub data Call : Type 0 where
  rewind del_last del_pend next del_all : Call
  add : ℕ → ℕ → Call

-- `none` is a call that does not return.
unfoldable pub call : Task → Call → Option Task
call t rewind = some (rewind_steps_done t)
call t del_last = some (del_last_step_done t).1
call t del_pend = some (del_pend_step t).1
call t next = some (next_pend_step_done t).1
call t del_all = del_all_pending t
call t (add op_code op_info) = some (add_step t op_code op_info).1

unfoldable pub run : Task → List Call → Option Task
run t [] = some t
run t (c ∷ cs) = elim (call t c) [ none ↦ none | some u ↦ run u cs ]

-- What `pt_del_all_pending` leaves, for a task with op codes.
call-IsValid :
    (n : ℕ) (t : Task) (c : Call) → IsValid n t → (u : Task) × (call t c ≡ some u) × IsValid n u
unfolding call del_last_step_done del_pend_step next_pend_step_done
call-IsValid n t rewind v = (rewind_steps_done t, refl, rewind_steps_done-IsValid n t v)
call-IsValid n t del_last v =
    ((recycle_done t t.done).1, refl, recycle_done-IsValid n t t.done refl v)
call-IsValid n t del_pend v =
    ((recycle_todo t t.todo).1, refl, recycle_todo-IsValid n t t.todo refl v)
call-IsValid n t next v = ((finish t t.todo).1, refl, finish-IsValid n t t.todo refl v)
call-IsValid n t del_all v = (
  record t { todo = []; done = rewind_loop t.todo t.done },
  del_all_pending_lem t v.coded_todo
      ∙ ap (λ d. some (record t { todo = []; done = d })) (sym (rewind_loop-reverse t.todo t.done)),
  del_all-IsValid n t v,
)
call-IsValid n t (add op_code op_info) v =
    ((add_step t op_code op_info).1, refl, add_step-IsValid n t op_code op_info v)

-- Any sequence of calls returns, and keeps a task of `n` steps valid: no step is lost, is in two
-- lists or twice in one, and none is pending or completed without an op code.
pub run-IsValid :
    (n : ℕ) (t : Task) (cs : List Call)
    → IsValid n t
    → (u : Task) × (run t cs ≡ some u) × IsValid n u
unfolding run
run-IsValid n t [] v = (t, refl, v)
run-IsValid n t (c ∷ cs) v =
    let (u, e, w) = call-IsValid n t c v in
    let (r, f, x) = run-IsValid n u cs w in (r, rw (e, run) f, x)

count-fill_free :
    (n i a : ℕ) (free : List Step)
    → count a (fill_free n i free)
      ≡ count a free + (if leb i a then (if ltb a (i + n) then 1 else 0) else 0)
unfolding fill_free
count-fill_free zero i a free = ground arith
count-fill_free (suc n) i a free = ground (
  arith,
  count-fill_free n (suc i) a (free ++ (record { slot = i; op_code = 0; op_info = 0 } ∷ [])),
  count-append a free (record { slot = i; op_code = 0; op_info = 0 } ∷ []),
)

length-fill_free : (n i : ℕ) (free : List Step) → length (fill_free n i free) ≡ length free + n
unfolding fill_free
length-fill_free zero i free = omega arith
length-fill_free (suc n) i free = omega (
  arith,
  length-fill_free n (suc i) (free ++ (record { slot = i; op_code = 0; op_info = 0 } ∷ [])),
  length-append free (record { slot = i; op_code = 0; op_info = 0 } ∷ []),
)

-- If both allocations succeed, `pt_create` gives a task that is valid for the number of steps asked
-- for, all of them free, and frees nothing.
pub create-IsValid :
    (task_mem pool_mem p size steps task_type seq : ℕ)
    → task_mem ≢ 0
    → pool_mem ≢ 0
    → (t : Task) × (create task_mem pool_mem p size steps task_type seq ≡ (some t, []))
      × IsValid steps t
      × (length t.free ≡ steps)
unfolding create
create-IsValid task_mem pool_mem p size steps task_type seq h k = (
  fresh_task task_mem pool_mem p size steps task_type seq,
  ground arith,
  record {
    owned = λ a. ground (arith, count-fill_free steps 0 a []);
    sized = omega (arith, length-fill_free steps 0 []);
    coded_todo = tt;
    coded_done = tt;
  },
  omega (arith, length-fill_free steps 0 []),
)
