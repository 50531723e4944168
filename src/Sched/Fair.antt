-- ===== src/Sched/Fair.antt =====
-- The turns that `schedule` of zeos/sched.c gives to the ready tasks.
use soa_subject.Prelude.{
  ℕ, zero, suc, ◌+◌, ◌-◌, ◌*◌, ◌^◌, ◌≤◌, ◌<◌, ◌≡◌, refl, sym, ap, ◌∙◌, subst, true, false, ◌==◌,
  List, [], ◌∷◌, ◌++◌, arith, sub32, is_nil, All, length, append_assoc, All-append, All-split,
}
use soa_subject.Links.Queues
use soa_subject.Kernel.{
  Kernel, Resume, Outcome, task_link, list_head_to_task_struct, readyqueue, in_schedule,
}
use soa_subject.Sched.{schedule, sched_next_rr, update_process_state_rr}
use soa_subject.Sched.Invariant.{IsValid}
use soa_subject.Sched.Next.{sched_next_rr_lem}
use soa_subject.Sched.Preempt.{
  ticked, schedule-keep, schedule-switch, IsValid-quantum, switch-Turned,
}

-- `m` ticks of the clock.
pub ticks : ℕ → Kernel → Kernel
ticks zero k = k
ticks (suc m) k = ticks m (schedule k).0

-- No switch changes the quantum of a task.
module _ (k : Kernel) (i : ℕ) where
  next_quantum :
      (here : Resume) → ((sched_next_rr here k).0.tasks i).total_quantum ≡ (k.tasks i).total_quantum
  unfolding sched_next_rr
  next_quantum here = ground arith

  queued_quantum :
      (t dst : ℕ)
      → ((update_process_state_rr t dst k).tasks i).total_quantum ≡ (k.tasks i).total_quantum
  unfolding update_process_state_rr
  queued_quantum t dst = ground arith

-- The quantum of a task, by its address in a queue, is from 1 to `most`.
abbrev pub HasQuantum : (most : ℕ) → Kernel → ℕ → Type 0
HasQuantum most k l =
    (1 ≤ (k.tasks (list_head_to_task_struct l)).total_quantum)
    × ((k.tasks (list_head_to_task_struct l)).total_quantum ≤ most)

-- The tail of a list that begins with its first element.
tail_lem : (y next : ℕ) (ys rest : List ℕ) → y ∷ ys ≡ next ∷ rest → (y ≡ next) × (ys ≡ rest)
tail_lem y next ys rest e = (cc, cc)

All-transfer :
    (most : ℕ) (k k' : Kernel) (q : List ℕ)
    → ((i : ℕ) → (k'.tasks i).total_quantum ≡ (k.tasks i).total_quantum)
    → All (HasQuantum most k) q
    → All (HasQuantum most k') q
All-transfer most k k' [] same h = h
All-transfer most k k' (l ∷ q) same h =
    (omega (arith, same (list_head_to_task_struct l), h.0), All-transfer most k k' q same h.1)

rotate_All :
    (P : ℕ → Type 0) (q rest : List ℕ) (c next : ℕ)
    → q ++ (c ∷ []) ≡ next ∷ rest
    → All P (q ++ (c ∷ []))
    → All P (rest ++ (next ∷ []))
rotate_All P q rest c next e h =
    let h' : All P (next ∷ rest) = subst (All P) e h in
    All-append P rest (next ∷ []) h'.1 (h'.0, tt)

-- At the last tick of a quantum, with a task ready, the running task goes behind the ready ones.
module _ (most : ℕ) {k : Kernel} (v : IsValid k) (y : ℕ) (ys : List ℕ)
    (ready : v.queue readyqueue ≡ y ∷ ys) (last : k.remaining_quantum ≡ 1)
    (quanta : All (HasQuantum most k) (v.queue readyqueue ++ (task_link k.current ∷ []))) where
  switched_lem :
      (schedule k).0
      ≡ (sched_next_rr in_schedule (update_process_state_rr k.current readyqueue (ticked k))).0
  switched_lem =
      let full = Queues.list_empty-queue v.base.queues readyqueue refl ∙ ap is_nil ready in
      let over : (sub32 k.remaining_quantum 1 == 0) ≡ true = ground (arith, last) in
      ap (λ (r : Kernel × Outcome). r.0) (schedule-switch k over full)

  -- What is left to the next task, and what holds of all.
  record Passed (k' : Kernel) : Type 0 where
    valid : IsValid k'
    order :
        v.queue readyqueue ++ (task_link k.current ∷ [])
        ≡ task_link k'.current ∷ valid.queue readyqueue
    left : (1 ≤ k'.remaining_quantum) × (k'.remaining_quantum ≤ most)
    quanta' : All (HasQuantum most k') (valid.queue readyqueue ++ (task_link k'.current ∷ []))

  passed_lem : Passed (schedule k).0
  passed_lem =
      let k1 = update_process_state_rr k.current readyqueue (ticked k) in
      let k2 = (sched_next_rr in_schedule k1).0 in
      let t = switch-Turned (IsValid-quantum (sub32 k.remaining_quantum 1) v) in_schedule in
      let same = λ (i : ℕ).
        next_quantum k1 i in_schedule ∙ queued_quantum (ticked k) i k.current readyqueue in
      let moved = All-transfer most k k2 _ same quanta in
      let all =
        rotate_All (HasQuantum most k2) (v.queue readyqueue) (t.valid.queue readyqueue)
          (task_link k.current) (task_link k2.current) t.order moved in
      let first =
        (All-split (HasQuantum most k2) (t.valid.queue readyqueue) (task_link k2.current ∷ [])
          all).1.0 in
      let back : list_head_to_task_struct (task_link k2.current) ≡ k2.current = omega arith in
      let mine =
        subst (λ i. (1 ≤ (k2.tasks i).total_quantum) × ((k2.tasks i).total_quantum ≤ most)) back
          first in
      let given = (sched_next_rr_lem in_schedule k1).10 in
      subst Passed (sym switched_lem) (record {
        valid = t.valid;
        order = t.order;
        left = omega (arith, given, mine);
        quanta' = all;
      })

-- What the position of a task becomes.
moved_up :
    (y x next c : ℕ) (bs after rest : List ℕ)
    → y ∷ bs ++ (x ∷ after) ++ (c ∷ []) ≡ next ∷ rest
    → rest ≡ bs ++ (x ∷ (after ++ (c ∷ [])))
moved_up y x next c bs after rest e =
    sym (tail_lem y next (bs ++ (x ∷ after) ++ (c ∷ [])) rest e).1
    ∙ append_assoc bs (x ∷ after) (c ∷ [])

module _ (most : ℕ) (small : most < 2 ^ 32) where
  wait :
      (before after : List ℕ) (x r : ℕ) (k : Kernel) (v : IsValid k)
      → v.queue readyqueue ≡ before ++ (x ∷ after)
      → k.remaining_quantum ≡ suc r
      → suc r ≤ most
      → All (HasQuantum most k) (v.queue readyqueue ++ (task_link k.current ∷ []))
      → (m : ℕ) × (m ≤ suc r + length before * most) × (task_link (ticks m k).current ≡ x)
  unfolding ticks
  wait before after x (suc r) k v place left le quanta =
      let keep : (sub32 k.remaining_quantum 1 == 0) ≡ false = ground arith in
      let same : (schedule k).0 ≡ ticked k =
        ap (λ (r : Kernel × Outcome). r.0) (schedule-keep k keep) in
      let (m, le', e) =
        wait before after x r (ticked k) (IsValid-quantum (sub32 k.remaining_quantum 1) v) place
          (omega arith) (omega arith) quanta in
      (suc m, omega (arith, le'), ap (λ k'. task_link (ticks m k').current) same ∙ e)
  wait [] after x zero k v place left le quanta =
      let p = passed_lem most v x after place (omega arith) quanta in
      let e = ap (λ q. q ++ (task_link k.current ∷ [])) (sym place) ∙ p.order in
      (1, omega arith, sym (tail_lem x _ (after ++ (task_link k.current ∷ [])) _ e).0)
  wait (y ∷ bs) after x zero k v place left le quanta =
      let p = passed_lem most v y (bs ++ (x ∷ after)) place (omega arith) quanta in
      let k' = (schedule k).0 in
      let e = ap (λ q. q ++ (task_link k.current ∷ [])) (sym place) ∙ p.order in
      let (m, le', e') =
        wait bs (after ++ (task_link k.current ∷ [])) x (k'.remaining_quantum - 1) k' p.valid
          (moved_up y x (task_link k'.current) (task_link k.current) bs after
            (p.valid.queue readyqueue) e)
          (omega (arith, p.left)) (omega (arith, p.left)) p.quanta' in
      (suc m, grind (arith, le', p.left), e')

-- If the quanta of the running task and of the ready ones are from 1 to `most`, and so is what is
-- left of the running task's, the task `x` with `before` before it in the ready queue runs after at
-- most the ticks that are left and `most` ticks for each task before it.
pub ticks-runs :
    (most : ℕ) {k : Kernel} (v : IsValid k) (before after : List ℕ) (x : ℕ)
    → most < 2 ^ 32
    → v.queue readyqueue ≡ before ++ (x ∷ after)
    → 1 ≤ k.remaining_quantum
    → k.remaining_quantum ≤ most
    → All (HasQuantum most k) (v.queue readyqueue ++ (task_link k.current ∷ []))
    → (m : ℕ) × (m ≤ k.remaining_quantum + length before * most)
      × (task_link (ticks m k).current ≡ x)
ticks-runs most {k} v before after x small place low high quanta =
    let (m, le, e) =
      wait most small before after x (k.remaining_quantum - 1) k v place (omega arith) (omega arith)
        quanta in
    (m, omega (arith, le), e)
