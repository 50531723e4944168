-- ===== src/Sys/Thread/Terminate.antt =====
-- `sys_terminatethread` of zeos/sys.c.
use soa_subject.Prelude.{
  ℕ, ◌/◌, ◌^◌, ◌≡◌, ◌≢◌, refl, sym, ap, subst, ◌∙◌, ◌⊎◌, inl, inr, true, false, ◌||◌, ltb, leb,
  ◌==◌, Bool-cases, is_neg, arith,
}
use soa_subject.Config.{first_free_page, total_pages}
use soa_subject.Links.{list_add_tail}
use soa_subject.Mm.{Memory, get_frame}
use soa_subject.Kernel.{
  Kernel, Resume, Outcome, returned, freequeue, task_link, in_terminatethread, get_pt, with_links,
}
use soa_subject.Sched.{sched_next_rr, pick_next}
use soa_subject.Sched.Invariant.{IsValid}
use soa_subject.Sys.Pages.{dealloc_k}
use soa_subject.Sys.Pages.Dealloc.{
  Unmapped, protected_page, no_mapping, unmapped, dealloc_k-Unmapped,
}
use soa_subject.Sys.Process.Exit.{Left, leave-Left}
use soa_subject.Sys.Thread.Create.{Quiet, dealloc_k-Quiet}
use soa_subject.Sys.Thread.{sys_terminatethread}

-- An error of `dealloc_k` changes nothing.
dealloc_k-error :
    (lpage : ℕ) (k : Kernel) → is_neg (dealloc_k lpage k).0 ≡ true → (dealloc_k lpage k).1 ≡ k
unfolding dealloc_k
dealloc_k-error lpage k = elim (Bool-cases (ltb lpage first_free_page || leb total_pages lpage)) [
  | inl e ↦ rw e (λ _. refl)
  | inr e ↦ elim (Bool-cases (get_frame (get_pt k.current k) lpage k.mm == 0)) [
    | inl f ↦ rw (e, f) (λ _. refl)
    | inr f ↦ rw (e, f) (λ g. cc)
  ]
]

-- The choice of the next task is no concern of the memory.
mm-sched_next_rr : (here : Resume) (k : Kernel) → (sched_next_rr here k).0.mm ≡ k.mm
unfolding sched_next_rr pick_next
mm-sched_next_rr here k = ground arith

-- An answer of `dealloc_k` that is no error is 0.
Unmapped-answer :
    {lpage pt r : ℕ} {m m' : Memory} → Unmapped lpage pt m r m' → is_neg r ≡ false → r ≡ 0
Unmapped-answer (protected_page h er em) pos = absurd (ground (arith, er, pos))
Unmapped-answer (no_mapping lo hi z er em) pos = absurd (ground (arith, er, pos))
Unmapped-answer (unmapped lo hi ne er et ep) pos = er

module _ {k : Kernel} (v : IsValid k) (ne : k.current ≢ k.idle_task) where
  abbrev stack_page : ℕ
  stack_page = (k.tasks k.current).user_esp / 2 ^ 12

  -- The state in which the task is behind the free ones and still runs.
  abbrev left_behind : Kernel
  left_behind =
      with_links (list_add_tail (task_link (dealloc_k stack_page k).1.current) freequeue)
        (dealloc_k stack_page k).1

  -- How `sys_terminatethread` ends: the page of the saved user stack is given back with the answer
  -- `error`, which is the caller's if it is not 0; otherwise the task has left.
  pub record Terminated (r : Kernel × Outcome) : Type 0 where
    pub error : ℕ
    pub memory : Unmapped stack_page (get_pt k.current k) k.mm error r.0.mm
    pub ending : (is_neg error ≡ true) × (r ≡ (k, returned error)) ⊎ (error ≡ 0) × Left v r.0

  -- `sys_terminatethread` by a task other than idle gives back the page of the saved user stack. If
  -- the page is none that `alloc_k` gives (-EACCES) or has no frame (-EFAULT), that is the answer and
  -- nothing changes; otherwise the page of the task's table has no frame any more, the frame is marked
  -- free if it is one from 257 to 1023, the other pages and marks are as they were, the task goes behind
  -- the free ones, the first ready task or idle runs, and the state stays valid.
  pub sys_terminatethread-Left : Terminated (sys_terminatethread k)
  unfolding sys_terminatethread
  sys_terminatethread-Left = elim (Bool-cases (is_neg (dealloc_k stack_page k).0)) [
    | inl e ↦ rw e (record {
      error = (dealloc_k stack_page k).0;
      memory = dealloc_k-Unmapped stack_page k;
      ending = inl (
        e,
        ap (λ (s : Kernel). (s, returned (dealloc_k stack_page k).0))
            (dealloc_k-error stack_page k e),
      );
    })
    | inr e ↦ rw e (record {
      error = (dealloc_k stack_page k).0;
      memory =
          subst (Unmapped stack_page (get_pt k.current k) k.mm (dealloc_k stack_page k).0)
            (sym (mm-sched_next_rr in_terminatethread left_behind))
            (dealloc_k-Unmapped stack_page k);
      ending = inr (
        Unmapped-answer (dealloc_k-Unmapped stack_page k) e,
        left (dealloc_k-Quiet stack_page k),
      );
    })
  ]
    where
      left :
          Quiet k (dealloc_k stack_page k).1
          → Left v (sched_next_rr in_terminatethread left_behind).0
      left q =
          leave-Left v ne in_terminatethread _
            (ap (λ c. list_add_tail (task_link c) freequeue (dealloc_k stack_page k).1.links)
                q.current
              ∙ ap (list_add_tail (task_link k.current) freequeue) q.links)
            q.sems q.current q.idle
