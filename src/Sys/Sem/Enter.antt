-- ===== src/Sys/Sem/Enter.antt =====
-- `sys_sem_init` and `sys_sem_wait` of zeos/sys.c.
use soa_subject.Prelude.{
  ℕ, ◌≤◌, ◌<◌, ◌≡◌, ◌≢◌, refl, sym, subst, ◌⊎◌, inl, inr, true, false, ◌==◌, update, [], arith, ◌^◌,
  neg32, Bool-cases, ==→≡, ==→≢, update_twice,
}
use soa_subject.Config.{max_sem}
use soa_subject.Links.{null, init_list_head}
use soa_subject.Links.Heads
use soa_subject.Links.Queues.{Queues}
use soa_subject.Kernel.{Kernel, Outcome, returned, sem_blocked, with_links}
use soa_subject.Sched.Invariant.{IsValid, IsValid-same}
use soa_subject.Sys.Sem.{valid_sem, sys_sem_init, with_sem}
use soa_subject.Sys.Sem.Facts.{live_init, dead_sem, valid_sem_new, valid_sem_bad, Counters-set}

module _ {k : Kernel} (v : IsValid k) where
  -- No head of a semaphore's list is in a list.
  head_unowned : (n : ℕ) → v.owner (sem_blocked n) ≡ null
  head_unowned n = elim (Bool-cases (v.owner (sem_blocked n) == null)) [
    | inl e ↦ ==→≡ _ _ e
    | inr e ↦ absurd (omega (arith, v.base.range (sem_blocked n) (==→≢ _ _ e)))
  ]

  -- The state behind a successful `sys_sem_init`.
  abbrev inited : (n value : ℕ) → Kernel
  inited n value = record k {
    links = init_list_head (sem_blocked n) k.links;
    list_sem = update k.list_sem n (record { is_init = 1; counter = value });
  }

  inited-IsValid :
      (n value : ℕ)
      → n < max_sem
      → (k.list_sem n).is_init ≡ 0
      → value < 2 ^ 31
      → (valid : IsValid (inited n value)) × (valid.queue ≡ update v.queue (sem_blocked n) [])
  inited-IsValid n value lt fresh small = (
    record {
      owner = v.owner;
      queue = update v.queue (sem_blocked n) [];
      base = record {
        queues =
            subst
              (λ l.
                Queues (init_list_head (sem_blocked n) k.links) l v.owner
                  (update v.queue (sem_blocked n) []))
              (live_init k.list_sem n value lt)
              (Heads.init v.base.queues (sem_blocked n) (head_unowned n) (omega arith)
                (dead_sem k.list_sem n fresh));
        range = v.base.range;
        current_lt = v.base.current_lt;
        idle_lt = v.base.idle_lt;
        idle_home = v.base.idle_home;
      };
      runs = record { unqueued = v.runs.unqueued; marked = v.runs.marked };
      counters =
          Counters-set k.list_sem v.queue n (record { is_init = 1; counter = value }) [] v.counters
            (ground arith);
    },
    refl,
  )

  -- The same as the code builds it.
  abbrev coded : (n value : ℕ) → Kernel
  coded n value =
      with_sem n (λ s. record s { is_init = 1 })
        (with_links (init_list_head (sem_blocked n))
          (with_sem n (λ s. record s { counter = value }) k))

  coded_sems :
      (n value : ℕ)
      → (coded n value).list_sem ≡ update k.list_sem n (record { is_init = 1; counter = value })
  coded_sems n value =
      update_twice k.list_sem n (λ s. record s { is_init = 1 })
        (record (k.list_sem n) { counter = value })

  -- How `sys_sem_init` ends.
  pub data Inited (n value : ℕ) (r : Kernel × Outcome) : Type 0 where
    accepted :
        (valid : IsValid r.0)
        → n < max_sem
        → (k.list_sem n).is_init ≡ 0
        → r.1 ≡ returned 0
        → r.0.list_sem ≡ update k.list_sem n (record { is_init = 1; counter = value })
        → valid.queue ≡ update v.queue (sem_blocked n) []
        → Inited n value r
    refused :
        (max_sem ≤ n) ⊎ ((k.list_sem n).is_init ≢ 0)
        → r ≡ (k, returned (neg32 1))
        → Inited n value r

  pub Inited-IsValid : (n value : ℕ) (r : Kernel × Outcome) → Inited n value r → IsValid r.0
  Inited-IsValid n value r (accepted valid lt fresh out sems queue) = valid
  Inited-IsValid n value r (refused why e) = subst (λ (s : Kernel × Outcome). IsValid s.0) (sym e) v

  -- `sys_sem_init` with a value below 2^31 keeps the state valid. If the number is in range and the
  -- semaphore is not in use it answers 0 and gives the semaphore that counter and an empty list,
  -- and the other semaphores and queues are as they were; otherwise, and only then, it answers -1
  -- and changes nothing.
  pub sys_sem_init-IsValid :
      (n value : ℕ) → value < 2 ^ 31 → Inited n value (sys_sem_init n value k)
  sys_sem_init-IsValid n value small = elim (Bool-cases (valid_sem n true k == 0)) [
    | inl e ↦
        let (lt, fresh) = valid_sem_new n k e in
        let (valid, queue) = inited-IsValid n value lt fresh small in
        let same =
          IsValid-same
            (record {
              links = refl;
              sems = coded_sems n value;
              current = refl;
              idle = refl;
              marked = λ m. m;
            })
            valid in
        subst (Inited n value) (sym (init-ok e))
          (accepted same lt fresh refl (coded_sems n value) queue)
    | inr e ↦ refused (valid_sem_bad n k e) (init-bad e)
  ]
    where
      init-bad :
          (valid_sem n true k == 0) ≡ false → sys_sem_init n value k ≡ (k, returned (neg32 1))
      init-bad e = unfold sys_sem_init in rw e

      init-ok :
          (valid_sem n true k == 0) ≡ true → sys_sem_init n value k ≡ (coded n value, returned 0)
      init-ok e = unfold sys_sem_init in rw e
