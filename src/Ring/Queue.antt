-- ===== src/Ring/Queue.antt =====
-- A valid ring behaves as a bounded queue of the items that it holds.
use soa_subject.Prelude.{
  ℕ, zero, suc, ◌+◌, ◌%◌, ◌≤◌, ◌<◌, ◌≡◌, ◌≢◌, refl, sym, ap, ap₂, subst, ◌∙◌, Option, none, some,
  List, [], ◌∷◌, ◌++◌, arith, ◌==◌, if◌then◌else◌, update, length, ==_of_ne, Bool-cases, inl, inr,
  ==→≡, ==→≢, ==_refl,
}
use native.Mathlib.Nat.{mod-lt, mod-eq_of_lt, mod-add-mod}
use soa_subject.Ring.{Ring, write, read, pending}

-- The bounded queue of at most `size` items that the buffers stand for, oldest item first.
unfoldable pub enqueue : (size : ℕ) → ℕ → List ℕ → List ℕ
enqueue size c q = if length q == size then q else q ++ (c ∷ [])

unfoldable pub dequeue : List ℕ → Option ℕ × List ℕ
dequeue [] = (none, [])
dequeue (c ∷ q) = (some c, q)

module _ (size : ℕ) where
  -- The items of the `n` slots from `t` on, going round at `size`.
  abbrev pub items : (ℕ → ℕ) → ℕ → ℕ → List ℕ
  items buff t zero = []
  items buff t (suc n) = buff t ∷ items buff ((t + 1) % size) n

  pub record IsValid (r : Ring) : Type 0 where
    pub head_lt : r.head < size
    pub tail_lt : r.tail < size
    pub full_le : r.full ≤ 1
    pub full_meets : r.full ≡ 1 → r.head ≡ r.tail

  abbrev pub contents : Ring → List ℕ
  contents r = items r.buff r.tail (pending size r)

  length-items : (buff : ℕ → ℕ) (t n : ℕ) → length (items buff t n) ≡ n
  length-items buff t zero = refl
  length-items buff t (suc n) = ap suc (length-items buff ((t + 1) % size) n)

  shift : (t n : ℕ) → (t + suc n) % size ≡ ((t + 1) % size + n) % size
  shift t n = rw mod-add-mod (ap (λ k. k % size) (omega arith))

  -- The last slot of a window stands `n` behind its first.
  items-snoc :
      (buff : ℕ → ℕ) (t n : ℕ)
      → t < size
      → items buff t (suc n) ≡ items buff t n ++ (buff ((t + n) % size) ∷ [])
  items-snoc buff t zero h = ap (λ k. buff k ∷ []) (grind arith)
  items-snoc buff t (suc n) h =
      ap (λ l. buff t ∷ l) (items-snoc buff ((t + 1) % size) n (mod-lt (t + 1) (omega arith)))
      ∙ ap (λ k. items buff t (suc n) ++ (buff k ∷ [])) (sym (shift t n))

  -- Two slots of one window differ.
  slot_ne : (t k n : ℕ) → t < size → k < n → n < size → (t + n) % size ≢ (t + k) % size
  slot_ne t k n h l m e = grind arith

  -- A write to a slot outside a window leaves its items.
  items-update :
      (buff : ℕ → ℕ) (i x t n : ℕ)
      → ((k : ℕ) → k < n → i ≢ (t + k) % size)
      → t < size
      → items (update buff i x) t n ≡ items buff t n
  items-update buff i x t zero out h = refl
  items-update buff i x t (suc n) out h =
      ap₂ ◌∷◌ (rw (==_of_ne i t (λ e. out 0 (omega arith) (e ∙ here)))) (
        items-update buff i x ((t + 1) % size) n
          (λ k l e. out (suc k) (omega arith) (e ∙ sym (shift t k))) (mod-lt (t + 1) (omega arith)))
    where
      here : t ≡ (t + 0) % size
      here = grind arith

  wrap_once : (i : ℕ) → i < size → (i + size) % size ≡ i
  wrap_once i h = grind arith

  next_slot : (i : ℕ) → i < size → (i + 1) % size ≡ (if i + 1 == size then 0 else i + 1)
  next_slot i h = elim (Bool-cases (i + 1 == size)) [
    | inl e ↦
        rw e (ap (λ k. k % size) (ground (arith, ==→≡ (i + 1) size e)) ∙ wrap_once 0 (omega arith))
    | inr e ↦ rw e (mod-eq_of_lt (ground (arith, ==→≢ (i + 1) size e)))
  ]

  module _ {r : Ring} (v : IsValid r) where
    head-eq : r.head ≡ (r.tail + pending size r) % size
    unfolding pending
    head-eq = ground (arith, v.full_meets, wrap_once r.head v.head_lt, mod-eq_of_lt v.head_lt)

    pending-le : pending size r ≤ size
    unfolding pending
    pending-le = ground arith

    pending_full : r.full ≡ 1 → pending size r ≡ size
    unfolding pending
    pending_full e = ground (arith, v.full_meets)

    pending_not_full : r.full ≡ 0 → pending size r < size
    unfolding pending
    pending_not_full e = ground arith

    pub length-contents : length (contents r) ≡ pending size r
    length-contents = length-items r.buff r.tail (pending size r)

    pub write-IsValid : (c : ℕ) → IsValid (write size c r)
    unfolding write
    write-IsValid c = ground (arith, mod-lt (r.head + 1) {m = size})

    pub read-IsValid : IsValid (read size r).1
    unfolding read
    read-IsValid = ground (arith, mod-lt (r.tail + 1) {m = size})

    pending-write : (c : ℕ) → r.full ≡ 0 → pending size (write size c r) ≡ suc (pending size r)
    unfolding write pending
    pending-write c e = ground (arith, next_slot r.head v.head_lt)

    pending_next :
        pending size r ≢ 0
        → pending size r ≡ suc (pending size (record r { tail = (r.tail + 1) % size; full = 0 }))
    unfolding pending
    pending_next e = ground (arith, v.full_meets, next_slot r.tail v.tail_lt)

    buff-write : (c : ℕ) → r.full ≡ 0 → (write size c r).buff ≡ update r.buff r.head c
    unfolding write
    buff-write c e = rw e

    tail-write : (c : ℕ) → (write size c r).tail ≡ r.tail
    unfolding write
    tail-write c = ground arith

    write-full : (c : ℕ) → r.full ≡ 1 → write size c r ≡ r
    unfolding write
    write-full c e = rw e

    -- Below `size` items a write adds one behind the others.
    contents-write : (c : ℕ) → r.full ≡ 0 → contents (write size c r) ≡ contents r ++ (c ∷ [])
    contents-write c e = rw (pending-write c e) (
        ap₂ (λ b t. items b t (suc (pending size r))) (buff-write c e) (tail-write c)
        ∙ items-snoc (update r.buff r.head c) r.tail (pending size r) v.tail_lt
        ∙ ap₂ (λ l x. l ++ (x ∷ [])) kept last)
      where
        kept :
            items (update r.buff r.head c) r.tail (pending size r)
            ≡ items r.buff r.tail (pending size r)
        kept =
            items-update r.buff r.head c r.tail (pending size r)
              (λ k l q.
                slot_ne r.tail k (pending size r) v.tail_lt l (pending_not_full e)
                  (sym head-eq ∙ q))
              v.tail_lt

        last : update r.buff r.head c ((r.tail + pending size r) % size) ≡ c
        last = rw (← head-eq, ==_refl r.head)

    read-empty : pending size r ≡ 0 → read size r ≡ (none, r)
    unfolding read pending
    read-empty e = ground (arith, v.full_meets)

    read-some :
        pending size r ≢ 0
        → read size r ≡ (some (r.buff r.tail), record r { tail = (r.tail + 1) % size; full = 0 })
    unfolding read pending
    read-some e = ground (arith, v.full_meets)

    -- A write to a valid buffer is the bounded queue's `enqueue` on its contents.
    pub write-enqueue : (c : ℕ) → contents (write size c r) ≡ enqueue size c (contents r)
    unfolding enqueue
    write-enqueue c = elim (Bool-cases (r.full == 0)) [
      | inl e ↦
          let e' : r.full ≡ 0 = ground (arith, ==→≡ r.full 0 e) in
          rw (contents-write c e') (ground (arith, length-contents, pending_not_full e'))
      | inr e ↦
          let e' : r.full ≡ 1 = ground (arith, ==→≢ r.full 0 e, v.full_le) in
          rw (write-full c e') (ground (arith, length-contents, pending_full e'))
    ]

    -- A read of a valid buffer is the queue's `dequeue` on its contents.
    pub read-dequeue : let (out, r') = read size r in (out, contents r') ≡ dequeue (contents r)
    unfolding dequeue
    read-dequeue = elim (Bool-cases (pending size r == 0)) [
      | inl e ↦
          let e' : pending size r ≡ 0 = ground (arith, ==→≡ (pending size r) 0 e) in
          subst Reads (sym (read-empty e')) (
            ap (λ (m : ℕ). (none, items r.buff r.tail m)) e'
            ∙ sym (ap (λ m. dequeue (items r.buff r.tail m)) e'))
      | inr e ↦
          let e' : pending size r ≢ 0 = ground (arith, ==→≢ (pending size r) 0 e) in
          subst Reads (sym (read-some e'))
            (sym (ap (λ m. dequeue (items r.buff r.tail m)) (pending_next e')))
    ]
      where
        Reads : Option ℕ × Ring → Type 0
        Reads p = (p.0, contents p.1) ≡ dequeue (contents r)
