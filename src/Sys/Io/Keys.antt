-- ===== src/Sys/Io/Keys.antt =====
-- `sys_get_key` of zeos/sys.c and the keyboard's buffer.
use soa_subject.Prelude.{ℕ, ◌≡◌, refl, sym, ap, ◌∙◌, Option, none, some, true, neg32}
use soa_subject.Config.{buff_size}
use soa_subject.Access.{access_ok, verify_write}
use soa_subject.Ring.{Ring, read}
use soa_subject.Ring.Queue.{IsValid, dequeue, contents, read-dequeue}
use soa_subject.Kernel.{Kernel, Outcome, returned}
use soa_subject.Sys.Io.{read_from_buffer, give_key, sys_get_key}

-- The answer is 0 with a key and -1 with none.
abbrev pub answer : Option ℕ → Outcome
answer none = returned (neg32 1)
answer (some key) = returned 0

give_key_lem :
    (p : Option ℕ × Ring) (k : Kernel)
    → let r = give_key p k in (r.0 ≡ p.0) × (r.1.keys ≡ p.1) × (r.2 ≡ answer p.0)
unfolding give_key
give_key_lem (none, r) k = (refl, refl, refl)
give_key_lem (some key, r) k = (refl, refl, refl)

-- `sys_get_key` to an address that `access_ok` accepts stores the oldest key that is typed and not
-- read, takes it out of the buffer and answers 0; if there is none it answers -1.
pub sys_get_key-dequeue :
    (c : ℕ) (k : Kernel)
    → access_ok verify_write c 4 ≡ true
    → IsValid buff_size k.keys
    → let (out, k', result) = sys_get_key c k in
      ((out, contents buff_size k'.keys) ≡ dequeue (contents buff_size k.keys))
      × (result ≡ answer out)
unfolding sys_get_key read_from_buffer
sys_get_key-dequeue c k ok v = rw ok (
    let g = give_key_lem (read buff_size k.keys) k in
    (
      ap (λ o. (o, contents buff_size (give_key (read buff_size k.keys) k).1.keys)) g.0
          ∙ ap (λ r. ((read buff_size k.keys).0, contents buff_size r)) g.1
          ∙ read-dequeue buff_size v,
      g.2 ∙ ap answer (sym g.0),
    ))
