-- ===== src/Links.antt =====
-- zeos/list.c and the macros of zeos/include/list.h.
pub mod Chain
pub mod Remove
pub mod Queues
pub mod Heads
use soa_subject.Prelude.{ℕ, Bool, update, ◌==◌}

-- `struct list_head` at each address: its two pointers.
pub record Links : Type 0 where
  pub next : ℕ → ℕ
  pub prev : ℕ → ℕ

abbrev pub null : ℕ
null = 0

-- Assignments through a pointer.
abbrev pub set_next : ℕ → ℕ → Links → Links
set_next a b h = record h { next = update h.next a b }

abbrev pub set_prev : ℕ → ℕ → Links → Links
set_prev a b h = record h { prev = update h.prev a b }

unfoldable pub init_list_head : ℕ → Links → Links
init_list_head list h = set_prev list list (set_next list list h)

-- `__list_add`
unfoldable pub list_add_between : (new prev next : ℕ) → Links → Links
list_add_between new prev next h =
    set_next prev new (set_prev new prev (set_next new next (set_prev next new h)))

unfoldable pub list_add : (new head : ℕ) → Links → Links
unfolding list_add_between
list_add new head h = list_add_between new head (h.next head) h

unfoldable pub list_add_tail : (new head : ℕ) → Links → Links
unfolding list_add_between
list_add_tail new head h = list_add_between new (h.prev head) head h

-- `__list_del`
unfoldable pub list_del_between : (prev next : ℕ) → Links → Links
list_del_between prev next h = set_next prev next (set_prev next prev h)

unfoldable pub list_del : ℕ → Links → Links
unfolding list_del_between
list_del entry h =
    set_prev entry null (set_next entry null (list_del_between (h.prev entry) (h.next entry) h))

unfoldable pub list_is_last : (list head : ℕ) → Links → Bool
list_is_last list head h = h.next list == head

unfoldable pub list_empty : ℕ → Links → Bool
list_empty head h = h.next head == head

unfoldable pub list_first : ℕ → Links → ℕ
list_first head h = h.next head
