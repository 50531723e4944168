-- ===== src/Sys/Io.antt =====
-- The system calls of zeos/sys.c on the console, the keyboard and the statistics.
pub mod Write
pub mod Keys
use soa_subject.Prelude.{
  ℕ, zero, suc, ◌+◌, ◌-◌, ◌*◌, ◌/◌, ◌%◌, ◌^◌, ◌≤◌, ◌<◌, ◌≡◌, ◌≢◌, refl, sym, ap, ◌∙◌, Bool, true,
  false, not, ltb, leb, ◌||◌, ◌&&◌, ◌==◌, if◌then◌else◌, neg32, is_neg, Option, none, some, update,
  arith, Bool-cases,
}
use soa_subject.Config.{
  total_pages, first_free_page, buff_size, nr_tasks, esrch, ebadf, eacces, efault, einval,
}
use soa_subject.Mm.{get_frame}
use soa_subject.Console.{Console, dump_matrix, sys_write_console}
use soa_subject.Ring.{Ring, read}
use soa_subject.Access.{access_ok, verify_read, verify_write, copy_data}
use soa_subject.Stats.{Stats}
use soa_subject.Kernel.{Kernel, Outcome, returned, get_pt, with_task}

-- `ESCRIPTURA`
abbrev pub escriptura : ℕ
escriptura = 1

unfoldable pub check_fd : (fd permissions : ℕ) → ℕ
check_fd fd permissions =
    if not (fd == 1)
    then neg32 ebadf
    else if not (permissions == escriptura)
    then neg32 eacces
    else 0

-- `TAM_BUFFER`
abbrev pub tam_buffer : ℕ
tam_buffer = 512

-- The loop of `sys_write`: the bytes of `buffer` from `at` on, through `localbuffer`, with the
-- rounds left; the result is the final `bytes_left`.
unfoldable pub write_chunks :
    (rounds at bytes_left : ℕ) → (buffer localbuffer : ℕ → ℕ) → Console → ℕ × Console
write_chunks zero at bytes_left buffer localbuffer c = (bytes_left, c)
write_chunks (suc rounds) at bytes_left buffer localbuffer c =
    let whole = copy_data tam_buffer (λ i. buffer (at + i)) localbuffer in
    let (ret, d) = sys_write_console whole tam_buffer c in
    let rest = write_chunks rounds (at + ret) (bytes_left - ret) buffer whole d in
    let part = copy_data bytes_left (λ i. buffer (at + i)) localbuffer in
    let (ret', e) = sys_write_console part bytes_left c in
    if ltb tam_buffer bytes_left
    then rest
    else if ltb 0 bytes_left
    then (bytes_left - ret', e)
    else (0, c)

-- `bytes` are the user's bytes from the address `buffer` on; `localbuffer` starts with whatever the
-- stack holds, here zeros.
unfoldable pub sys_write : (fd buffer nbytes : ℕ) → (bytes : ℕ → ℕ) → Kernel → Kernel × Outcome
unfolding check_fd write_chunks
sys_write fd buffer nbytes bytes k =
    let ret = check_fd fd escriptura in
    if not (ret == 0)
    then (k, returned ret)
    else if is_neg nbytes
    then (k, returned (neg32 einval))
    else if not (access_ok verify_read buffer nbytes)
    then (k, returned (neg32 efault))
    else (let (bytes_left, c) = write_chunks (nbytes + 1) 0 nbytes bytes (λ _. 0) k.console in
        (record k { console = c }, returned (nbytes - bytes_left)))

-- The matrix is read through the tables of the current task: `cells` are the shorts at `address`.
unfoldable pub sys_dump_screen : (address : ℕ) → (cells : ℕ → ℕ) → Kernel → Kernel × Outcome
sys_dump_screen address cells k =
    let lid = address / 2 ^ 12 in
    if ltb lid first_free_page || leb total_pages lid
    then (k, returned (neg32 eacces))
    else if get_frame (get_pt k.current k) lid k.mm == 0
    then (k, returned (neg32 eacces))
    else (record k { console = dump_matrix cells k.console }, returned 0)

-- `read_from_buffer` of zeos/io.c, as the key if there is one.
unfoldable pub read_from_buffer : Ring → Option ℕ × Ring
unfolding read
read_from_buffer r = read buff_size r

-- What `sys_get_key` makes of the outcome of `read_from_buffer`.
unfoldable pub give_key : Option ℕ × Ring → Kernel → Option ℕ × Kernel × Outcome
give_key (none, r) k = (none, record k { keys = r }, returned (neg32 1))
give_key (some key, r) k = (some key, record k { keys = r }, returned 0)

-- What `sys_get_key` stores at `c`, if anything, with its result; a pointer has 4 bytes.
unfoldable pub sys_get_key : (c : ℕ) → Kernel → Option ℕ × Kernel × Outcome
unfolding read_from_buffer give_key
sys_get_key c k =
    if not (access_ok verify_write c 4)
    then (none, k, returned (neg32 efault))
    else give_key (read_from_buffer k.keys) k

-- The loop of `sys_get_stats`: the first slot from `i` on with the pid.
unfoldable pub find_pid : (rounds i pid : ℕ) → Kernel → Option ℕ
find_pid zero i pid k = none
find_pid (suc rounds) i pid k =
    let rest = find_pid rounds (i + 1) pid k in if (k.tasks i).pid == pid then some i else rest

unfoldable pub stats_of : Option ℕ → Kernel → Option Stats × Kernel × Outcome
stats_of none k = (none, k, returned (neg32 esrch))
stats_of (some i) k =
    let remaining = λ (s : Stats). record s { remaining_ticks = k.remaining_quantum } in
    (
      some (remaining (k.tasks i).p_stats),
      with_task i (λ t. record t { p_stats = remaining t.p_stats }) k,
      returned 0,
    )

-- What `sys_get_stats` stores at `st`, if anything, with its result; `struct stats` has 28 bytes.
unfoldable pub sys_get_stats : (pid st : ℕ) → Kernel → Option Stats × Kernel × Outcome
unfolding find_pid stats_of
sys_get_stats pid st k =
    if not (access_ok verify_write st 28)
    then (none, k, returned (neg32 efault))
    else if is_neg pid
    then (none, k, returned (neg32 einval))
    else stats_of (find_pid nr_tasks 0 pid k) k
