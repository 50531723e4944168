-- ===== src/Config.antt =====
-- The constants of zeos/include (mm_address.h, mm.h, sched.h, io.h, errno.h, utils.h) and sys.c.
use soa_subject.Prelude.{ℕ, ◌+◌, ◌/◌, ◌^◌}

abbrev pub total_pages : ℕ
total_pages = 1024

abbrev pub num_pag_kernel : ℕ
num_pag_kernel = 256

abbrev pub num_pag_code : ℕ
num_pag_code = 8

abbrev pub num_pag_data : ℕ
num_pag_data = 20

abbrev pub page_size : ℕ
page_size = 0x1000

abbrev pub kernel_start : ℕ
kernel_start = 0x10000

abbrev pub ph_user_start : ℕ
ph_user_start = 0x100000

abbrev pub l_user_start : ℕ
l_user_start = 0x100000

abbrev pub pag_log_init_code : ℕ
pag_log_init_code = l_user_start / 2 ^ 12

abbrev pub pag_log_init_data : ℕ
pag_log_init_data = pag_log_init_code + num_pag_code

abbrev pub user_first_page : ℕ
user_first_page = l_user_start / 2 ^ 12

-- The first logical page behind the user's code and data, where `alloc_k` starts.
abbrev pub first_free_page : ℕ
first_free_page = num_pag_kernel + num_pag_code + num_pag_data

abbrev pub free_frame_mark : ℕ
free_frame_mark = 0

abbrev pub used_frame_mark : ℕ
used_frame_mark = 1

abbrev pub nr_tasks : ℕ
nr_tasks = 10

abbrev pub default_quantum : ℕ
default_quantum = 10

abbrev pub max_sem : ℕ
max_sem = 8

abbrev pub num_columns : ℕ
num_columns = 80

abbrev pub num_rows : ℕ
num_rows = 25

abbrev pub buff_size : ℕ
buff_size = 32

abbrev pub esrch : ℕ
esrch = 3

abbrev pub ebadf : ℕ
ebadf = 9

abbrev pub eagain : ℕ
eagain = 11

abbrev pub enomem : ℕ
enomem = 12

abbrev pub eacces : ℕ
eacces = 13

abbrev pub efault : ℕ
efault = 14

abbrev pub einval : ℕ
einval = 22

abbrev pub enosys : ℕ
enosys = 38
