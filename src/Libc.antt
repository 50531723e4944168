-- ===== src/Libc.antt =====
-- The functions of zeos/libc.c that compute: `itoa`, `strlen`, `perror` and `stos`. A `char *` is an
-- address in a memory of bytes.
pub mod Rounds
pub mod Decimal
use soa_subject.Prelude.{
  ℕ, zero, suc, ◌+◌, ◌-◌, ◌*◌, ◌/◌, ◌%◌, ◌^◌, ltb, ◌==◌, if◌then◌else◌, Option, none, some, update,
  for_range,
}

abbrev pub Bytes : Type 0
Bytes = ℕ → ℕ

-- What the first loop of `itoa` leaves: the number of digits and the memory.
pub record Digits : Type 0 where
  pub count : ℕ
  pub bytes : Bytes

-- The loop that writes the digits, the lowest first, with fuel.
unfoldable pub put_digits : (fuel : ℕ) → (a i b : ℕ) → Bytes → Digits
put_digits zero a i b m = record { count = i; bytes = m }
put_digits (suc fuel) a i b m =
    let rest = put_digits fuel (a / 10) (i + 1) b (update m (b + i) (a % 10 + b'0')) in
    if ltb 0 a then rest else record { count = i; bytes = m }

-- The body of the loop that reverses them.
unfoldable pub swap_digits : (i b i1 : ℕ) → Bytes → Bytes
swap_digits i b i1 m =
    let c = m (b + i1) in
    let m1 = update m (b + i1) (m (b + (i - i1 - 1))) in update m1 (b + (i - i1 - 1)) c

-- `itoa(a, b)` of an `a` that is not negative, which is fuel enough.
unfoldable pub itoa : (a b : ℕ) → Bytes → Bytes
itoa a b m =
    let d = put_digits a a 0 b m in
    let reversed = for_range (d.count / 2) 0 (λ i1 m. swap_digits d.count b i1 m) d.bytes in
    let zero_text = update (update m b b'0') (b + 1) 0 in
    if a == 0 then zero_text else update reversed (b + d.count) 0

-- `strlen` from index `i` on, with fuel.
unfoldable pub strlen_from : (fuel a i : ℕ) → Bytes → Option ℕ
strlen_from zero a i m = none
strlen_from (suc fuel) a i m =
    let rest = strlen_from fuel a (i + 1) m in if m (a + i) == 0 then some i else rest

unfoldable pub strlen : (fuel a : ℕ) → Bytes → Option ℕ
strlen fuel a m = strlen_from fuel a 0 m

-- `stos`: a `char` from 128 on is negative, and its sign fills the upper byte.
unfoldable pub stos : (ch color : ℕ) → ℕ
stos ch color = if ltb ch 128 then color % 256 * 2 ^ 8 + ch else 0xFF00 + ch % 256

-- What `perror` gives to `write(1, buffer, strlen(buffer))`: the length of the text, and the memory
-- with the text. The array has 256 bytes.
unfoldable pub perror : (errno buffer : ℕ) → Bytes → Option ℕ × Bytes
unfolding itoa strlen
perror errno buffer m = let m' = itoa errno buffer m in (strlen 256 buffer m', m')

-- `twrap`, where every thread starts: the function on its argument, and then the end of the thread.
unfoldable pub twrap {ℓ} :
    {S : Type ℓ} → (terminatethread : S → S) → (function : ℕ → S → S) → (param : ℕ) → S → S
twrap terminatethread function param s = terminatethread (function param s)
