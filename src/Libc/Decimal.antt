-- ===== src/Libc/Decimal.antt =====
-- The text that `itoa` and `perror` of zeos/libc.c write.
use soa_subject.Prelude.{
  ℕ, zero, suc, ◌+◌, ◌-◌, ◌*◌, ◌/◌, ◌%◌, ◌^◌, ◌≤◌, ◌<◌, ◌≡◌, ◌≢◌, refl, sym, ap, ap₂, ◌∙◌, ◌⊎◌,
  subst, ltb, leb, ◌&&◌, ◌==◌, some, update, for_range, arith, Bool-cases, inl, inr,
}
use soa_subject.Libc.{Bytes, Digits, put_digits, swap_digits, itoa, strlen, strlen_from, perror}
use soa_subject.Libc.Rounds.{upper, upper-suc, Written, put_digits-Written, Reversed, reversed_lem}

-- The number that `n` characters from `p` on stand for, behind the digits `acc`.
pub parse : (n p acc : ℕ) → Bytes → ℕ
parse zero p acc m = acc
parse (suc n) p acc m = parse n (p + 1) (acc * 10 + (m p - b'0')) m

-- The text of `n` characters at `b` that stands for `a`.
pub record IsDecimal (a b n : ℕ) (before m : Bytes) : Type 0 where
  pub value : parse n b 0 m ≡ a
  pub digits : (k : ℕ) → (n ≤ k) ⊎ ((b'0' ≤ m (b + k)) × (m (b + k) ≤ b'9'))
  pub terminated : m (b + n) ≡ 0
  pub first : (n ≡ 1) ⊎ (m b ≢ b'0')
  pub room : n ≤ 10
  pub outside : (p : ℕ) → ((b ≤ p) × (p ≤ b + n)) ⊎ (m p ≡ before p)

-- The digits of `a`, the highest at `b`.
abbrev Spelled : (a b n : ℕ) (m : Bytes) → Type 0
Spelled a b n m = (k : ℕ) → k < n → m (b + k) ≡ upper (n - k - 1) a % 10 + b'0'

parse-upper :
    (a b n : ℕ) (m : Bytes)
    → Spelled a b n m
    → (j : ℕ) → j ≤ n
    → parse j (b + (n - j)) (upper j a) m ≡ a
unfolding parse
parse-upper a b n m s zero le = unfold upper in refl
parse-upper a b n m s (suc j) le =
    ap₂ (λ p acc. parse j p acc m) (let e : b + (n - suc j) + 1 ≡ b + (n - j) = omega arith in e)
      (let e : upper (suc j) a * 10 + (m (b + (n - suc j)) - b'0') ≡ upper j a = omega (
        arith,
        upper-suc j a,
        s (n - suc j) (omega arith),
        ap (λ i. upper i a) (let e : n - (n - suc j) - 1 ≡ j = omega arith in e),
      ) in
        e)
    ∙ parse-upper a b n m s j (omega arith)

-- Eleven digits are more than an `int` has.
upper_ten : (a : ℕ) → a < 2 ^ 31 → upper 10 a ≡ 0
unfolding upper
upper_ten a h = omega arith

module _ (a b n : ℕ) (before : Bytes) (h : a < 2 ^ 31) (pos : 0 < a) (d : Digits)
    (w : Written a 0 b n before d) where
  reversed : Bytes
  reversed = for_range (d.count / 2) 0 (λ i1 m. swap_digits d.count b i1 m) d.bytes

  result : Bytes
  unfolding reversed
  result = update reversed (b + d.count) 0

  count_lem : d.count ≡ n
  count_lem = omega (arith, w.counted)

  some_digit : 0 < n
  unfolding upper
  some_digit = elim (Bool-cases (n == 0)) [
    | inl t ↦
        let e : upper n a ≡ upper 0 a =
          ap (λ i. upper i a) (let z : n ≡ 0 = ground (arith, t) in z) in
        absurd (omega (arith, w.done, e))
    | inr t ↦ ground (arith, t)
  ]

  Spelled_lem : Spelled a b n result
  unfolding result reversed Reversed
  Spelled_lem k lt =
      let r = reversed_lem d.count b d.bytes in
      let place : b + (n - k - 1) ≡ b + (0 + (n - k - 1)) = omega arith in
      ground (arith, count_lem, r.0 k)
      ∙ ap d.bytes (ap (λ c. b + (c - k - 1)) count_lem ∙ place)
      ∙ w.digit (n - k - 1) (omega arith)

  reversed_bytes : Reversed d.count b d.bytes (d.count / 2) reversed
  unfolding reversed
  reversed_bytes = reversed_lem d.count b d.bytes

  first_lem : result b ≢ b'0'
  first_lem =
      let e : upper n a ≡ upper (n - 0 - 1) a / 10 =
        ap (λ i. upper i a) (let p : n ≡ suc (n - 0 - 1) = omega (arith, some_digit) in p)
        ∙ upper-suc (n - 0 - 1) a in
      let f : result b ≡ result (b + 0) = ap result (omega arith) in
      omega (
        arith,
        e,
        f,
        w.done,
        Spelled_lem 0 some_digit,
        w.top (n - 0 - 1) (omega (arith, some_digit)),
      )

  room_lem : n ≤ 10
  room_lem = elim (Bool-cases (leb n 10)) [
    | inl t ↦ ground (arith, t)
    | inr t ↦ absurd (w.top 10 (ground (arith, t)) (upper_ten a h))
  ]

  result-IsDecimal : IsDecimal a b n before result
  unfolding result Reversed
  result-IsDecimal = record {
    value =
        ap₂ (λ p acc. parse n p acc result) (let e : b ≡ b + (n - n) = omega arith in e)
          (sym w.done)
        ∙ parse-upper a b n result Spelled_lem n (omega arith);
    digits = λ k. elim (Bool-cases (leb n k)) [
      | inl t ↦ inl (ground (arith, t))
      | inr t ↦ inr (let lt : k < n = ground (arith, t) in omega (arith, Spelled_lem k lt))
    ];
    terminated = ground (arith, count_lem);
    first = inr first_lem;
    room = room_lem;
    outside = λ p. elim (Bool-cases (ltb p b)) [
      | inl t ↦
          let lt : p < b = ground (arith, t) in
          let same = reversed_bytes.1 p lt in
          inr (ground (arith, same, count_lem, w.below p (omega arith)))
      | inr t ↦ elim (Bool-cases (leb p (b + n))) [
        | inl u ↦ inl (ground arith)
        | inr u ↦
            let le : b + n + 1 ≤ p = ground (arith, u) in
            let same = reversed_bytes.2 p (omega (arith, count_lem)) in
            inr (ground (arith, same, count_lem, w.above p (omega arith)))
      ]
    ];
  }

zero-IsDecimal : (b : ℕ) (m : Bytes) → IsDecimal 0 b 1 m (update (update m b b'0') (b + 1) 0)
unfolding parse
zero-IsDecimal b m = record {
  value = ground arith;
  digits = zero_digits;
  terminated = ground arith;
  first = inl refl;
  room = omega arith;
  outside = λ p. elim (Bool-cases (leb b p && leb p (b + 1))) [
    | inl t ↦ inl (ground (arith, t))
    | inr t ↦ inr (ground (arith, t))
  ];
}
  where
    zero_digits :
        (k : ℕ)
        → (1 ≤ k)
          ⊎ ((b'0' ≤ update (update m b b'0') (b + 1) 0 (b + k))
              × (update (update m b b'0') (b + 1) 0 (b + k) ≤ b'9'))
    zero_digits zero = inr (ground arith)
    zero_digits (suc k) = inl (omega arith)

itoa-IsDecimal : (a b : ℕ) (m : Bytes) → a < 2 ^ 31 → (n : ℕ) × IsDecimal a b n m (itoa a b m)
unfolding itoa result reversed
itoa-IsDecimal a b m h = elim (Bool-cases (a == 0)) [
  | inl t ↦
      let e : 0 ≡ a = ground (arith, t) in
      rw t (
        1,
        subst (λ k. IsDecimal k b 1 m (update (update m b b'0') (b + 1) 0)) e (zero-IsDecimal b m),
      )
  | inr t ↦
      let (n, w) = put_digits-Written a a 0 b m (omega arith) in
      rw t (n, result-IsDecimal a b n m h (ground (arith, t)) (put_digits a a 0 b m) w)
]

strlen_from-digits :
    (k n a : ℕ) (m : Bytes) (fuel i : ℕ)
    → ((j : ℕ) → j < n → m (a + j) ≢ 0)
    → m (a + n) ≡ 0
    → i + k ≡ n
    → k < fuel
    → strlen_from fuel a i m ≡ some n
unfolding strlen_from
strlen_from-digits k n a m zero i d z e lt = absurd (omega arith)
strlen_from-digits zero n a m (suc fuel) i d z e lt =
    let at : m (a + i) ≡ 0 = ap (λ j. m (a + j)) (let f : i ≡ n = omega arith in f) ∙ z in
    let same : i ≡ n = omega arith in ground arith
strlen_from-digits (suc k) n a m (suc fuel) i d z e lt =
    let at = d i (omega arith) in
    ground (arith, strlen_from-digits k n a m fuel (i + 1) d z (omega arith) (omega arith))

strlen-itoa :
    (a b n fuel : ℕ) (m m' : Bytes) → IsDecimal a b n m m' → 10 < fuel → strlen fuel b m' ≡ some n
unfolding strlen
strlen-itoa a b n fuel m m' d lt =
    strlen_from-digits n n b m' fuel 0 (λ j l. ground (arith, d.digits j)) d.terminated
      (omega arith) (omega (arith, d.room))

-- For an error number that is not negative, `perror` writes a text of `n` digits, at most ten, with
-- the end behind it into its buffer, changes no other byte, and gives `write` the length `n`; the
-- digits, read as a decimal number, are the error number, with no zero before them.
pub perror-IsDecimal :
    (errno buffer : ℕ) (m : Bytes)
    → errno < 2 ^ 31
    → (n : ℕ) × IsDecimal errno buffer n m (perror errno buffer m).1
      × ((perror errno buffer m).0 ≡ some n)
unfolding perror
perror-IsDecimal errno buffer m h =
    let (n, d) = itoa-IsDecimal errno buffer m h in
    (n, d, strlen-itoa errno buffer n 256 m (itoa errno buffer m) d (omega arith))
