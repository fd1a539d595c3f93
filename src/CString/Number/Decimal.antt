-- ===== src/CString/Number/Decimal.antt =====
-- What `%d` prints is read back by `atoi` and by `scanf`.
use auto_test_tools.Base.{
  ℕ, zero, suc, ◌+◌, ◌*◌, ◌/◌, ◌%◌, ◌^◌, ◌≡◌, ◌≤◌, ◌<◌, refl, true, false, [], ◌∷◌, ◌++◌, some,
  arith, ltb, lt→ltb, ◌∙◌, ap, Bool-cases, inl, inr, ◌==◌,
}
use auto_test_tools.Base.Int.{ℤ, pos}
use auto_test_tools.CString.Compare.{Bytes}
use auto_test_tools.CString.Number.{
  is_digit, is_space, digits_value, as_int, signed_value, atoi, begins_with_digit, after_digits,
  scan_int, decimal_on, decimal,
}

-- The last digit of a number is a digit.
last-is_digit : (n : ℕ) → is_digit (n % 10 + b'0') ≡ true
last-is_digit n = ground arith

digits_value-digit :
    (a n : ℕ) (acc : Bytes)
    → digits_value a ((n % 10 + b'0') ∷ acc) ≡ digits_value (10 * a + n % 10) acc
unfolding digits_value
digits_value-digit a n acc = rw (last-is_digit n) (ap (λ v. digits_value v acc) (omega arith))

digits_value-decimal_on :
    (f n : ℕ) (acc : Bytes) → n ≤ f → digits_value 0 (decimal_on (suc f) n acc) ≡ digits_value n acc
unfolding decimal_on
digits_value-decimal_on zero n acc h =
    let small : ltb n 10 ≡ true = ground arith in
    rw small (digits_value-digit 0 n acc ∙ ap (λ v. digits_value v acc) (omega arith))
digits_value-decimal_on (suc f) n acc h = elim (Bool-cases (ltb n 10)) [
  | inl small ↦ rw small (digits_value-digit 0 n acc ∙ ap (λ v. digits_value v acc) (ground arith))
  | inr big ↦ rw big (
      digits_value-decimal_on f (n / 10) ((n % 10 + b'0') ∷ acc) (ground arith)
      ∙ digits_value-digit (n / 10) n acc
      ∙ ap (λ v. digits_value v acc) (omega arith))
]

after_digits-decimal_on :
    (f n : ℕ) (acc : Bytes) → after_digits (decimal_on f n acc) ≡ after_digits acc
unfolding decimal_on after_digits
after_digits-decimal_on zero n acc = refl
after_digits-decimal_on (suc f) n acc = elim (Bool-cases (ltb n 10)) [
  | inl small ↦ rw small (rw (last-is_digit n))
  | inr big ↦
      rw big
        (rw (after_digits-decimal_on f (n / 10) ((n % 10 + b'0') ∷ acc)) (rw (last-is_digit n)))
]

begins_with_digit-decimal_on :
    (f n : ℕ) (acc : Bytes)
    → begins_with_digit acc ≡ true
    → begins_with_digit (decimal_on f n acc) ≡ true
unfolding decimal_on
begins_with_digit-decimal_on zero n acc h = h
begins_with_digit-decimal_on (suc f) n acc h = elim (Bool-cases (ltb n 10)) [
  | inl small ↦ rw small (last-is_digit n)
  | inr big ↦
      rw big (begins_with_digit-decimal_on f (n / 10) ((n % 10 + b'0') ∷ acc) (last-is_digit n))
]

decimal_on-append : (f n : ℕ) (acc r : Bytes) → decimal_on f n acc ++ r ≡ decimal_on f n (acc ++ r)
unfolding decimal_on
decimal_on-append zero n acc r = refl
decimal_on-append (suc f) n acc r = elim (Bool-cases (ltb n 10)) [
  | inl small ↦ rw small
  | inr big ↦ rw big (decimal_on-append f (n / 10) ((n % 10 + b'0') ∷ acc) r)
]

digits_value-end : (n : ℕ) (r : Bytes) → begins_with_digit r ≡ false → digits_value n r ≡ n
unfolding digits_value
digits_value-end n [] h = refl
digits_value-end n (c ∷ r) h = rw h

after_digits-end : (r : Bytes) → begins_with_digit r ≡ false → after_digits r ≡ r
unfolding after_digits
after_digits-end [] h = refl
after_digits-end (c ∷ r) h = rw h

-- What `%d` prints, with a text behind it that goes on with no digit.
module _ (n : ℕ) (r : Bytes) (ends : begins_with_digit r ≡ false) where
  digits_value-decimal : digits_value 0 (decimal n ++ r) ≡ n
  unfolding decimal
  digits_value-decimal =
      rw (decimal_on-append (suc n) n [] r)
        (digits_value-decimal_on n n r (omega arith) ∙ digits_value-end n r ends)

  after_digits-decimal : after_digits (decimal n ++ r) ≡ r
  unfolding decimal
  after_digits-decimal =
      rw (decimal_on-append (suc n) n [] r)
        (after_digits-decimal_on (suc n) n r ∙ after_digits-end r ends)

  begins_with_digit-decimal : begins_with_digit (decimal n ++ r) ≡ true
  unfolding decimal decimal_on
  begins_with_digit-decimal = rw (decimal_on-append (suc n) n [] r) (elim (Bool-cases (ltb n 10)) [
    | inl small ↦ rw small (last-is_digit n)
    | inr big ↦
        rw big (begins_with_digit-decimal_on n (n / 10) ((n % 10 + b'0') ∷ r) (last-is_digit n))
  ])

not_space : (c : ℕ) → is_digit c ≡ true → is_space c ≡ false
not_space c h = ground arith

as_int-small : (n : ℕ) → n < 2 ^ 31 → as_int false n ≡ some (pos n)
unfolding as_int
as_int-small n h = rw (lt→ltb n (2 ^ 31) h)

atoi-digits : (t : Bytes) → begins_with_digit t ≡ true → atoi t ≡ as_int false (digits_value 0 t)
unfolding atoi signed_value
atoi-digits [] h = cc
atoi-digits (c ∷ t) h =
    let minus : (c == b'-') ≡ false = ground arith in
    let plus : (c == b'+') ≡ false = ground arith in rw (not_space c h) (rw minus (rw plus))

scan_int-digits :
    (t : Bytes) (z : ℤ)
    → begins_with_digit t ≡ true
    → as_int false (digits_value 0 t) ≡ some z
    → scan_int t ≡ some (some z, after_digits t)
unfolding scan_int
scan_int-digits [] z h e = cc
scan_int-digits (c ∷ t) z h e = rw (not_space c h) (rw h (rw e (rw h refl)))

module _ (n : ℕ) (r : Bytes) (small : n < 2 ^ 31) (ends : begins_with_digit r ≡ false) where
  -- `atoi` gives back the number that `%d` prints, if the text goes on with no digit, for every number
  -- that an `int` holds and that is not negative.
  pub atoi-decimal : atoi (decimal n ++ r) ≡ some (pos n)
  atoi-decimal =
      atoi-digits (decimal n ++ r) (begins_with_digit-decimal n r ends)
      ∙ ap (as_int false) (digits_value-decimal n r ends)
      ∙ as_int-small n small

  pub scan_int-decimal : scan_int (decimal n ++ r) ≡ some (some (pos n), r)
  scan_int-decimal =
      scan_int-digits (decimal n ++ r) (pos n) (begins_with_digit-decimal n r ends)
        (ap (as_int false) (digits_value-decimal n r ends) ∙ as_int-small n small)
      ∙ ap (λ rest. some (some (pos n), rest)) (after_digits-decimal n r ends)
