-- ===== src/MacAddress/Digits.antt =====
-- The digits of a MAC address: what its text is without colons, and how digits are read and written.
use fnc.Prelude.{
  ℕ, ◌+◌, ◌-◌, ◌*◌, ◌/◌, ◌%◌, ◌^◌, ◌<◌, ◌≡◌, ap, ◌∙◌, arith, Bool, true, false, ◌&&◌, [], ◌∷◌, map,
}
use fnc.Prelude.{length, All, Text, leb, ◌==◌, if◌then◌else◌}
use fnc.MacAddress.{strtoul, to_string, hex_digit, is_xdigit, digit_value}
use fnc.MacAddress.Bytes.{IsByte, big_endian}
use fnc.MacAddress.Print.{high, low, hex_digit_lem, spelled, to_string-spelled}

abbrev pub remove : ℕ → Text → Text
remove c [] = []
remove c (x ∷ s) = let rest = remove c s in if x == c then rest else x ∷ rest

abbrev pub all_xdigit : Text → Bool
all_xdigit [] = true
all_xdigit (c ∷ s) = is_xdigit c && all_xdigit s

-- A capital for a small letter.
abbrev pub to_upper : ℕ → ℕ
to_upper c = if leb b'a' c && leb c b'f' then c - 32 else c

xdigit_lem :
    (c : ℕ) → is_xdigit c ≡ true → (digit_value c < 16) × (hex_digit (digit_value c) ≡ to_upper c)
unfolding is_xdigit digit_value hex_digit
xdigit_lem c h = ground arith

hex_digit-eq-colon : (d : ℕ) → d < 16 → (hex_digit d == b':') ≡ false
unfolding hex_digit
hex_digit-eq-colon d h = ground arith

-- The twelve digits of six bytes.
abbrev twelve : ℕ → ℕ → ℕ → ℕ → ℕ → ℕ → Text
twelve a b c d e f =
    high a
    ∷ low a
    ∷ high b
    ∷ low b
    ∷ high c
    ∷ low c
    ∷ high d
    ∷ low d
    ∷ high e
    ∷ low e
    ∷ high f
    ∷ low f
    ∷ []

remove-pair :
    (a : ℕ) (s : Text)
    → IsByte a
    → remove b':' (high a ∷ low a ∷ s) ≡ high a ∷ low a ∷ remove b':' s
remove-pair a s h =
    rw (hex_digit-eq-colon (a / 16) (omega arith), hex_digit-eq-colon (a % 16) (omega arith))

remove-pair_colon :
    (a : ℕ) (s : Text)
    → IsByte a
    → remove b':' (high a ∷ low a ∷ b':' ∷ s) ≡ high a ∷ low a ∷ remove b':' s
remove-pair_colon a s h = remove-pair a (b':' ∷ s) h

pub remove-spelled :
    (a b c d e f : ℕ)
    → IsByte a × IsByte b × IsByte c × IsByte d × IsByte e × IsByte f
    → remove b':' (spelled a b c d e f) ≡ twelve a b c d e f
remove-spelled a b c d e f (ha, hb, hc, hd, he, hf) =
    rw
      (
        remove-pair_colon a _ ha,
        remove-pair_colon b _ hb,
        remove-pair_colon c _ hc,
        remove-pair_colon d _ hd,
      )
      (rw (remove-pair_colon e _ he, remove-pair f _ hf))

-- Twelve digits are read as the number that they write.
strtoul_twelve :
    (a b c d e f g h i j k l : ℕ)
    → All (λ x. digit_value x < 16) (a ∷ b ∷ c ∷ d ∷ e ∷ f ∷ g ∷ h ∷ i ∷ j ∷ k ∷ l ∷ [])
    → strtoul (a ∷ b ∷ c ∷ d ∷ e ∷ f ∷ g ∷ h ∷ i ∷ j ∷ k ∷ l ∷ [])
      ≡ big_endian
          (digit_value a * 16 + digit_value b)
          (digit_value c * 16 + digit_value d)
          (digit_value e * 16 + digit_value f)
          (digit_value g * 16 + digit_value h)
          (digit_value i * 16 + digit_value j)
          (digit_value k * 16 + digit_value l)
unfolding strtoul
strtoul_twelve a b c d e f g h i j k l small = ground arith

-- The digits of an address that was read.
digits_of_IsByte :
    (x y : ℕ)
    → is_xdigit x ≡ true
    → is_xdigit y ≡ true
    → let v = digit_value x * 16 + digit_value y in
      IsByte v × (high v ≡ to_upper x) × (low v ≡ to_upper y)
digits_of_IsByte x y hx hy =
    let (a, p) = xdigit_lem x hx in
    let (b, q) = xdigit_lem y hy in
    let h : (digit_value x * 16 + digit_value y) / 16 ≡ digit_value x = omega arith in
    let l : (digit_value x * 16 + digit_value y) % 16 ≡ digit_value y = omega arith in
    (omega arith, ap hex_digit h ∙ p, ap hex_digit l ∙ q)

-- An address of bytes is taken apart into them again.
to_string-big_endian :
    (a b c d e f : ℕ)
    → IsByte a × IsByte b × IsByte c × IsByte d × IsByte e × IsByte f
    → to_string (record { address = big_endian a b c d e f }) ≡ spelled a b c d e f
to_string-big_endian a b c d e f h =
    let n = big_endian a b c d e f in
    let e0 : n / 2 ^ 40 % 256 ≡ a = omega arith in
    let e1 : n / 2 ^ 32 % 256 ≡ b = omega arith in
    let e2 : n / 2 ^ 24 % 256 ≡ c = omega arith in
    let e3 : n / 2 ^ 16 % 256 ≡ d = omega arith in
    let e4 : n / 2 ^ 8 % 256 ≡ e = omega arith in
    let e5 : n % 256 ≡ f = omega arith in to_string-spelled _ ∙ rw (e0, e1, e2, e3, e4, e5)

-- A pair of digits in front, as a byte, and what follows.
take_pair :
    (x y : ℕ) (s : Text)
    → all_xdigit (x ∷ y ∷ s) ≡ true
    → let v = digit_value x * 16 + digit_value y in
      IsByte v
      × (high v ≡ to_upper x)
      × (low v ≡ to_upper y)
      × (digit_value x < 16)
      × (digit_value y < 16)
      × (all_xdigit s ≡ true)
take_pair x y s h =
    let hx : is_xdigit x ≡ true = ground arith in
    let hy : is_xdigit y ≡ true = ground arith in
    let (a, b, c) = digits_of_IsByte x y hx hy in
    (a, b, c, (xdigit_lem x hx).0, (xdigit_lem y hy).0, ground arith)

pub accept_digits :
    (mac : Text)
    → length mac ≡ 12
    → all_xdigit mac ≡ true
    → (strtoul mac < 2 ^ 48)
      × (remove b':' (to_string (record { address = strtoul mac })) ≡ map to_upper mac)
accept_digits (a ∷ b ∷ c ∷ d ∷ e ∷ f ∷ g ∷ h ∷ i ∷ j ∷ k ∷ l ∷ []) _ x0 =
    let (b0, h0, l0, u0, v0, x1) = take_pair a b (c ∷ d ∷ e ∷ f ∷ g ∷ h ∷ i ∷ j ∷ k ∷ l ∷ []) x0 in
    let (b1, h1, l1, u1, v1, x2) = take_pair c d (e ∷ f ∷ g ∷ h ∷ i ∷ j ∷ k ∷ l ∷ []) x1 in
    let (b2, h2, l2, u2, v2, x3) = take_pair e f (g ∷ h ∷ i ∷ j ∷ k ∷ l ∷ []) x2 in
    let (b3, h3, l3, u3, v3, x4) = take_pair g h (i ∷ j ∷ k ∷ l ∷ []) x3 in
    let (b4, h4, l4, u4, v4, x5) = take_pair i j (k ∷ l ∷ []) x4 in
    let (b5, h5, l5, u5, v5, _) = take_pair k l [] x5 in
    let read =
      strtoul_twelve a b c d e f g h i j k l
        (u0, (v0, (u1, (v1, (u2, (v2, (u3, (v3, (u4, (v4, (u5, (v5, tt)))))))))))) in
    rw read (
      omega arith,
      rw (
        to_string-big_endian _ _ _ _ _ _ (b0, b1, b2, b3, b4, b5),
        remove-spelled _ _ _ _ _ _ (b0, b1, b2, b3, b4, b5),
        h0,
        l0,
        h1,
        l1,
        h2,
        l2,
        h3,
        l3,
        h4,
        l4,
        h5,
        l5,
      ),
    )
accept_digits _ len x = absurd (omega arith)

-- A byte's two digits are hexadecimal, and read as the byte.
pair_lem :
    (a : ℕ)
    → IsByte a
    → (is_xdigit (high a) ≡ true)
      × (is_xdigit (low a) ≡ true)
      × (digit_value (high a) ≡ a / 16)
      × (digit_value (low a) ≡ a % 16)
pair_lem a h =
    let (p, q, _) = hex_digit_lem (a / 16) (omega arith) in
    let (r, s, _) = hex_digit_lem (a % 16) (omega arith) in (p, r, q, s)

pub read_twelve :
    (a b c d e f : ℕ)
    → IsByte a × IsByte b × IsByte c × IsByte d × IsByte e × IsByte f
    → (all_xdigit (twelve a b c d e f) ≡ true)
      × (strtoul (twelve a b c d e f) ≡ big_endian a b c d e f)
read_twelve a b c d e f (ha, hb, hc, hd, he, hf) =
    let (p0, q0, r0, s0) = pair_lem a ha in
    let (p1, q1, r1, s1) = pair_lem b hb in
    let (p2, q2, r2, s2) = pair_lem c hc in
    let (p3, q3, r3, s3) = pair_lem d hd in
    let (p4, q4, r4, s4) = pair_lem e he in
    let (p5, q5, r5, s5) = pair_lem f hf in
    (
      rw (p0, q0, p1, q1, p2, q2, p3, q3, p4, q4, p5, q5),
      strtoul_twelve _ _ _ _ _ _ _ _ _ _ _ _ (omega arith) ∙ omega arith,
    )
