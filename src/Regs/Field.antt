-- ===== src/Regs/Field.antt =====
-- The read-modify-write of a register field (drivers/bus/mhi/core/main.c), for a field of any width
-- at any shift.
use mathlib.Core.Path.{ap₂}
use native.Mathlib.Nat.{one-le-pow, suc-mul, mod-eq_of_lt}
use mhi_for_quectel_modem.Base.{
  ℕ, zero, suc, ◌+◌, ◌-◌, ◌*◌, ◌/◌, ◌^◌, ◌≤◌, ◌<◌, bit_and, ◌≡◌, sym, ap, ◌∙◌, some, ◌∷◌, arith,
}
use mhi_for_quectel_modem.Base.Word.{
  u32, shl, pow-add, bit_and-zero, bit_or-zero, zero-bit_or, bit_and_low, bit_and_concat,
  bit_or_concat,
}
use mhi_for_quectel_modem.Regs.{
  Log, Device, read, write, field, put_field, not32, read_reg_field, write_reg_field,
}

-- The mask of a field of `w` bits at bit `s`.
abbrev pub field_mask : ℕ → ℕ → ℕ
field_mask w s = (2 ^ w - 1) * 2 ^ s

-- The bits outside a field, for `s + w + r ≡ 32`.
two_pow_32 : (s w r : ℕ) → s + w + r ≡ 32 → 2 ^ r * (2 ^ w * 2 ^ s) ≡ 2 ^ 32
two_pow_32 s w r e =
    let q : r + (w + s) ≡ 32 = omega arith in
    ap (λ t. 2 ^ r * t) (sym (pow-add 2 w s)) ∙ sym (pow-add 2 r (w + s)) ∙ ap (λ t. 2 ^ t) q

mul-pred : (a b : ℕ) → 1 ≤ a → a * b ≡ (a - 1) * b + b
mul-pred zero b h = absurd (omega arith)
mul-pred (suc a) b h = suc-mul a b ∙ ap (λ t. t * b + b) (omega arith)

-- The three parts of a mask's complement, from the powers alone.
complement :
    (p q t : ℕ)
    → 1 ≤ p
    → 1 ≤ q
    → 1 ≤ t
    → t * (q * p) - 1 - (q - 1) * p ≡ ((t - 1) * q + 0) * p + (p - 1)
complement p q t hp hq ht = omega (arith, mul-pred q p hq, mul-pred t (q * p) ht)

below : (p q t v : ℕ) → v < q → 1 ≤ p → 1 ≤ t → v * p < t * (q * p)
below p q t v hv hp ht = grind arith

pred-lt : (k : ℕ) → 2 ^ k - 1 < 2 ^ k
pred-lt k = omega (arith, one-le-pow k 2 (omega arith))

mul-div_self : (m s : ℕ) → m * 2 ^ s / 2 ^ s ≡ m
mul-div_self m s = let pos : 1 ≤ 2 ^ s = one-le-pow s 2 (omega arith) in grind arith

-- Equal high parts and equal low parts.
parts : (p : ℕ) {a a' b b' : ℕ} → a ≡ a' → b ≡ b' → a * p + b ≡ a' * p + b'
parts p e f = ap₂ (λ x y. x * p + y) e f

module _ (s w r : ℕ) (fits : s + w + r ≡ 32) (h l : ℕ) (hh : h < 2 ^ r) (hl : l < 2 ^ s) where
  -- A register whose bits are `h` above the field, `x` in it and `l` below it.
  abbrev pub packed : ℕ → ℕ
  packed x = (h * 2 ^ w + x) * 2 ^ s + l

  not-mask : not32 (field_mask w s) ≡ ((2 ^ r - 1) * 2 ^ w + 0) * 2 ^ s + (2 ^ s - 1)
  not-mask = omega (
    arith,
    two_pow_32 s w r fits,
    complement (2 ^ s) (2 ^ w) (2 ^ r) (one-le-pow s 2 (omega arith)) (one-le-pow w 2 (omega arith))
        (one-le-pow r 2 (omega arith)),
  )

  cleared : (m : ℕ) → m < 2 ^ w → bit_and (packed m) (not32 (field_mask w s)) ≡ packed 0
  cleared m hm = rw not-mask (
      bit_and_concat s (h * 2 ^ w + m) l ((2 ^ r - 1) * 2 ^ w + 0) (2 ^ s - 1) hl (pred-lt s)
      ∙ parts (2 ^ s)
          (bit_and_concat w h m (2 ^ r - 1) 0 hm (one-le-pow w 2 (omega arith))
            ∙ parts (2 ^ w) (bit_and_low r h ∙ mod-eq_of_lt hh) (bit_and-zero m))
          (bit_and_low s l ∙ mod-eq_of_lt hl))

  small : (v : ℕ) → v < 2 ^ w → v * 2 ^ s < 2 ^ 32
  small v hv = omega (
    arith,
    two_pow_32 s w r fits,
    below (2 ^ s) (2 ^ w) (2 ^ r) v hv (one-le-pow s 2 (omega arith))
        (one-le-pow r 2 (omega arith)),
  )

  shifted : (v : ℕ) → v < 2 ^ w → u32 (shl v s) ≡ (0 * 2 ^ w + v) * 2 ^ s + 0
  shifted v hv = omega (arith, mod-eq_of_lt (small v hv))

  pub put_field-packed :
      (m v : ℕ) → m < 2 ^ w → v < 2 ^ w → put_field (packed m) (field_mask w s) s v ≡ packed v
  put_field-packed m v hm hv =
      rw (cleared m hm, shifted v hv)
        (bit_or_concat s (h * 2 ^ w + 0) l (0 * 2 ^ w + v) 0 hl (one-le-pow s 2 (omega arith))
          ∙ parts (2 ^ s)
              (bit_or_concat w h 0 0 v (one-le-pow w 2 (omega arith)) hv
                ∙ parts (2 ^ w) (bit_or-zero h) (zero-bit_or v))
              (bit_or-zero l))

  masked : (m : ℕ) → m < 2 ^ w → bit_and (packed m) (field_mask w s) ≡ (0 * 2 ^ w + m) * 2 ^ s + 0
  masked m hm = rw mask_parts (
      bit_and_concat s (h * 2 ^ w + m) l (0 * 2 ^ w + (2 ^ w - 1)) 0 hl
        (one-le-pow s 2 (omega arith))
      ∙ parts (2 ^ s)
          (bit_and_concat w h m 0 (2 ^ w - 1) hm (pred-lt w)
            ∙ parts (2 ^ w) (bit_and-zero h) (bit_and_low w m ∙ mod-eq_of_lt hm))
          (bit_and-zero l))
    where
      mask_parts : field_mask w s ≡ (0 * 2 ^ w + (2 ^ w - 1)) * 2 ^ s + 0
      mask_parts = omega arith

  pub field-packed : (m : ℕ) → m < 2 ^ w → field (packed m) (field_mask w s) s ≡ m
  field-packed m hm = rw (masked m hm) (ap (λ t. t / 2 ^ s) (omega arith) ∙ mul-div_self m s)

  -- Writing a field that lies in 32 bits, with a value that fits, of a register that reads back
  -- what was last written to it, is one read and one write, leaves the bits above and below the
  -- field as they were, and the field reads back as the value written.
  pub write_reg_field-read :
      (dev : Device) (log : Log) (addr m v : ℕ)
      → m < 2 ^ w
      → v < 2 ^ w
      → dev log addr ≡ some (packed m)
      → ((x : ℕ) (log' : Log) → dev (write addr x ∷ log') addr ≡ some x)
      → let log' = write_reg_field dev log addr (field_mask w s) s v in
        (log' ≡ write addr (packed v) ∷ read addr ∷ log)
        × ((read_reg_field dev log' addr (field_mask w s) s).1 ≡ some v)
  unfolding write_reg_field read_reg_field
  write_reg_field-read dev log addr m v hm hv now stores =
      ground
        (arith, put_field-packed m v hm hv, field-packed v hv, stores (packed v) (read addr ∷ log))
