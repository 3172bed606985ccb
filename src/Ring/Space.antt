-- ===== src/Ring/Space.antt =====
-- How much room a ring has, and when it is full.
use native.Mathlib.Nat.{mul-div_cancel, mul-sub}
use mhi_for_quectel_modem.Base.{
  ℕ, ◌+◌, ◌-◌, ◌*◌, ◌/◌, ◌^◌, ◌≤◌, ◌<◌, ◌≡◌, ◌∙◌, ◌≢◌, ◌↔◌, sym, true, false, ap, dec_lt, arith,
  leb, ◌==◌, if◌then◌else◌,
}
use mhi_for_quectel_modem.Ring.{
  Ring, get_nr_avail_ring_elements, is_ring_full, add_ring_element, del_ring_element,
}
use mhi_for_quectel_modem.Ring.Slots.{
  IsAt, PointsTo, next, gap, add_ring_element-IsAt, del_ring_element-IsAt,
}

-- The slots from the read pointer up to the write pointer, round the end.
abbrev pub used : ℕ → ℕ → ℕ → ℕ
used n i j = if leb i j then j - i else j + n - i

-- From one slot to a later one.
slots_between : (a b e : ℕ) → a ≤ b → 0 < e → (b * e - a * e) / e ≡ b - a
slots_between a b e h p = ap (λ t. t / e) diff ∙ mul-div_cancel (b - a) p
  where
    diff : b * e - a * e ≡ (b - a) * e
    diff = omega (arith, mul-sub e b a)

-- For a ring of at most 2 ^ 31 slots, `get_nr_avail_ring_elements` counts the slots that are not in
-- use, less the one that is always kept free.
pub nr_avail-eq :
    {r : Ring} {n i j : ℕ}
    → IsAt r n i j
    → n ≤ 2 ^ 31
    → get_nr_avail_ring_elements r ≡ n - 1 - used n i j
unfolding get_nr_avail_ring_elements
nr_avail-eq {r} {n} {i} {j} v small = elim (dec_lt j i) [
  | yes wrapped ↦ ground (arith, slots_between j i r.el_size, gap j i r.el_size wrapped)
  | no straight ↦
      ground
        (arith, slots_between i j r.el_size, mul-div_cancel i v.sized, slots_between j n r.el_size)
]

-- Two pointers to slots of one ring are equal exactly when the slots are.
pub same_slot :
    (r : Ring) (a b p q : ℕ) → 0 < r.el_size → PointsTo r p a → PointsTo r q b → (p == q) ≡ (a == b)
same_slot r a b p q e hp hq = ground (arith, gap a b r.el_size, gap b a r.el_size)

-- `mhi_is_ring_full` holds exactly when the write pointer's next slot is the read pointer's.
pub full-eq : {r : Ring} {n i j : ℕ} → IsAt r n i j → is_ring_full r ≡ (next n j == i)
unfolding is_ring_full add_ring_element
full-eq {r} {n} {i} {j} v =
    same_slot r (next n j) i _ r.rp v.sized (add_ring_element-IsAt v).writes v.reads

-- For a ring of at most 2 ^ 31 slots, the two tests of room that the queueing functions use agree:
-- `mhi_is_ring_full` holds exactly when `get_nr_avail_ring_elements` is 0.
pub is_ring_full_iff :
    {r : Ring} {n i j : ℕ}
    → IsAt r n i j
    → n ≤ 2 ^ 31
    → (is_ring_full r ≡ true) ↔ (get_nr_avail_ring_elements r ≡ 0)
is_ring_full_iff {n = n} {i = i} {j = j} v small =
    rw (full-eq v, nr_avail-eq v small)
      (λ e. ground (arith, v.rp_in, v.wp_in), λ e. ground (arith, v.rp_in, v.wp_in))

-- In a ring of at most 2 ^ 31 slots that is not full, adding an element takes one place.
pub nr_avail-add :
    {r : Ring} {n i j : ℕ}
    → IsAt r n i j
    → n ≤ 2 ^ 31
    → is_ring_full r ≡ false
    → get_nr_avail_ring_elements (add_ring_element r) + 1 ≡ get_nr_avail_ring_elements r
nr_avail-add {r} {n} {i} {j} v small room = ground (
  arith,
  full-eq v,
  nr_avail-eq v small,
  nr_avail-eq (add_ring_element-IsAt v) small,
  v.rp_in,
  v.wp_in,
)

-- In a ring of at most 2 ^ 31 slots that is not empty, removing an element gives one place back.
pub nr_avail-del :
    {r : Ring} {n i j : ℕ}
    → IsAt r n i j
    → n ≤ 2 ^ 31
    → r.rp ≢ r.wp
    → get_nr_avail_ring_elements (del_ring_element r) ≡ get_nr_avail_ring_elements r + 1
nr_avail-del {r} {n} {i} {j} v small busy = ground (
  arith,
  distinct,
  nr_avail-eq v small,
  nr_avail-eq (del_ring_element-IsAt v) small,
  v.rp_in,
  v.wp_in,
)
  where
    distinct : i ≢ j
    distinct e = busy (v.reads ∙ ap (λ k. r.base + k * r.el_size) e ∙ sym v.writes)
