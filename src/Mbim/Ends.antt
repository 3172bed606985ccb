-- ===== src/Mbim/Ends.antt =====
-- How the loop over the tables of a block ends in `cdc_mbim_rx_fixup` of
-- drivers/bus/mhi/mhi_net_mbim.c, and when it does not.
use mhi_for_quectel_modem.Base.{
  ℕ, zero, suc, ◌+◌, ◌%◌, ◌^◌, ◌≤◌, ◌<◌, Bool, true, not, ◌&&◌, ◌||◌, ltb, ◌==◌, none, some, List,
  [], ◌∷◌, length, get_elem?, Option-cases, Bool-cases, ◌≡◌, ◌≢◌, ◌⊎◌, inl, inr, refl, sym, ap, ◌∙◌,
  arith,
}
use mhi_for_quectel_modem.Mbim.{
  Signs, MbimCtx, Packet, Frames, next, error, overread, faulted, running, get16, get32, nth16_size,
  ndp16_size, frames, table, tables, is_session_0, rx_fixup,
}
use mhi_for_quectel_modem.Mbim.Slices.{dropped, short, passed, rx_fixup-Checked}

Frames-cases :
    (r : Frames)
    → ((c : List Packet) × (r ≡ next c)) ⊎ (((c : List Packet) × (r ≡ error c)) ⊎ (r ≡ overread))
Frames-cases (next c) = inl (c, refl)
Frames-cases (error c) = inr (inl (c, refl))
Frames-cases overread = inr (inr refl)

module _ (signs : Signs) (alloc : List Packet → ℕ → Bool) (rx_max : ℕ) (block : List ℕ) where
  -- The table at this place, if there is one for session 0, is the last, or the next one lies behind.
  abbrev pub leads_on : ℕ → Bool
  leads_on at = elim (get32 block at) [
    | none ↦ true
    | some sign ↦ elim (get16 block (at + 6)) [
      | none ↦ true
      | some n ↦ (n == 0) || ltb at n || not (is_session_0 signs alloc rx_max block sign)
    ]
  ]

  -- So it is throughout the block.
  abbrev pub forward_up_to : ℕ → Bool
  forward_up_to zero = true
  forward_up_to (suc at) = leads_on at && forward_up_to at

  abbrev pub is_forward : Bool
  is_forward = forward_up_to (length block)

  forward-leads_on : (at stop : ℕ) → forward_up_to stop ≡ true → at < stop → leads_on at ≡ true
  forward-leads_on at zero forward h = absurd (omega (arith, h))
  forward-leads_on at (suc stop) forward h =
      let here = forward-leads_on at stop in
      elim (Bool-cases (at == stop)) [
        | inl last ↦ ground (arith, last, forward, h)
        | inr other ↦ ground (arith, other, forward, h, here)
      ]

  table_within :
      (at : ℕ) (chain chain' : List Packet)
      → table signs alloc rx_max block at chain ≡ next chain'
      → at + ndp16_size ≤ length block
  unfolding table
  table_within at chain chain' h = ground (arith, h)

  table_next :
      (at n : ℕ) (chain chain' : List Packet)
      → is_forward ≡ true
      → table signs alloc rx_max block at chain ≡ next chain'
      → get16 block (at + 6) ≡ some n
      → (n ≡ 0) ⊎ (at < n)
  unfolding table
  table_next at n chain chain' forward h e =
      let within = table_within at chain chain' h in
      let leads = forward-leads_on at (length block) forward (omega (arith, within)) in
      elim (Option-cases (get32 block at)) [
        | inl e₁ ↦ absurd (ground (arith, h, e₁))
        | inr (sign, e₁) ↦ elim (Bool-cases (is_session_0 signs alloc rx_max block sign)) [
          | inr b ↦ absurd (ground (arith, h, e₁, b))
          | inl b ↦ elim (Bool-cases (n == 0)) [
            | inl last ↦ inl (ground (arith, last))
            | inr more ↦ inr (ground (arith, leads, e, e₁, b, more))
          ]
        ]
      ]

  tables-ends_zero :
      (fuel n : ℕ) (chain : List Packet)
      → n ≡ 0
      → tables signs alloc rx_max block fuel n chain ≢ running
  unfolding tables
  tables-ends_zero fuel zero chain h e = ground (arith, e)
  tables-ends_zero fuel (suc n) chain h e = absurd (omega arith)

  tables-ends :
      (fuel at : ℕ) (chain : List Packet)
      → is_forward ≡ true
      → 0 < fuel
      → length block < fuel + at
      → tables signs alloc rx_max block fuel at chain ≢ running
  unfolding tables
  tables-ends fuel zero chain forward pos enough e = ground (arith, e)
  tables-ends zero (suc at) chain forward pos enough e = absurd (omega arith)
  tables-ends (suc fuel) (suc at) chain forward pos enough e =
      elim (Frames-cases (table signs alloc rx_max block (suc at) chain)) [
        | inr (inl (c, t)) ↦ ground (arith, t, e)
        | inr (inr t) ↦ ground (arith, t, e)
        | inl (c, t) ↦ elim (Option-cases (get16 block (suc at + 6))) [
          | inl g ↦ ground (arith, t, g, e)
          | inr (n, g) ↦
              let within = table_within (suc at) chain c t in
              let e₁ : tables signs alloc rx_max block fuel n c ≡ running =
                ground (arith, t, g, e) in
              elim (table_next (suc at) n chain c forward t g) [
                | inl last ↦ tables-ends_zero fuel n c last e₁
                | inr ahead ↦
                    tables-ends fuel n c forward (omega (arith, within)) (omega (arith, ahead)) e₁
              ]
        ]
      ]

-- If no table of a block, at whatever place, is followed by itself or by one that lies before it, the loop over the tables
-- ends within one round more than the block has bytes.
pub rx_fixup-ends :
    (signs : Signs) (alloc : List Packet → ℕ → Bool) (ctx : MbimCtx) (block : List ℕ)
    → is_forward signs alloc ctx.rx_max block ≡ true
    → (rx_fixup signs alloc (length block + 1) ctx block).1 ≢ running
rx_fixup-ends signs alloc ctx block forward e =
    elim (rx_fixup-Checked signs alloc (length block + 1) ctx block) [
      | dropped e₁ ↦ ground (arith, e, e₁)
      | short e₁ ↦ ground (arith, e, e₁)
      | passed at e₁ ↦
          tables-ends signs alloc ctx.rx_max block (length block + 1) at [] forward (omega arith)
            (omega arith) (sym e₁ ∙ e)
    ]

-- A header that passes the checks, with the sequence number `seq` and its first table at `at`.
pub record IsHeader (signs : Signs) (ctx : MbimCtx) (block : List ℕ) (seq at : ℕ) : Type 0 where
  pub size : nth16_size + ndp16_size ≤ length block
  pub sign : get32 block 0 ≡ some signs.nth16
  pub len : ℕ
  pub block_length : get16 block 8 ≡ some len
  pub fits : len ≤ ctx.rx_max
  pub sequence : get16 block 6 ≡ some seq
  pub ndp : get16 block 10 ≡ some at

pub rx_fixup-tables :
    (signs : Signs) (alloc : List Packet → ℕ → Bool) (fuel : ℕ) (ctx : MbimCtx) (block : List ℕ)
    (seq at : ℕ)
    → IsHeader signs ctx block seq at
    → rx_fixup signs alloc fuel ctx block
      ≡ (record ctx { rx_seq = (seq + 1) % 2 ^ 16 }, tables signs alloc ctx.rx_max block fuel at [])
unfolding rx_fixup
rx_fixup-tables signs alloc fuel ctx block seq at h =
    ground (arith, h.size, h.sign, h.block_length, h.fits, h.sequence, h.ndp)

-- A table for session 0 that says that it has two entries.
pub record HasTable (signs : Signs) (block : List ℕ) (at : ℕ) : Type 0 where
  pub size : at + ndp16_size ≤ length block
  pub sign : ℕ
  pub signature : get32 block at ≡ some sign
  pub kind : sign ≡ signs.ips
  pub tag : sign < 2 ^ 24
  pub two : get16 block (at + 4) ≡ some 16

get_elem?-ge {ℓ} : {A : Type ℓ} (xs : List A) (i : ℕ) → length xs ≤ i → get_elem? xs i ≡ none
get_elem?-ge [] i h = refl
get_elem?-ge (x ∷ xs) zero h = absurd (omega arith)
get_elem?-ge (x ∷ xs) (suc i) h = get_elem?-ge xs i (omega arith)

module _ (signs : Signs) (alloc : List Packet → ℕ → Bool) (ctx : MbimCtx) (block : List ℕ)
    (seq at : ℕ) (header : IsHeader signs ctx block seq (suc at))
    (here : HasTable signs block (suc at)) where
  table-frames :
      (chain : List Packet)
      → 16 ≤ length block
      → table signs alloc ctx.rx_max block (suc at) chain
        ≡ frames signs alloc ctx.rx_max block 2 (suc at + ndp16_size) chain
  unfolding table
  table-frames chain h = ground (arith, here.size, here.signature, here.kind, here.tag, here.two, h)

  -- A first entry that is 0 ends the table, a table that ends the block is read too far.
  empty_table :
      (len : ℕ) (chain : List Packet)
      → get16 block (suc at + ndp16_size) ≡ some 0
      → get16 block (suc at + ndp16_size + 2) ≡ some len
      → frames signs alloc ctx.rx_max block 2 (suc at + ndp16_size) chain ≡ next chain
  unfolding frames
  empty_table len chain first second = ground (arith, first, second)

  cut_table :
      (chain : List Packet)
      → suc at + ndp16_size ≡ length block
      → frames signs alloc ctx.rx_max block 2 (suc at + ndp16_size) chain ≡ overread
  unfolding frames get16
  cut_table chain ends =
      ground (arith, get_elem?-ge block (suc at + ndp16_size) (omega (arith, ends)))

  tables-running :
      (fuel : ℕ) (chain : List Packet)
      → ((c : List Packet) → table signs alloc ctx.rx_max block (suc at) c ≡ next c)
      → get16 block (suc at + 6) ≡ some (suc at)
      → tables signs alloc ctx.rx_max block fuel (suc at) chain ≡ running
  unfolding tables
  tables-running zero chain step itself = refl
  tables-running (suc fuel) chain step itself =
      ground (arith, step chain, itself, tables-running fuel chain step itself)

  tables-faulted :
      (fuel : ℕ) (chain : List Packet)
      → table signs alloc ctx.rx_max block (suc at) chain ≡ overread
      → tables signs alloc ctx.rx_max block (suc fuel) (suc at) chain ≡ faulted
  unfolding tables
  tables-faulted fuel chain e = ground (arith, e)

  -- A block whose table, without entries, names itself as the next one: `cdc_mbim_rx_fixup` does not
  -- end, whatever the fuel.
  pub rx_fixup-runs_on :
      (len : ℕ)
      → get16 block (suc at + ndp16_size) ≡ some 0
      → get16 block (suc at + ndp16_size + 2) ≡ some len
      → get16 block (suc at + 6) ≡ some (suc at)
      → (fuel : ℕ) → (rx_fixup signs alloc fuel ctx block).1 ≡ running
  rx_fixup-runs_on len first second itself fuel =
      ap (λ r. r.1) (rx_fixup-tables signs alloc fuel ctx block seq (suc at) header)
      ∙ tables-running fuel []
          (λ c. table-frames c (omega (arith, header.size)) ∙ empty_table len c first second) itself

  -- A block that ends with the head of a table that says that it has entries: `cdc_mbim_rx_fixup`
  -- reads past the end of the block.
  pub rx_fixup-overread :
      (fuel : ℕ)
      → suc at + ndp16_size ≡ length block
      → (rx_fixup signs alloc (suc fuel) ctx block).1 ≡ faulted
  rx_fixup-overread fuel ends =
      ap (λ r. r.1) (rx_fixup-tables signs alloc (suc fuel) ctx block seq (suc at) header)
      ∙ tables-faulted fuel [] (table-frames [] (omega (arith, header.size)) ∙ cut_table [] ends)
