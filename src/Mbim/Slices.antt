-- ===== src/Mbim/Slices.antt =====
-- Every packet that `cdc_mbim_rx_fixup` of drivers/bus/mhi/mhi_net_mbim.c delivers is a part of the
-- block.
use mhi_for_quectel_modem.Base.{
  ℕ, zero, suc, ◌+◌, ◌-◌, ◌*◌, ◌/◌, ◌≤◌, ◌<◌, Bool, ◌||◌, ltb, ◌==◌, none, some, List, [], ◌∷◌,
  ◌++◌, length, get_elem?, take, drop, All, Option-cases, Bool-cases, ◌≡◌, inl, inr, refl, arith,
}
use mathlib.Core.Path.{subst}
use mhi_for_quectel_modem.Mbim.{
  Signs, MbimCtx, Packet, Frames, next, error, overread, Tables, delivered, faulted, running, get16,
  get32, nth16_size, dpe16_size, ndp16_size, protocol_of, frame, frames, table, tables,
  is_session_0, rx_fixup,
}

-- A part of the block that is not empty and not longer than `rx_max`, whose first byte says which
-- protocol it has.
abbrev pub IsSlice : ℕ → List ℕ → Packet → Type 0
IsSlice rx_max block p =
    (offset : ℕ) × ((len : ℕ) × ((byte : ℕ) × ((p.bytes ≡ take len (drop offset block))
          × (0 < len)
          × (offset + len ≤ length block)
          × (len ≤ rx_max)
          × (get_elem? block offset ≡ some byte)
          × (protocol_of byte ≡ some p.protocol))))

abbrev Sliced : ℕ → List ℕ → Frames → Type 0
Sliced rx_max block (next chain) = All (IsSlice rx_max block) chain
Sliced rx_max block (error chain) = All (IsSlice rx_max block) chain
Sliced rx_max block overread = Unit {0}

abbrev pub Delivers : ℕ → List ℕ → Tables → Type 0
Delivers rx_max block (delivered chain) = All (IsSlice rx_max block) chain
Delivers rx_max block faulted = Unit {0}
Delivers rx_max block running = Unit {0}

All-snoc {ℓ κ} :
    {A : Type ℓ} (P : A → Type κ) (xs : List A) (x : A) → All P xs → P x → All P (xs ++ (x ∷ []))
All-snoc P [] x h p = (p, tt)
All-snoc P (y ∷ ys) x h p = (h.0, All-snoc P ys x h.1 p)

module _ (signs : Signs) (alloc : List Packet → ℕ → Bool) (rx_max : ℕ) (block : List ℕ) where
  frame-Sliced :
      (offset len : ℕ) (chain : List Packet)
      → 0 < len
      → All (IsSlice rx_max block) chain
      → Sliced rx_max block (frame signs alloc rx_max block offset len chain)
  unfolding frame
  frame-Sliced offset len chain pos h =
      elim (Bool-cases (ltb (length block) (offset + len) || ltb rx_max len)) [
        | inl bad ↦ rw bad h
        | inr fits ↦ elim (Bool-cases (alloc chain len)) [
          | inr no_memory ↦ rw (fits, no_memory) h
          | inl memory ↦ elim (Option-cases (get_elem? block offset)) [
            | inl e ↦ rw (fits, memory, e) tt
            | inr (byte, e) ↦ elim (Option-cases (protocol_of byte)) [
              | inl e₁ ↦ rw (fits, memory, e, e₁) h
              | inr (p, e₁) ↦
                  rw (fits, memory, e, e₁)
                    (All-snoc (IsSlice rx_max block) chain
                      (record { protocol = p; bytes = take len (drop offset block) }) h
                      (
                        offset,
                        (
                          len,
                          (byte, (refl, pos, ground (arith, fits), ground (arith, fits), e, e₁)),
                        ),
                      ))
            ]
          ]
        ]
      ]

  -- What is left of the loop after a datagram.
  rest :
      (left at : ℕ) (r : Frames)
      → Sliced rx_max block r
      → ((c : List Packet)
          → All (IsSlice rx_max block) c
          → Sliced rx_max block (frames signs alloc rx_max block left (at + dpe16_size) c))
      → Sliced rx_max block (elim r [
        | next c ↦ frames signs alloc rx_max block left (at + dpe16_size) c
        | error c ↦ error c
        | overread ↦ overread
      ])
  rest left at (next c) h k = k c h
  rest left at (error c) h k = h
  rest left at overread h k = tt

  frames-Sliced :
      (left at : ℕ) (chain : List Packet)
      → All (IsSlice rx_max block) chain
      → Sliced rx_max block (frames signs alloc rx_max block left at chain)
  unfolding frames
  frames-Sliced zero at chain h = h
  frames-Sliced (suc left) at chain h = elim (Option-cases (get16 block at)) [
    | inl e ↦ rw (e, frames) tt
    | inr (offset, e) ↦ elim (Option-cases (get16 block (at + 2))) [
      | inl e₁ ↦ rw (e, e₁, frames) tt
      | inr (len, e₁) ↦ elim (Bool-cases ((offset == 0) || (len == 0))) [
        | inl last ↦ rw (e, e₁, last, frames) h
        | inr more ↦
            rw (e, e₁, more, frames)
              (rest left at (frame signs alloc rx_max block offset len chain)
                (frame-Sliced offset len chain (ground (arith, more)) h)
                (λ c k. frames-Sliced left (at + dpe16_size) c k))
      ]
    ]
  ]

  table-Sliced :
      (at : ℕ) (chain : List Packet)
      → All (IsSlice rx_max block) chain
      → Sliced rx_max block (table signs alloc rx_max block at chain)
  unfolding table
  table-Sliced at chain h = elim (Bool-cases (ltb (length block) (at + ndp16_size))) [
    | inl short ↦ rw (short, table) h
    | inr fits ↦ elim (Option-cases (get16 block (at + 4))) [
      | inl e ↦ rw (fits, e, table) tt
      | inr (len, e) ↦
          let nframes = (len - ndp16_size) / dpe16_size in
          elim (Bool-cases
            (ltb len 0x10 || ltb (length block) (ndp16_size + nframes * dpe16_size))) [
              | inl bad ↦ rw (fits, e, bad, table) h
              | inr good ↦ elim (Option-cases (get32 block at)) [
                | inl e₁ ↦ rw (fits, e, good, e₁, table) tt
                | inr (sign, e₁) ↦ elim (Bool-cases (is_session_0 signs alloc rx_max block sign)) [
                  | inl e₂ ↦
                      rw (fits, e, good, e₁, e₂, table)
                        (frames-Sliced nframes (at + ndp16_size) chain h)
                  | inr e₂ ↦ rw (fits, e, good, e₁, e₂, table) h
                ]
              ]
            ]
    ]
  ]

  -- What is left of the loop after a table.
  after_table :
      (fuel at : ℕ) (r : Frames)
      → Sliced rx_max block r
      → ((n : ℕ) (c : List Packet)
          → All (IsSlice rx_max block) c
          → Delivers rx_max block (tables signs alloc rx_max block fuel n c))
      → Delivers rx_max block (elim r [
        | error c ↦ delivered c
        | overread ↦ faulted
        | next c ↦ elim (get16 block (suc at + 6)) [
          | none ↦ faulted
          | some n ↦ tables signs alloc rx_max block fuel n c
        ]
      ])
  after_table fuel at (error c) h k = h
  after_table fuel at overread h k = tt
  after_table fuel at (next c) h k = elim (Option-cases (get16 block (suc at + 6))) [
    | inl e ↦ rw e tt
    | inr (n, e) ↦ rw e (k n c h)
  ]

  tables-Delivers :
      (fuel at : ℕ) (chain : List Packet)
      → All (IsSlice rx_max block) chain
      → Delivers rx_max block (tables signs alloc rx_max block fuel at chain)
  unfolding tables
  tables-Delivers fuel zero chain h = h
  tables-Delivers zero (suc at) chain h = tt
  tables-Delivers (suc fuel) (suc at) chain h =
      after_table fuel at (table signs alloc rx_max block (suc at) chain)
        (table-Sliced (suc at) chain h) (λ n c k. tables-Delivers fuel n c k)

-- How the checks of the header end.
pub data Checked (signs : Signs) (alloc : List Packet → ℕ → Bool) (fuel : ℕ) (ctx : MbimCtx)
    (block : List ℕ) (t : Tables) : Type 0 where
  dropped : t ≡ delivered [] → Checked signs alloc fuel ctx block t
  short : t ≡ faulted → Checked signs alloc fuel ctx block t
  passed :
      (at : ℕ)
      → t ≡ tables signs alloc ctx.rx_max block fuel at []
      → Checked signs alloc fuel ctx block t

pub rx_fixup-Checked :
    (signs : Signs) (alloc : List Packet → ℕ → Bool) (fuel : ℕ) (ctx : MbimCtx) (block : List ℕ)
    → Checked signs alloc fuel ctx block (rx_fixup signs alloc fuel ctx block).1
unfolding rx_fixup
rx_fixup-Checked signs alloc fuel ctx block =
    elim (Bool-cases (ltb (length block) (nth16_size + ndp16_size))) [
      | inl b ↦ dropped (ground (arith, b))
      | inr b ↦ elim (Option-cases (get32 block 0)) [
        | inl e ↦ short (ground (arith, b, e))
        | inr (sign, e) ↦ elim (Bool-cases (sign == signs.nth16)) [
          | inr b₁ ↦ dropped (ground (arith, b, e, b₁))
          | inl b₁ ↦ elim (Option-cases (get16 block 8)) [
            | inl e₁ ↦ short (ground (arith, b, e, b₁, e₁))
            | inr (len, e₁) ↦ elim (Bool-cases (ltb ctx.rx_max len)) [
              | inl b₂ ↦ dropped (ground (arith, b, e, b₁, e₁, b₂))
              | inr b₂ ↦ elim (Option-cases (get16 block 6)) [
                | inl e₂ ↦ short (ground (arith, b, e, b₁, e₁, b₂, e₂))
                | inr (sequence, e₂) ↦ elim (Option-cases (get16 block 10)) [
                  | inl e₃ ↦ short (ground (arith, b, e, b₁, e₁, b₂, e₂, e₃))
                  | inr (at, e₃) ↦ passed at (ground (arith, b, e, b₁, e₁, b₂, e₂, e₃))
                ]
              ]
            ]
          ]
        ]
      ]
    ]

-- Where `cdc_mbim_rx_fixup` ends without a read past the end of the block, also if an error ended the
-- loop early, every packet that it delivers is a part of the block that the device sent: it lies within
-- the block, is not empty and not longer than `rx_max`, and has the protocol that its first byte names.
pub rx_fixup-IsSlice :
    (signs : Signs) (alloc : List Packet → ℕ → Bool) (fuel : ℕ) (ctx : MbimCtx) (block : List ℕ)
    (packets : List Packet)
    → (rx_fixup signs alloc fuel ctx block).1 ≡ delivered packets
    → All (IsSlice ctx.rx_max block) packets
rx_fixup-IsSlice signs alloc fuel ctx block packets h =
    subst (Delivers ctx.rx_max block) h (elim (rx_fixup-Checked signs alloc fuel ctx block) [
      | dropped e ↦ rw e tt
      | short e ↦ rw e tt
      | passed at e ↦ rw e (tables-Delivers signs alloc ctx.rx_max block fuel at [] tt)
    ])
