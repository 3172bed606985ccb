-- ===== src/Transfer/Both.antt =====
-- `mhi_prepare_for_transfer` starts both channels of a device or none.
use mhi_for_quectel_modem.Base.{
  Option, some-injective, none, some, ◌≡◌, ◌≢◌, ◌⊎◌, inl, inr, Option-cases, refl, arith,
}
use mathlib.Core.Path.{subst}
use mhi_for_quectel_modem.Ctrl.{Ctrl, Chan, Code, ok, err, enabled, disabled}
use mhi_for_quectel_modem.Queue.{Dma}
use mhi_for_quectel_modem.Channel.{Memory, Await, prepare_channel, unprepare_channel}
use mhi_for_quectel_modem.Channel.Outcome.{
  KeepsState, prepare_channel-Outcome, unprepare_channel-off,
}
use mhi_for_quectel_modem.Transfer.{Pair, prepare, unprepare, prepare_for_transfer}

-- A channel that is there is on, or is off.
abbrev pub IsOn : Option Chan → Type 0
IsOn none = Unit
IsOn (some ch) = ch.ch_state ≡ enabled

abbrev pub IsOff : Option Chan → Type 0
IsOff none = Unit
IsOff (some ch) = ch.ch_state ≡ disabled

-- What a call of `prepare` left, by what it returned.
abbrev IsDone : Ctrl × Option Chan × Code → Type 0
IsDone s = ((s.2 ≡ ok) × IsOn s.1) ⊎ ((s.2 ≢ ok) × IsOff s.1)

-- What `mhi_prepare_for_transfer` left: both channels on, or an error and the first off; the second
-- is off then too, if it was tried.
abbrev pub IsAllOrNone : Pair → Ctrl × Pair × Code → Type 0
IsAllOrNone p (c, p', ret) =
    ((ret ≡ ok) × IsOn p'.ul_chan × IsOn p'.dl_chan)
    ⊎ ((ret ≢ ok) × IsOff p'.ul_chan × IsOff p'.dl_chan)

module _ (mem : Memory) (dma : Dma) (await : Await) (keeps : KeepsState await) where
  prepare-IsDone :
      (c : Ctrl) (o : Option Chan) (s : Ctrl × Option Chan × Code)
      → IsOff o
      → prepare mem dma await c o ≡ some s
      → IsDone s
  prepare-IsDone c none s off h = subst IsDone (some-injective (c, none, ok) s h) (inl (refl, tt))
  prepare-IsDone c (some ch) s off h = elim (Option-cases (prepare_channel mem dma await c ch)) [
    | inl e ↦ absurd (ground (arith, e, h))
    | inr (t, e) ↦
        subst IsDone (some-injective (t.0, some t.1, t.2) s (ground (arith, e, h)))
          (prepare_channel-Outcome mem dma await c ch t keeps off e)
  ]

  unprepare-IsOff :
      (c : Ctrl) (o : Option Chan) (s : Ctrl × Option Chan)
      → unprepare await c o ≡ some s
      → IsOff s.1
  unprepare-IsOff c none s h =
      subst (λ (t : Ctrl × Option Chan). IsOff t.1) (some-injective (c, none) s h) tt
  unprepare-IsOff c (some ch) s h = elim (Option-cases (unprepare_channel await c ch)) [
    | inl e ↦ absurd (ground (arith, e, h))
    | inr (t, e) ↦
        subst (λ (t : Ctrl × Option Chan). IsOff t.1)
          (some-injective (t.0, some t.1) s (ground (arith, e, h)))
          (unprepare_channel-off await c ch t keeps e)
  ]

  -- If both channels of a client's device, as far as there are any, are off, and the wait for the device turns none on or
  -- off, then after `mhi_prepare_for_transfer`, where it ends, they are both on if it returned 0, and both off if it
  -- returned an error.
  pub prepare_for_transfer_lem :
      (c : Ctrl) (p : Pair) (s : Ctrl × Pair × Code)
      → IsOff p.ul_chan
      → IsOff p.dl_chan
      → prepare_for_transfer mem dma await c p ≡ some s
      → IsAllOrNone p s
  unfolding prepare_for_transfer
  prepare_for_transfer_lem c p s ul_off dl_off h =
      elim (Option-cases (prepare mem dma await c p.ul_chan)) [
        | inl e ↦ absurd (ground (arith, e, h))
        | inr ((c₁, ul, err x), e) ↦ elim (prepare-IsDone c p.ul_chan (c₁, ul, err x) ul_off e) [
          | inl (bad, _) ↦ absurd (ground (arith, bad))
          | inr (failed, off) ↦
              subst (IsAllOrNone p)
                (some-injective (c₁, record p { ul_chan = ul }, err x) s (ground (arith, e, h)))
                (inr (failed, off, dl_off))
        ]
        | inr ((c₁, ul, ok), e) ↦ elim (prepare-IsDone c p.ul_chan (c₁, ul, ok) ul_off e) [
          | inr (bad, _) ↦ absurd (bad refl)
          | inl (_, on) ↦ elim (Option-cases (prepare mem dma await c₁ p.dl_chan)) [
            | inl e₂ ↦ absurd (ground (arith, e, e₂, h))
            | inr ((c₂, dl, ok), e₂) ↦ elim (prepare-IsDone c₁ p.dl_chan (c₂, dl, ok) dl_off e₂) [
              | inr (bad, _) ↦ absurd (bad refl)
              | inl (_, on₂) ↦
                  subst (IsAllOrNone p)
                    (some-injective (c₂, record { ul_chan = ul; dl_chan = dl }, ok) s
                      (ground (arith, e, e₂, h)))
                    (inl (refl, on, on₂))
            ]
            | inr ((c₂, dl, err x), e₂) ↦
                elim (prepare-IsDone c₁ p.dl_chan (c₂, dl, err x) dl_off e₂) [
                  | inl (bad, _) ↦ absurd (ground (arith, bad))
                  | inr (failed, off₂) ↦ elim (Option-cases (unprepare await c₂ ul)) [
                    | inl e₃ ↦ absurd (ground (arith, e, e₂, e₃, h))
                    | inr ((c₃, ul'), e₃) ↦
                        subst (IsAllOrNone p)
                          (some-injective (c₃, record { ul_chan = ul'; dl_chan = dl }, err x) s
                            (ground (arith, e, e₂, e₃, h)))
                          (inr (failed, unprepare-IsOff c₂ ul (c₃, ul') e₃, off₂))
                  ]
                ]
          ]
        ]
      ]
