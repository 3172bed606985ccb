-- ===== src/Transfer.antt =====
-- What a client driver calls for both channels of its device: `mhi_prepare_for_transfer`,
-- `mhi_unprepare_from_transfer` and `mhi_get_free_desc_count` of drivers/bus/mhi/core/main.c.
pub mod Both
use mhi_for_quectel_modem.Base.{ℕ, Option, none, some}
use mhi_for_quectel_modem.Ring.{get_nr_avail_ring_elements}
use mhi_for_quectel_modem.Ctrl.{
  Ctrl, Chan, Code, ok, err, Direction, to_device_dir, from_device_dir,
}
use mhi_for_quectel_modem.Queue.{Dma}
use mhi_for_quectel_modem.Channel.{Memory, Await, prepare_channel, unprepare_channel}

-- The channels of `struct mhi_device`: to the device and from it.
pub record Pair : Type 0 where
  pub ul_chan : Option Chan
  pub dl_chan : Option Chan

-- A call on a channel, where there is one.
abbrev pub prepare : Memory → Dma → Await → Ctrl → Option Chan → Option (Ctrl × Option Chan × Code)
prepare mem dma await c none = some (c, none, ok)
prepare mem dma await c (some ch) = elim (prepare_channel mem dma await c ch) [
  | none ↦ none
  | some (c', ch', ret) ↦ some (c', some ch', ret)
]

abbrev pub unprepare : Await → Ctrl → Option Chan → Option (Ctrl × Option Chan)
unprepare await c none = some (c, none)
unprepare await c (some ch) = elim (unprepare_channel await c ch) [
  | none ↦ none
  | some (c', ch') ↦ some (c', some ch')
]

-- `mhi_prepare_for_transfer`: the two rounds of its loop, and of the loop at `error_open_chan`, which undoes the rounds before
-- the one that failed. `none` is a channel that cannot be released.
unfoldable pub prepare_for_transfer :
    Memory → Dma → Await → Ctrl → Pair → Option (Ctrl × Pair × Code)
prepare_for_transfer mem dma await c p = elim (prepare mem dma await c p.ul_chan) [
  | none ↦ none
  | some (c₁, ul, ret) ↦ elim ret [
    | err e ↦ some (c₁, record p { ul_chan = ul }, err e)
    | ok ↦ elim (prepare mem dma await c₁ p.dl_chan) [
      | none ↦ none
      | some (c₂, dl, ret₂) ↦ elim ret₂ [
        | ok ↦ some (c₂, record { ul_chan = ul; dl_chan = dl }, ok)
        | err e ↦ elim (unprepare await c₂ ul) [
          | none ↦ none
          | some (c₃, ul') ↦ some (c₃, record { ul_chan = ul'; dl_chan = dl }, err e)
        ]
      ]
    ]
  ]
]

-- `mhi_unprepare_from_transfer`
unfoldable pub unprepare_from_transfer : Await → Ctrl → Pair → Option (Ctrl × Pair)
unprepare_from_transfer await c p = elim (unprepare await c p.dl_chan) [
  | none ↦ none
  | some (c₁, dl) ↦ elim (unprepare await c₁ p.ul_chan) [
    | none ↦ none
    | some (c₂, ul) ↦ some (c₂, record { ul_chan = ul; dl_chan = dl })
  ]
]

-- `mhi_get_free_desc_count`, which takes the channel to be there.
unfoldable pub get_free_desc_count : Chan → Chan → Direction → ℕ
get_free_desc_count ul_chan dl_chan to_device_dir = get_nr_avail_ring_elements ul_chan.tre_ring
get_free_desc_count ul_chan dl_chan from_device_dir = get_nr_avail_ring_elements dl_chan.tre_ring
