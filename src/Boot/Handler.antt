-- ===== src/Boot/Handler.antt =====
-- `mhi_fw_load_handler` of drivers/bus/mhi/core/boot.c, which the state worker runs on a device in a
-- boot loader.
use mhi_for_quectel_modem.Base.{
  ℕ, ◌+◌, ◌-◌, ◌*◌, min, Bool, true, false, not, ◌&&◌, ◌||◌, ◌==◌, if◌then◌else◌, Option, none,
  some, List, [], ◌∷◌, length, get_elem?,
}
use mhi_for_quectel_modem.Regs.{
  Log, Device, read_reg, alloc_coherent, free_coherent, get_firmware, release_firmware,
}
use mhi_for_quectel_modem.Pm.State.{in_error_state}
use mhi_for_quectel_modem.DevState
use mhi_for_quectel_modem.Ee
use mhi_for_quectel_modem.Ctrl.{Ctrl, Code, ok, err, act}
use mhi_for_quectel_modem.Wait.{Wait}
use mhi_for_quectel_modem.Power.Suspend.{until, waiting}
use mhi_for_quectel_modem.Transition.{ready_state_transition}
use mhi_for_quectel_modem.Channel.{Memory}
use mhi_for_quectel_modem.Boot.{
  ImageInfo, Region, Coherent, alloc_bhie_table, free_bhie_table, firmware_copy,
}
use mhi_for_quectel_modem.Boot.Load.{Random, fw_load_sbl, fw_load_amss}

-- The members of `struct mhi_controller` that only firmware loading uses, beside the controller. A
-- name of an image is a number, `none` a null pointer.
pub record Loader : Type 0 where
  pub ctrl : Ctrl
  pub serial_number : ℕ
  pub oem_pk_hash : List ℕ
  pub edl_image : Option ℕ
  pub fw_image : Option ℕ
  pub sbl_size : ℕ
  pub seg_len : ℕ
  pub fbc_image : Option ImageInfo

-- What the handler takes from the kernel: memory, random numbers, and `request_firmware`, which gives
-- the bytes of an image. `tx_status` is what an unassigned local holds.
pub record Services : Type 0 where
  pub coherent : Coherent
  pub memory : Memory
  pub random : Random
  pub request_firmware : Log → ℕ → Option (List ℕ)
  pub tx_status : ℕ

abbrev pub bhi_serialnu : ℕ
bhi_serialnu = 0x40

-- BHI_OEMPKHASH
abbrev pub bhi_oempkhash : ℕ → ℕ
bhi_oempkhash n = 0x64 + 4 * n

-- The hashes that can be read, up to the first that cannot.
unfoldable pub read_hashes : Device → ℕ → Log → ℕ → List ℕ → Log × List ℕ
unfolding read_reg
read_hashes dev base log i [] = (log, [])
read_hashes dev base log i (old ∷ olds) =
    let (log₁, out) = read_reg dev log (base + bhi_oempkhash i) in
    elim out [
      | none ↦ (log₁, old ∷ olds)
      | some val ↦ let (log₂, rest) = read_hashes dev base log₁ (i + 1) olds in (log₂, val ∷ rest)
    ]

-- "save hardware info from BHI"
unfoldable pub save_info : Device → Loader → Loader
unfolding read_reg read_hashes
save_info dev l =
    let base = l.ctrl.bhi in
    let (log₁, out) = read_reg dev l.ctrl.log (base + bhi_serialnu) in
    let (log₂, hashes) = read_hashes dev base log₁ 0 l.oem_pk_hash in
    record l {
      ctrl = record (l.ctrl) { log = log₂ };
      serial_number = elim out [ none ↦ l.serial_number | some val ↦ val ];
      oem_pk_hash = hashes;
    }

-- `release_firmware`, which ignores a null pointer.
abbrev pub release : Bool → Loader → Loader
release true l = record l { ctrl = act release_firmware l.ctrl }
release false l = l

abbrev pub with_log : Log → Loader → Loader
with_log log l = record l { ctrl = record (l.ctrl) { log = log } }

-- The label `error_read` and the one after it. `none` is a null pointer that is read.
unfoldable pub error_read : Bool → Loader → Option Loader
unfolding free_bhie_table
error_read loaded l = elim l.fbc_image [
  | none ↦ none
  | some image ↦ some (
      release loaded (record l {
        ctrl = record (l.ctrl) { log = free_bhie_table l.ctrl.log image };
        fbc_image = none;
      }))
]

abbrev pub is_sbl : Ctrl → Bool
is_sbl c = (c.ee == Ee.sbl) || in_error_state c.pm_state

module _ (dev : Device) (wait : Wait) (k : Services) where
  -- The full image, from the segment that holds the table.
  unfoldable pub load_amss : Bool → Loader → Option Loader
  load_amss loaded l = elim l.fbc_image [
    | none ↦ none
    | some image ↦ elim (get_elem? image.mhi_buf (image.entries - 1)) [
      | none ↦ none
      | some m ↦
          let (c, _) = fw_load_amss dev wait k.random l.ctrl k.tx_status m in
          some (release loaded (record l { ctrl = c }))
    ]
  ]

  -- From the end of the wait for the boot loader on, with what the wait returned.
  unfoldable pub after_sbl : Bool → Loader → ℕ → Option Loader
  after_sbl loaded l left =
      if (left == 0) || in_error_state l.ctrl.pm_state
      then error_read loaded l
      else load_amss loaded l

  -- From the transition to READY on, with what it returned.
  unfoldable pub after_ready : Bool → Loader → Code → Option Loader
  after_ready loaded l ret = if not l.ctrl.setup.fbc_download then some l else elim ret [
    | err e ↦ error_read loaded l
    | ok ↦
        let (s, left) = wait (until is_sbl) (waiting l.ctrl) in
        after_sbl loaded (record l { ctrl = s.ctrl }) left
  ]

  -- From the label `fw_load_ee_pthru` on; `loaded` says that `firmware` is not null.
  unfoldable pub enter_ready : Bool → Loader → Option Loader
  enter_ready loaded l =
      let (c, ret) = ready_state_transition dev wait l.ctrl in
      after_ready loaded (record l { ctrl = c }) ret

  -- The part from the state RESET on, with the table of segments if the full image is to be loaded.
  unfoldable pub fill_image : List ℕ → Loader → Option Loader
  unfolding alloc_bhie_table firmware_copy
  fill_image firmware l =
      let l₁ = record l { ctrl = record (l.ctrl) { dev_state = DevState.reset } } in
      if not l₁.ctrl.setup.fbc_download
      then enter_ready false l₁
      else (let (log, _, table) =
            alloc_bhie_table k.coherent k.memory l₁.ctrl.log l₁.seg_len (length firmware) in
          elim table [
            | none ↦ some (release true (with_log log l₁))
            | some image ↦ elim (firmware_copy firmware image) [
              | none ↦ none
              | some image' ↦
                  enter_ready true (record (with_log log l₁) { fbc_image = some image' })
            ]
          ])

  -- The boot loader's image, of `size` bytes, through the memory `r`.
  unfoldable pub load_sbl : List ℕ → ℕ → Region → Loader → Option Loader
  load_sbl firmware size r l =
      let c₁ = act (alloc_coherent r.buf size r.dma_addr) l.ctrl in
      let (c₂, ret) = fw_load_sbl dev wait k.random c₁ k.tx_status r.dma_addr size in
      let l₃ = record l { ctrl = act (free_coherent r.buf size r.dma_addr) c₂ } in
      elim ret [
        | err e ↦ some (release true l₃)
        | ok ↦
            if l₃.ctrl.ee == Ee.edl
            then some (release true l₃)
            else fill_image firmware (release (not l₃.ctrl.setup.fbc_download) l₃)
      ]

  -- From the choice of the image on.
  unfoldable pub load_image : Loader → Option Loader
  load_image l = elim (if l.ctrl.ee == Ee.edl then l.edl_image else l.fw_image) [
    | none ↦ some l
    | some fw_name ↦
        let fbc = l.ctrl.setup.fbc_download in
        if fbc && ((l.sbl_size == 0) || (l.seg_len == 0))
        then some l
        else elim (k.request_firmware l.ctrl.log fw_name) [
          | none ↦ some l
          | some firmware ↦
              let l₁ = record l { ctrl = act get_firmware l.ctrl } in
              let size = min (if fbc then l.sbl_size else length firmware) (length firmware) in
              elim (k.coherent l₁.ctrl.log size) [
                | none ↦ some (release true l₁)
                | some r ↦ load_sbl firmware size r l₁
              ]
        ]
  ]

  -- `mhi_fw_load_handler`. `none` is an access through a null pointer or past the end of the table.
  unfoldable pub fw_load_handler : Loader → Option Loader
  fw_load_handler l =
      if in_error_state l.ctrl.pm_state
      then some l
      else (let l₁ = save_info dev l in
          if l₁.ctrl.ee == Ee.pthru then enter_ready false l₁ else load_image l₁)
