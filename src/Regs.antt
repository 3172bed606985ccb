-- ===== src/Regs.antt =====
-- Register access and doorbells (the first part of drivers/bus/mhi/core/main.c).
pub mod Field
use mhi_for_quectel_modem.Base.{
  ℕ, ◌+◌, ◌-◌, ◌^◌, bit_and, bit_or, Bool, true, false, Option, none, some, List, ◌∷◌,
  if◌then◌else◌,
}
use mhi_for_quectel_modem.Base.Word.{u32, shl, shr}

-- `enum mhi_callback`.
pub data Callback : Type 0 where
  idle pending_data lpm_enter lpm_exit ee_rddm ee_mission_mode sys_error fatal_error bw_req :
      Callback

-- `result.transaction_status`: 0, -EOVERFLOW or -ENOTCONN.
pub data Status : Type 0 where
  done overflow not_connected : Status

-- What the host does that something outside the driver can see.
pub data Act : Type 0 where
  read : ℕ → Act
  write : ℕ → ℕ → Act
  status_cb : Callback → Act
  notify : ℕ → Callback → Act
  xfer_cb : ℕ → ℕ → ℕ → Status → Act
  wake_up_all : Act
  trigger_resume : Act
  runtime_get_put : Act
  schedule_work : Act
  unmap_single : ℕ → Act
  kfree : ℕ → Act
  vfree : ℕ → Act
  tasklet_schedule : ℕ → Act
  alloc_coherent : ℕ → ℕ → ℕ → Act
  free_coherent : ℕ → ℕ → ℕ → Act
  kmalloc : ℕ → Act
  get_firmware : Act
  release_firmware : Act

-- All that was done so far, the latest first.
abbrev pub Log : Type 0
Log = List Act

-- The controller's `read_reg` callback: what a register reads as depends on all that was done.
-- `none` is an error code.
abbrev pub Device : Type 0
Device = Log → ℕ → Option ℕ

-- `mhi_read_reg` and `mhi_write_reg`, on an address.
unfoldable pub read_reg : Device → Log → ℕ → Log × Option ℕ
read_reg dev log addr = (read addr ∷ log, dev log addr)

unfoldable pub write_reg : Log → ℕ → ℕ → Log
write_reg log addr val = write addr val ∷ log

-- `(tmp & mask) >> shift`
abbrev pub field : ℕ → ℕ → ℕ → ℕ
field tmp mask shift = shr (bit_and tmp mask) shift

-- `~mask` in 32 bits.
abbrev pub not32 : ℕ → ℕ
not32 mask = 2 ^ 32 - 1 - mask

-- `tmp &= ~mask; tmp |= (val << shift);`
abbrev pub put_field : ℕ → ℕ → ℕ → ℕ → ℕ
put_field tmp mask shift val = bit_or (bit_and tmp (not32 mask)) (u32 (shl val shift))

unfoldable pub read_reg_field : Device → Log → ℕ → ℕ → ℕ → Log × Option ℕ
unfolding read_reg
read_reg_field dev log addr mask shift =
    let (log', out) = read_reg dev log addr in
    elim out [ none ↦ (log', none) | some tmp ↦ (log', some (field tmp mask shift)) ]

unfoldable pub write_reg_field : Device → Log → ℕ → ℕ → ℕ → ℕ → Log
unfolding read_reg write_reg
write_reg_field dev log addr mask shift val =
    let (log', out) = read_reg dev log addr in
    elim out [ none ↦ log' | some tmp ↦ write_reg log' addr (put_field tmp mask shift val) ]

abbrev pub upper_32_bits : ℕ → ℕ
upper_32_bits v = u32 (shr v 32)

abbrev pub lower_32_bits : ℕ → ℕ
lower_32_bits v = u32 v

-- `mhi_write_db`: the upper half is written before the lower.
unfoldable pub write_db : Log → ℕ → ℕ → Log
unfolding write_reg
write_db log db_addr db_val =
    let log' = write_reg log (db_addr + 4) (upper_32_bits db_val) in
    write_reg log' db_addr (lower_32_bits db_val)

-- `db_cfg->process_db`.
pub data ProcessDb : Type 0 where
  brstmode brstmode_disable : ProcessDb

-- `struct db_cfg`.
pub record DbCfg : Type 0 where
  pub reset_req : Bool
  pub db_mode : Bool
  pub db_val : ℕ
  pub process_db : ProcessDb

unfoldable pub db_brstmode : Log → DbCfg → ℕ → ℕ → Log × DbCfg
unfolding write_db
db_brstmode log cfg db_addr val =
    if cfg.db_mode
    then (write_db log db_addr val, record cfg { db_val = val; db_mode = false })
    else (log, cfg)

unfoldable pub db_brstmode_disable : Log → DbCfg → ℕ → ℕ → Log × DbCfg
unfolding write_db
db_brstmode_disable log cfg db_addr val = (write_db log db_addr val, record cfg { db_val = val })

-- The call through `db_cfg->process_db`.
unfoldable pub process : Log → DbCfg → ℕ → ℕ → Log × DbCfg
unfolding db_brstmode db_brstmode_disable
process log cfg db_addr val = elim cfg.process_db [
  | brstmode ↦ db_brstmode log cfg db_addr val
  | brstmode_disable ↦ db_brstmode_disable log cfg db_addr val
]
