-- ===== src/Init/Mmio.antt =====
-- `mhi_init_mmio` of drivers/bus/mhi/core/init.c: the doorbell addresses and the registers that tell
-- the device where the contexts are.
use mhi_for_quectel_modem.Base.{
  ℕ, ◌+◌, ◌*◌, false, none, some, List, [], ◌∷◌, length, ◌==◌, if◌then◌else◌,
}
use mhi_for_quectel_modem.Base.Word.{u32, u64}
use mhi_for_quectel_modem.Regs.{
  Log, Device, read_reg_field, write_reg, write_reg_field, upper_32_bits, lower_32_bits,
}
use mhi_for_quectel_modem.Ctrl.{Ctrl, Chan, Event, Setup, Code, ok, err, eio}

-- One row of `reg_info`.
pub record RegInfo : Type 0 where
  pub offset : ℕ
  pub mask : ℕ
  pub shift : ℕ
  pub val : ℕ

-- A row of a whole register.
abbrev whole : ℕ → ℕ → RegInfo
whole offset val = record { offset = offset; mask = 0xFFFF_FFFF; shift = 0; val = val }

-- `reg_info`, its end marker included.
unfoldable pub reg_info : Setup → ℕ → List RegInfo
reg_info s total_ev_rings =
    whole 0x5C (upper_32_bits s.chan_ctxt_addr)
    ∷ whole 0x58 (lower_32_bits s.chan_ctxt_addr)
    ∷ whole 0x64 (upper_32_bits s.er_ctxt_addr)
    ∷ whole 0x60 (lower_32_bits s.er_ctxt_addr)
    ∷ whole 0x6C (upper_32_bits s.cmd_ctxt_addr)
    ∷ whole 0x68 (lower_32_bits s.cmd_ctxt_addr)
    ∷ record { offset = 0x10; mask = 0xFF0000; shift = 16; val = total_ev_rings }
    ∷ record { offset = 0x10; mask = 0xFF000000; shift = 24; val = s.hw_ev_rings }
    ∷ whole 0x84 (upper_32_bits s.ctrl_seg_addr)
    ∷ whole 0x80 (lower_32_bits s.ctrl_seg_addr)
    ∷ whole 0x9C (upper_32_bits s.iova_start)
    ∷ whole 0x98 (lower_32_bits s.iova_start)
    ∷ whole 0x8C (upper_32_bits (u64 (s.ctrl_seg_addr + s.ctrl_seg_len)))
    ∷ whole 0x88 (lower_32_bits (u64 (s.ctrl_seg_addr + s.ctrl_seg_len)))
    ∷ whole 0xA4 (upper_32_bits s.iova_stop)
    ∷ whole 0xA0 (lower_32_bits s.iova_stop)
    ∷ record { offset = 0; mask = 0; shift = 0; val = 0 }
    ∷ []

-- `for (i = 0; reg_info[i].offset; i++)`
unfoldable pub write_registers : Device → ℕ → Log → List RegInfo → Log
write_registers dev base log [] = log
write_registers dev base log (r ∷ rs) =
    let rest =
      write_registers dev base (write_reg_field dev log (base + r.offset) r.mask r.shift r.val)
        rs in
    if r.offset == 0 then log else rest

-- The loop over the channels: each gets the doorbell after the one before it.
unfoldable pub chan_doorbells : ℕ → ℕ → List Chan → List Chan
chan_doorbells base val [] = []
chan_doorbells base val (ch ∷ chs) =
    record ch { tre_ring = record (ch.tre_ring) { db_addr = base + val } }
    ∷ chan_doorbells base (u32 (val + 8)) chs

-- The loop over the event rings, which passes over those that a client manages.
unfoldable pub event_doorbells : ℕ → ℕ → List Event → List Event
event_doorbells base val [] = []
event_doorbells base val (e ∷ es) =
    (if e.offload_ev then e else record e { ring = record (e.ring) { db_addr = base + val } })
    ∷ event_doorbells base (u32 (val + 8)) es

abbrev pub chdboff : ℕ
chdboff = 0x18

abbrev pub erdboff : ℕ
erdboff = 0x20

abbrev pub crdb_lower : ℕ
crdb_lower = 0x70

-- The part after the offset of the channel doorbells was read: the wake doorbell is cleared.
unfoldable pub wake_doorbell : Ctrl → ℕ → Ctrl
unfolding write_reg
wake_doorbell c val =
    let wake_db = c.regs + val + 8 * 127 in
    record c {
      wake_db = wake_db;
      wake_set = false;
      log = write_reg (write_reg c.log (wake_db + 4) 0) wake_db 0;
      chans = chan_doorbells c.regs val c.chans;
    }

-- The part after the offset of the event ring doorbells was read.
unfoldable pub context_registers : Device → Ctrl → ℕ → Ctrl
context_registers dev c val = record c {
  events = event_doorbells c.regs val c.events;
  cmd_ring = record (c.cmd_ring) { db_addr = c.regs + crdb_lower };
  log = write_registers dev c.regs c.log (reg_info c.setup (length c.events));
}

-- `mhi_init_mmio`
unfoldable pub init_mmio : Device → Ctrl → Ctrl × Code
init_mmio dev c =
    let (log, out) = read_reg_field dev c.log (c.regs + chdboff) 0xFFFF_FFFF 0 in
    elim out [
      | none ↦ (record c { log = log }, err eio)
      | some val ↦
          let c₁ = wake_doorbell (record c { log = log }) val in
          let (log₁, out₁) = read_reg_field dev c₁.log (c₁.regs + erdboff) 0xFFFF_FFFF 0 in
          elim out₁ [
            | none ↦ (record c₁ { log = log₁ }, err eio)
            | some val₁ ↦ (context_registers dev (record c₁ { log = log₁ }) val₁, ok)
          ]
    ]
