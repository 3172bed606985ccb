-- ===== src/Tests/Words.antt =====
-- Registers, ring elements, rings and power states.
use mhi_for_quectel_modem.Base.{◌≤◌, ◌≡◌, ◌⊎◌, ◌↔◌, refl, false, some, [], ◌∷◌, arith}
use mhi_for_quectel_modem.Regs.{read, write, write_reg_field, read_reg_field}
use mhi_for_quectel_modem.Regs.Field.{field_mask, packed, write_reg_field-read}
use mhi_for_quectel_modem.Ring.{get_nr_avail_ring_elements, is_ring_full}
use mhi_for_quectel_modem.Ring.Slots.{IsAt}
use mhi_for_quectel_modem.Pm.State.{
  por, m0, m2, shutdown_process, ld_err_fatal_detect, tryset_pm_state,
}
use mhi_for_quectel_modem.Pm.Graph.{level, ◌⟶◌, request_all, tryset_exact, request_all-stays_down}
use mhi_for_quectel_modem.Tests.Data.{tre_ring, memory}

tryset_exact_example :
    ((tryset_pm_state m2 m0 ≡ m0) ↔ ((m2 ⟶ m0) ⊎ (m2 ≡ m0)))
    × ((tryset_pm_state m2 m0 ≡ m0) ⊎ (tryset_pm_state m2 m0 ≡ m2))
tryset_exact_example = tryset_exact m2 m0

request_all-stays_down_example :
    2 ≤ level (request_all ld_err_fatal_detect (m0 ∷ shutdown_process ∷ por ∷ []))
request_all-stays_down_example =
    request_all-stays_down ld_err_fatal_detect (m0 ∷ shutdown_process ∷ por ∷ []) (omega arith)
      (λ e. cc, (λ e. cc, (λ e. cc, tt)))

-- The MHISTATE field of MHICTRL: 8 bits at bit 8.
write_reg_field-read_example :
    let log' = write_reg_field memory [] 0x38 (field_mask 8 8) 8 2 in
    (log'
      ≡ write 0x38 (packed 8 8 16 (omega arith) 0x100 1 (omega arith) (omega arith) 2)
        ∷ read 0x38
        ∷ [])
    × ((read_reg_field memory log' 0x38 (field_mask 8 8) 8).1 ≡ some 2)
write_reg_field-read_example =
    write_reg_field-read 8 8 16 refl 0x100 1 (omega arith) (omega arith) memory [] 0x38 0xff 2
      (omega arith) (omega arith) refl (λ x log'. refl)

tre_ring-IsAt : IsAt tre_ring 4 1 3
tre_ring-IsAt = omega arith

nr_avail_runs : (get_nr_avail_ring_elements tre_ring ≡ 1) × (is_ring_full tre_ring ≡ false)
unfolding get_nr_avail_ring_elements is_ring_full
nr_avail_runs = (refl, refl)
