-- ===== src/EventLoop/Drain.antt =====
-- What `mhi_process_ctrl_ev_ring` and `mhi_process_data_event_ring` make of an event ring.
use mhi_for_quectel_modem.Tre.{Tre}
use mhi_for_quectel_modem.Ctrl.{Ctrl}
