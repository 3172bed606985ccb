-- ===== src/Lib.antt =====
-- The core of the MHI bus driver, as used for Quectel modems: drivers/bus/mhi/core/main.c, pm.c, init.c,
-- boot.c, internal.h and include/linux/mhi.h, and the framing of MBIM in drivers/bus/mhi/mhi_net_mbim.c.
--
-- The host and the modem share rings of 16-byte elements in memory. The host queues transfers and
-- commands in rings that the device reads, and rings a doorbell register; the device reports in event
-- rings that the host reads. Beside this the two sides move together through power states, and a
-- doorbell keeps the device awake while the host needs it.
--
-- The files, and the code that each is about:
--   Base         numbers, words, lists and options that the others share
--   Regs         mhi_read_reg, mhi_write_reg and their field variants, mhi_write_db and the doorbell
--                modes (main.c); Regs/Field what a written field reads back as
--   Tre          the macros on ring elements (internal.h); Tre/Coding their round trips
--   Ring         struct mhi_ring and the ring pointer functions (main.c); Ring/Slots the pointers as
--                slot numbers, Ring/Space how much room is left
--   Pm/State     the power states, dev_state_transitions and mhi_tryset_pm_state (pm.c); Pm/Graph the
--                diagram of the comment at the top of pm.c as a relation
--   DevState, Ee enum mhi_state and enum mhi_ee_type (include/linux/mhi.h)
--   Ctrl         the controller, channels, event rings and buffers, and mhi_ring_er_db,
--                mhi_ring_cmd_db, mhi_ring_chan_db
--   Wake         mhi_assert_dev_wake, mhi_deassert_dev_wake, mhi_toggle_dev_wake, mhi_device_get and
--                mhi_device_put (pm.c); Wake/Mirror and Wake/Count what sequences of them do
--   Wait         the contract of wait_event_timeout
--   Power        mhi_set_mhi_state and the handlers of M0, M1 and M3 (pm.c); Power/Suspend
--                mhi_pm_suspend, mhi_pm_resume and __mhi_device_get_sync; Power/Sync
--                mhi_device_get_sync and mhi_force_rddm_mode
--   Queue        mhi_gen_tre, mhi_queue_skb, mhi_queue_dma, mhi_queue_buf and mhi_send_cmd (main.c)
--   Complete     parse_xfer_event and mhi_reset_data_chan (main.c); Complete/Order and Complete/Event
--                which elements they complete, Complete/Fifo the channel as a queue of buffers and
--                what runs of steps do to it, Complete/Bounds the byte counts reported
--   Events       one round of mhi_process_ctrl_ev_ring, mhi_process_cmd_completion and
--                parse_rsc_event (main.c), mhi_queue_state_transition and mhi_pm_sys_err_handler (pm.c)
--   EventLoop    mhi_process_ctrl_ev_ring, mhi_process_data_event_ring, mhi_ev_task, mhi_ctrl_ev_task,
--                mhi_poll and mhi_irq_handler (main.c); EventLoop/Fold and EventLoop/Drain the loop
--                against a fold over the events, EventLoop/Keeps and EventLoop/CtrlKeeps the handlers
--                that leave the ring as it is
--   Channel      mhi_init_chan_ctxt, mhi_deinit_chan_ctxt (init.c), mhi_prepare_channel,
--                __mhi_unprepare_channel, mhi_reset_chan and mhi_mark_stale_events (main.c);
--                Channel/Stale, Channel/Start, Channel/Stop and Channel/Outcome what they leave behind
--   Transfer     mhi_prepare_for_transfer, mhi_unprepare_from_transfer and mhi_get_free_desc_count
--                (main.c)
--   Interrupt    mhi_intvec_handler and mhi_intvec_threaded_handler (main.c)
--   Init/Mmio    mhi_init_mmio (init.c)
--   Init/Layout  mhi_alloc_dev_ctxt and mhi_deinit_dev_ctxt (init.c); Init/Layout/Apart and
--                Init/Layout/Places where the rings lie in the control segment
--   Config       parse_ch_cfg, parse_ev_cfg and parse_config (init.c)
--   Transition   mhi_ready_state_transition, mhi_pm_mission_mode_transition,
--                mhi_pm_disable_transition and mhi_pm_st_worker (pm.c)
--   PowerUp      mhi_async_power_up, mhi_power_down and mhi_sync_power_up (pm.c)
--   Boot         the tables that name the pieces of an image: mhi_alloc_bhie_table, mhi_free_bhie_table
--                and mhi_firmware_copy (drivers/bus/mhi/core/boot.c); Boot/Table and Boot/Copy what they
--                do, Boot/Image what a device reads through a table
--   Boot/Load    mhi_fw_load_sbl and mhi_fw_load_amss; Boot/Load/Sent when they return 0
--   Boot/Rddm    mhi_rddm_prepare, __mhi_download_rddm_in_panic and mhi_download_rddm_img;
--                Boot/Rddm/Polls its polling
--   Boot/Handler mhi_fw_load_handler, a function for each part between two of its labels; Boot/Held,
--                Boot/Ledger and Boot/Clean the account of what it holds, Boot/Stages and Boot/Outcome
--                the parts and the whole
--   Mbim         cdc_mbim_tx_fixup and cdc_mbim_rx_fixup (drivers/bus/mhi/mhi_net_mbim.c); Mbim/Slices
--                where the packets lie in a block, Mbim/Ends when the walk over its tables ends,
--                Mbim/RoundTrip the two against each other; Mbim/Net mhi_ndo_xmit and
--                the two callbacks, Mbim/Resend what mhi_ndo_xmit does when the ring is full
--   Tests        concrete runs
--
-- An operation is a function from the controller (`Ctrl`), or from the channel that it changes, to the
-- new one and a result code. A function that queues, completes or resets on a channel takes the
-- channel beside the controller and returns both. Every register access, callback and release is
-- entered in the controller's log, the latest first, so that an order of effects can be stated.
-- Pointers and addresses are numbers; arithmetic on bus addresses is that of 64 bits, counters and
-- registers are 32 bits wide and wrap around. The element memory of a ring is a list beside the ring.
--
-- Not under this repository, and therefore parameters: the controller's register access (`Device`:
-- what a register reads as depends on the log; no value is an error), `dma_map_single` (`Dma`),
-- `vzalloc` and `kmalloc` (`Memory`), `wait_for_completion_timeout` (`Await`) and
-- `wait_event_timeout` (`Wait`), which stand for all that other threads and the device do while a
-- thread waits; `IsWait` is the documented contract of the second. `dma_alloc_coherent` is
-- `Coherent`, `request_firmware` and `prandom_u32_max` are `Services`, `netdev_alloc_skb` is an
-- argument by packet, and `Signs` has the signatures that linux/usb/cdc.h names. The macro ALIGN is
-- an argument, and `IsAlign` what is known of it. What the device makes of the read pointer of an
-- event ring while a loop runs is a parameter by look (`Looks`). Functions of the repository that
-- are not modelled are parameters too: `Outside` has mhi_create_devices and the removal of the
-- devices, `Resources` has mhi_init_dev_ctxt, of which Init/Layout has the first part,
-- mhi_init_irq_setup and their release. The state worker calls mhi_fw_load_handler through
-- `Outside` as well, since the handler works on a larger record (`Loader`) than the worker.
--
-- The loops over a ring run on fuel of one round for each element of the ring, and one more for
-- the test that ends the loop; `none` is a loop that does not end, or an access beyond an array.
-- That the fuel is enough is part of what is shown of these loops. The fuel of an event loop, in
-- which the device may add events, is an argument. So is that of cdc_mbim_rx_fixup, since a block
-- may name its tables in a circle; where each table names a later one, the length of the block and
-- one more is enough. The polls for a crash image run for the numbers of rounds that the code
-- computes.
--
-- Not modelled: locks, memory barriers and the interleavings inside a critical section; a client
-- that queues from within its own callback, which comes after the event here; the bounce buffer
-- variants of mapping, since the contents of transfer buffers are not modelled; the contents of the
-- buffer that carries the boot loader to the device; debug output; the creation of devices; the
-- first contents of the contexts, the interrupts and the registration of a controller (the rest of
-- init.c); of mhi_net_mbim.c the refilling and the registration of the network device, and the
-- other client drivers (network, character device, DTR); the PCI glue and the tools.
pub mod Base
pub mod Regs
pub mod Tre
pub mod Ring
pub mod Pm
pub mod DevState
pub mod Ee
pub mod Ctrl
pub mod Wake
pub mod Wait
pub mod Power
pub mod Queue
pub mod Complete
pub mod Events
pub mod Channel
pub mod Transfer
pub mod EventLoop
pub mod Interrupt
pub mod Init
pub mod Config
pub mod Transition
pub mod PowerUp
pub mod Boot
pub mod Mbim
pub mod Tests
