-- ===== src/Tests.antt =====
-- Concrete inputs, tests of the definitions on them, and the theorems at them.
mod Data
mod Words
mod PowerRuns
mod QueueRuns
mod EventRuns
mod StartUp
mod ChannelRuns
mod LoopRuns
mod MbimRuns
mod FirmwareRuns
mod LayoutRuns
