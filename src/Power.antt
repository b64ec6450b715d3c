-- ===== src/Power.antt =====
-- Power operations on partitions: pypowervm/tasks/power_opts.py (the options of a power Job) and
-- pypowervm/tasks/power.py (running the Jobs, one by one or with increasing aggression).
pub mod Opts
pub mod Op
pub mod Flow
mod Examples
