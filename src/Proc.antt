-- ===== src/Proc.antt =====
-- The process table entry of kernel/proc.h with its Agent fields, grouped by the component that owns
-- them, the constants of kernel/agent.h, and C's comparisons with them. Locks are not modelled: a
-- critical section is one step.
mod Records
mod Constants
mod Tests
pub use Records.*
pub use Constants.*
pub use Tests.*
