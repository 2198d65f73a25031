-- ===== src/Container.antt =====
-- backend/nam/utils/BatchQueue.hpp: the two containers that a batch can hold, and their interface.
pub mod Interface
pub mod Ring
pub mod Stack
pub mod Run
