-- ===== src/Memory/Coordinator.antt =====
-- One server acts for all.
use thread_keeper.Common.{nat_eq, pair_eq, text_eq}
