-- ===== src/Platform.antt =====
-- library/egos.h: the two machines that egos-2000 runs on.

pub data Platform : Type 0 where
  arty qemu : Platform
