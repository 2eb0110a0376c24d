-- ===== src/Device/Toy.antt =====
-- A host and an allocator, for the tests.
use wall_era.Common.{ℕ}
use wall_era.Usb.Session.{Session, fresh}

abbrev pub no_growth : ℕ → ℕ
no_growth n = 0

abbrev pub on_channel : Session
on_channel = record fresh { channel = 0x101 }
