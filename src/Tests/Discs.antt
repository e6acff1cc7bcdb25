-- ===== src/Tests/Discs.antt =====
-- The theorems on discs, at the medium in memory.
use gdox.Common.{◌≡◌, [], ◌∷◌, arith}
use gdox.Fault.{ok}
use gdox.Disc.Dispatch.{disc_read_buffer}
use gdox.Disc.Image.{ServesBytes}
use gdox.Disc.Direct.Serve.{direct-ServesBytes}
use gdox.Disc.Direct.Delivery.{disc_read-succeeds}
use gdox.Tests.Ram.{
  ram_image, ram_sectors, ram, IsRam, IsRam-Serves, ram-Delivers, zeroed, zeroed-Gives, ram_bytes,
  ram_disc, IsRamDisc,
}

direct-ServesBytes_example : ServesBytes IsRamDisc ram_bytes ram_image
direct-ServesBytes_example =
    direct-ServesBytes IsRam ram_sectors ram_image IsRam-Serves (ground arith) zeroed

disc_read-succeeds_example : (disc_read_buffer ram_disc 2_047 (0 ∷ 0 ∷ 0 ∷ [])).0 ≡ ok
disc_read-succeeds_example =
    disc_read-succeeds ram ram_sectors ram-Delivers (ground arith) zeroed zeroed-Gives 2_047
      (0 ∷ 0 ∷ 0 ∷ []) (ground arith)
