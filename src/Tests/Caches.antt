-- ===== src/Tests/Caches.antt =====
-- The theorems on executables and their cache, at concrete inputs.
use gdox.Common.{
  ℕ, ◌≤◌, ◌≡◌, ◌↔◌, true, false, Option, none, some, List, [], ◌∷◌, ◌++◌, replicate, length,
  length-replicate, take, get_or, if◌then◌else◌, arith,
}
use gdox.Common.Compare.{same_bytes}
use gdox.Source.{sector_bytes}
use gdox.Source.Image.{Serves}
use gdox.Xdvdfs.{XdvdfsVolume, XdvdfsEntry, XdvdfsMetadata}
use gdox.Xbe.{media_check_signature, xbe_magic, patch_complete_file}
use gdox.Xbe.Whole.{is_branch, patch_complete_file_lem}
use gdox.Xbe.Cache.Shown.{CacheOf, cached_image}
use gdox.Xbe.Cache.Serve.{cache-Serves}
use gdox.Tests.Ram.{ram_image, ram_sectors, IsRam, IsRam-Serves}

-- An executable with a media check right behind its magic
abbrev executable : List ℕ
executable = xbe_magic ++ (media_check_signature ++ (1 ∷ 2 ∷ []))

patch_complete_file_lem_example :
    let (changed, patched) = patch_complete_file executable 12 in
    (length patched ≡ length executable)
    × (changed ≡ false → patched ≡ executable)
    × ((changed ≡ true) ↔ ((8 ≤ 12) × (same_bytes (take 4 executable) xbe_magic ≡ true)))
    × (changed ≡ true
        → (i : ℕ)
        → get_or patched i 0 ≡ (if is_branch executable 5 i then 0xeb else get_or executable i 0))
patch_complete_file_lem_example = patch_complete_file_lem executable 12 (omega arith)

abbrev cached : Option (List ℕ)
cached = some (replicate sector_bytes 7)

cache-Serves_example :
    Serves (CacheOf IsRam cached 2 1) ram_sectors (cached_image ram_image cached 2)
cache-Serves_example =
    cache-Serves IsRam ram_sectors ram_image cached 2 1 IsRam-Serves (omega arith)
      (length-replicate {A = ℕ} sector_bytes 7, omega arith) (omega arith)

abbrev volume : XdvdfsVolume
volume = record {
  base_lba = 0;
  root_directory_sector = 1;
  root_directory_size = 2_048;
  image_timestamp = 0;
}

abbrev entry : XdvdfsEntry
entry = record { name = []; path = []; start_sector = 2; size = 3_000; attributes = 0 }

abbrev metadata : XdvdfsMetadata
metadata = record {
  volume = volume;
  title = none;
  title_id_present = false;
  title_id = 0;
  xbe_files = some (entry ∷ []);
  default_xbe_index = some 0;
  file_extents = none;
}
