-- ===== src/Xdvdfs/Volume/Find.antt =====
-- src/core/xdvdfs.c: which volume `gdox_xdvdfs_find_volume` finds.
use gdox.Common.{ℕ, ◌+◌, ◌<◌, ◌≡◌, ◌⊎◌, inl, inr, false, Image}
use gdox.Fault.{ErrorCode, invalid_volume}
use gdox.Source.{Source}
use gdox.Source.Image.{Serves, Reliable}
use gdox.Disc.Direct.{Malloc}
use gdox.Disc.Direct.Delivery.{Gives}
use gdox.Xdvdfs.{XdvdfsVolume}
use gdox.Xdvdfs.Volume.{descriptor_sector, common_game_base_lba, Probe, broken, nothing, found}
use gdox.Xdvdfs.Volume.Sector.{is_descriptor, volume_at, FirstIn}

abbrev pub common_sector : ℕ
common_sector = common_game_base_lba + descriptor_sector

-- A sector that is not there, or holds no descriptor
abbrev pub Without : Image → ℕ → ℕ → Type 0
Without img sectors k = k < sectors → is_descriptor img k ≡ false

-- The sector whose descriptor counts: the one at 32, else the one behind the usual video partition,
-- else the first of the source.
abbrev pub Chosen : Image → ℕ → ℕ → Type 0
Chosen img sectors lba =
    ((lba ≡ descriptor_sector) × FirstIn img lba (lba + 1) lba × (lba < sectors))
    ⊎ (((lba ≡ common_sector)
          × FirstIn img lba (lba + 1) lba
          × (lba < sectors)
          × Without img sectors descriptor_sector)
        ⊎ (FirstIn img 0 sectors lba
            × Without img sectors descriptor_sector
            × Without img sectors common_sector))

module _ {C : Type 0} (Good : Source C → Type 0) (sectors : ℕ) (img : Image)
    (serves : Serves Good sectors img) (malloc : Malloc) (gives : Gives malloc) where
  -- What the search tells so far; `Open` holds where it goes on.
  abbrev Stage : Type 0 → Probe → Type 0
  Stage Open nothing = Open
  Stage Open (found v) = (lba : ℕ) × Chosen img sectors lba × (volume_at img lba ≡ inr v)
  Stage Open (broken code) =
      Reliable Good sectors → (lba : ℕ) × Chosen img sectors lba × (volume_at img lba ≡ inl code)

  abbrev At : Type 0 → Probe × Source C → Type 0
  At Open (probe, s) = Good s × Stage Open probe

  abbrev Neither : Type 0
  Neither = Without img sectors descriptor_sector × Without img sectors common_sector

  -- What a call leaves
  abbrev pub Finds : (ErrorCode ⊎ XdvdfsVolume) × Source C → Type 0
  Finds (inr v, s) = Good s × ((lba : ℕ) × Chosen img sectors lba × (volume_at img lba ≡ inr v))
  Finds (inl code, s) =
      Good s
      × (Reliable Good sectors
          → ((code ≡ invalid_volume) × ((lba : ℕ) → lba < sectors → is_descriptor img lba ≡ false))
            ⊎ ((lba : ℕ) × Chosen img sectors lba × (volume_at img lba ≡ inl code)))
