-- ===== src/Xdvdfs.antt =====
-- include/gdox/xdvdfs.h: the file system of an Xbox game partition.
pub mod Volume
use gdox.Common.{ℕ, Bool, Option, List}

-- `gdox_xdvdfs_volume`
pub record XdvdfsVolume : Type 0 where
  pub base_lba : ℕ
  pub root_directory_sector : ℕ
  pub root_directory_size : ℕ
  pub image_timestamp : ℕ

-- `gdox_xdvdfs_entry`
pub record XdvdfsEntry : Type 0 where
  pub name : List ℕ
  pub path : List ℕ
  pub start_sector : ℕ
  pub size : ℕ
  pub attributes : ℕ

-- `gdox_xdvdfs_file_extent`
pub record XdvdfsFileExtent : Type 0 where
  pub start_sector : ℕ
  pub sector_count : ℕ
  pub prefix_max_end : ℕ

-- `gdox_xdvdfs_metadata`; the counts are the lengths of the lists, a list that is `none` is a NULL
-- pointer, and an index that is `none` is GDOX_XDVDFS_NO_ENTRY.
pub record XdvdfsMetadata : Type 0 where
  pub volume : XdvdfsVolume
  pub title : Option (List ℕ)
  pub title_id_present : Bool
  pub title_id : ℕ
  pub xbe_files : Option (List XdvdfsEntry)
  pub default_xbe_index : Option ℕ
  pub file_extents : Option (List XdvdfsFileExtent)
