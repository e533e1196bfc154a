-- ===== src/Plugins/PageFs/Node.antt =====
-- The records of plugins/pagefs/src/lib.rs that the store holds. A time is in seconds since the
-- epoch; times before it are out of the model.
use fs.Base.{ℕ, ◌+◌, ◌*◌, ◌/◌, ◌≡◌, Bool, true, false, Option, some}
use fs.Sdk.Provider.{Bytes}

abbrev pub page_size : ℕ
page_size = 16 * 1024

abbrev pub root_inode : ℕ
root_inode = 1

pub record Superblock : Type 0 where
  pub next_inode : ℕ
  pub page_size : ℕ
  pub total_pages : ℕ
  pub used_pages : ℕ

-- `Superblock::default()`
abbrev pub new_superblock : Superblock
new_superblock = record {
  next_inode = root_inode + 1;
  page_size = 16 * 1024;
  total_pages = 1_000_000;
  used_pages = 0;
}

pub data InodeType : Type 0 where
  file directory : InodeType

pub record Inode : Type 0 where
  pub id : ℕ
  pub inode_type : InodeType
  pub mode : ℕ
  pub size : ℕ
  pub page_count : ℕ
  pub atime : ℕ
  pub mtime : ℕ
  pub ctime : ℕ
  pub nlink : ℕ

-- `SystemTime` counts nanoseconds here.
unfoldable pub timestamp_to_system_time : ℕ → ℕ
timestamp_to_system_time ts = ts * 1_000_000_000

unfoldable pub systemtime_to_timestamp : ℕ → ℕ
systemtime_to_timestamp time = time / 1_000_000_000

unfoldable pub new_file : ℕ → ℕ → ℕ → Inode
unfolding systemtime_to_timestamp
new_file now id mode = record {
  id = id;
  inode_type = file;
  mode = mode;
  size = 0;
  page_count = 0;
  atime = systemtime_to_timestamp now;
  mtime = systemtime_to_timestamp now;
  ctime = systemtime_to_timestamp now;
  nlink = 1;
}

unfoldable pub new_directory : ℕ → ℕ → ℕ → Inode
unfolding systemtime_to_timestamp
new_directory now id mode = record {
  id = id;
  inode_type = InodeType.directory;
  mode = mode;
  size = 0;
  page_count = 0;
  atime = systemtime_to_timestamp now;
  mtime = systemtime_to_timestamp now;
  ctime = systemtime_to_timestamp now;
  nlink = 2;
}

abbrev pub is_directory_type : InodeType → Bool
is_directory_type file = false
is_directory_type InodeType.directory = true

abbrev pub is_directory : Inode → Bool
is_directory i = is_directory_type i.inode_type

unfoldable pub touch_mtime : ℕ → Inode → Inode
unfolding systemtime_to_timestamp
touch_mtime now i = record i {
  mtime = systemtime_to_timestamp now;
  ctime = systemtime_to_timestamp now;
}

unfoldable pub touch_atime : ℕ → Inode → Inode
unfolding systemtime_to_timestamp
touch_atime now i = record i { atime = systemtime_to_timestamp now }

-- `serde_json` on the two records: what is written is read back.
pub record Serde : Type 0 where
  pub superblock_to_vec : Superblock → Bytes
  pub superblock_from_slice : Bytes → Option Superblock
  pub inode_to_vec : Inode → Bytes
  pub inode_from_slice : Bytes → Option Inode
  pub superblock_roundtrip :
      (sb : Superblock) → superblock_from_slice (superblock_to_vec sb) ≡ some sb
  pub inode_roundtrip : (i : Inode) → inode_from_slice (inode_to_vec i) ≡ some i
