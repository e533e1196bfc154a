-- ===== src/Sdk/Types.antt =====
-- sdk/src/types.rs: what a provider is asked for, and what it answers.
-- Times are nanoseconds since the epoch; a time before the epoch is out of the model.
use fs.Base.{ℕ, ◌-◌, Bool, false, Option, none, some, Text, ◌&&◌}
use fs.Base.Map.{is_some}
use fs.Base.{not}

pub data FileType : Type 0 where
  regular directory symlink : FileType

pub record FileInfo : Type 0 where
  pub path : Text
  pub size : ℕ
  pub file_type : FileType
  pub mode : ℕ
  pub uid : ℕ
  pub gid : ℕ
  pub atime : ℕ
  pub mtime : ℕ
  pub ctime : ℕ
  pub etag : Text
  pub symlink_target : Option Text

pub record StatChanges : Type 0 where
  pub mode : Option ℕ
  pub uid : Option ℕ
  pub gid : Option ℕ
  pub size : Option ℕ
  pub atime : Option ℕ
  pub mtime : Option ℕ
  pub name : Option Text
  pub symlink_target : Option Text

-- `StatChanges::default()`
abbrev pub no_changes : StatChanges
no_changes = record {
  mode = none;
  uid = none;
  gid = none;
  size = none;
  atime = none;
  mtime = none;
  name = none;
  symlink_target = none;
}

unfoldable pub is_empty : StatChanges → Bool
is_empty c =
    not (is_some c.mode)
    && not (is_some c.uid)
    && not (is_some c.gid)
    && not (is_some c.size)
    && not (is_some c.atime)
    && not (is_some c.mtime)
    && not (is_some c.name)
    && not (is_some c.symlink_target)

unfoldable pub truncate : ℕ → StatChanges
truncate size = record no_changes { size = some size }

unfoldable pub rename : Text → StatChanges
rename new_name = record no_changes { name = some new_name }

unfoldable pub symlink_to : Text → StatChanges
symlink_to target = record no_changes { symlink_target = some target }

pub record FsStats : Type 0 where
  pub total_bytes : ℕ
  pub free_bytes : ℕ
  pub total_inodes : ℕ
  pub free_inodes : ℕ
  pub block_size : ℕ
  pub max_name_len : ℕ

-- `saturating_sub` is the subtraction that stops at 0.
unfoldable pub used_bytes : FsStats → ℕ
used_bytes s = s.total_bytes - s.free_bytes

unfoldable pub used_inodes : FsStats → ℕ
used_inodes s = s.total_inodes - s.free_inodes

pub record OpenFlags : Type 0 where
  pub read : Bool
  pub write : Bool
  pub create : Bool
  pub truncate : Bool
  pub append : Bool
  pub directory : Bool

-- `OpenFlags::default()`
abbrev pub no_flags : OpenFlags
no_flags = record {
  read = false;
  write = false;
  create = false;
  truncate = false;
  append = false;
  directory = false;
}
