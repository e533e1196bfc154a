-- ===== src/Core/MemFs/Entry.antt =====
-- The entries of `MemoryFs`, its state, `new` and `stat`.
use fs.Base.{
  ℕ, Bool, true, false, none, some, [], nat_eq, length, Text, text_eq, root, utf8_len, ◌||◌, ◌∷◌,
}
use fs.Base.Map.{Map, get, insert}
use fs.Base.Hex.{hex}
use fs.Sdk.Error.{ok, FsResult, err, not_found}
use fs.Sdk.Types.{FileType, regular, directory, FileInfo, OpenFlags}
use fs.Sdk.Provider.{Bytes}
use fs.Core.Paths.{normalize_path}

pub record MemFile : Type 0 where
  pub content : Bytes
  pub mode : ℕ
  pub uid : ℕ
  pub gid : ℕ
  pub atime : ℕ
  pub mtime : ℕ
  pub ctime : ℕ

pub record MemDir : Type 0 where
  pub mode : ℕ
  pub uid : ℕ
  pub gid : ℕ
  pub atime : ℕ
  pub mtime : ℕ
  pub ctime : ℕ

pub record MemSymlink : Type 0 where
  pub target : Text
  pub mode : ℕ
  pub uid : ℕ
  pub gid : ℕ
  pub atime : ℕ
  pub mtime : ℕ
  pub ctime : ℕ

pub data MemEntry : Type 0 where
  file : MemFile → MemEntry
  dir : MemDir → MemEntry
  symlink : MemSymlink → MemEntry

-- `MemFile::default()`, `MemDir::default()`
abbrev pub default_file : ℕ → MemFile
default_file now = record {
  content = [];
  mode = 0o644;
  uid = 0;
  gid = 0;
  atime = now;
  mtime = now;
  ctime = now;
}

abbrev pub default_dir : ℕ → MemDir
default_dir now = record { mode = 0o755; uid = 0; gid = 0; atime = now; mtime = now; ctime = now }

abbrev pub new_symlink : ℕ → Text → MemSymlink
new_symlink now target = record {
  target = target;
  mode = 0o777;
  uid = 0;
  gid = 0;
  atime = now;
  mtime = now;
  ctime = now;
}

-- `to_file_info`, with the accessors that it calls.
unfoldable pub to_file_info : MemEntry → Text → FileInfo
to_file_info (file f) path = record {
  path = path;
  size = length f.content;
  file_type = regular;
  mode = f.mode;
  uid = f.uid;
  gid = f.gid;
  atime = f.atime;
  mtime = f.mtime;
  ctime = f.ctime;
  etag = hex f.mtime;
  symlink_target = none;
}
to_file_info (dir d) path = record {
  path = path;
  size = 0;
  file_type = directory;
  mode = d.mode;
  uid = d.uid;
  gid = d.gid;
  atime = d.atime;
  mtime = d.mtime;
  ctime = d.ctime;
  etag = hex d.mtime;
  symlink_target = none;
}
to_file_info (symlink s) path = record {
  path = path;
  size = utf8_len s.target;
  file_type = FileType.symlink;
  mode = s.mode;
  uid = s.uid;
  gid = s.gid;
  atime = s.atime;
  mtime = s.mtime;
  ctime = s.ctime;
  etag = hex s.mtime;
  symlink_target = some s.target;
}

pub record OpenHandle : Type 0 where
  pub path : Text
  pub flags : OpenFlags

pub record MemoryFs : Type 0 where
  pub entries : Map Text MemEntry
  pub handles : Map ℕ OpenHandle
  pub next_handle : ℕ

unfoldable pub new : ℕ → MemoryFs
new now = record { entries = insert [] root (dir (default_dir now)); handles = []; next_handle = 1 }

abbrev pub with_entries : MemoryFs → Map Text MemEntry → MemoryFs
with_entries m entries = record m { entries = entries }

unfoldable pub stat : Text → MemoryFs → FsResult FileInfo
stat path m =
    let path' = normalize_path path in
    elim (get m.entries path') [ none ↦ err (not_found path') | some e ↦ ok (to_file_info e path') ]

abbrev pub is_dir : MemEntry → Bool
is_dir (dir d) = true
is_dir _ = false

unfoldable pub any_key : (Text → Bool) → Map Text MemEntry → Bool
any_key p [] = false
any_key p ((k, e) ∷ m) = p k || any_key p m
