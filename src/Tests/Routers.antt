-- ===== src/Tests/Routers.antt =====
-- The router of core/src/vfs.rs over memory providers.
use native.Mathlib.Decide.{ℕ_discrete}
use fs.Sdk.Error.{ok, FsResult}
use fs.Sdk.Types.{FileInfo, StatChanges, regular, no_changes}
use fs.Sdk.Flags
use fs.Sdk.Provider.{Handle}
use fs.Base.Hex.{hex}
use fs.Base.Whitespace.{trim}
use fs.Core.Paths.{normalize_path, parent_path}
use fs.Core.Mount.{resolve, resolve_loop, range_rev, resolve_at, slash_next, normalize_mount_path}
use fs.Core.Handle
use fs.Core.Handle.{HandleRegistry}
use fs.Core.Handle.Registry.{lookup, IsValid, on_handle, registered, new-IsValid, register-IsValid}
use fs.Core.MemFs.Entry
use fs.Core.MemFs.Entry.{MemoryFs, MemFile, default_file, file, dir, default_dir}
use fs.Core.MemFs.Io
use fs.Core.MemFs.Io.{prepare, creatable, add_handle}
use fs.Core.Vfs.{VfsRouter, open_file, open_resolved, open_gate, wstat_gate, read, write, wstat}
use fs.Core.Vfs.Files.{read_and_write_lem}
use fs.Core.Vfs.Memory.{memory, router-read-write}
use fs.Tests.Mounts.{table}
use fs.Base.Order.{text_lt}
use fs.Base.Map.{get, insert}
use fs.Base.{◌≡◌, refl, nat_eq, chars, text_eq, none, some, [], ◌∷◌, arith, text_dec, root}

program : Unit {0}
unfolding open_file read write wstat resolve resolve_loop range_rev text_lt normalize_mount_path
    normalize_path trim resolve_at text_dec ℕ_discrete slash_next open_gate open_resolved
    Io.open_file prepare get Entry.new insert hex Handle.new Handle.register Entry.to_file_info
    add_handle creatable parent_path wstat_gate
program = tt

-- Every provider starts empty at time 10, and no file is open.
abbrev start : VfsRouter (memory 10)
start = record { mount_table = table; handle_registry = Handle.new 50; world = λ p. Entry.new 10 }

-- `/data/f` is created at the provider that is mounted at `/data`.
abbrev opened : VfsRouter (memory 10) × FsResult (Handle × FileInfo)
opened = open_file (memory 10) 10 (chars "/data/f") Flags.create_file start

abbrev info : FileInfo
info = record {
  path = chars "/data/f";
  size = 0;
  file_type = regular;
  mode = 0o644;
  uid = 0;
  gid = 0;
  atime = 10;
  mtime = 10;
  ctime = 10;
  etag = chars "a";
  symlink_target = none;
}

opened_ok : opened.1 ≡ ok (1, info)
unfolding program
opened_ok = refl

-- Provider 2 holds `/f` with three bytes, open for reading and writing as its handle 5.
abbrev three : MemFile
three = record (default_file 10) { content = 1 ∷ 2 ∷ 3 ∷ [] }

abbrev disk : MemoryFs
disk = record {
  entries = (root, dir (default_dir 10)) ∷ (chars "/f", file three) ∷ [];
  handles = (5, record { path = chars "/f"; flags = Flags.read_write }) ∷ [];
  next_handle = 6;
}

abbrev registry : HandleRegistry
registry = (Handle.register 10 2 (chars "/data/f") Flags.read_write info 5 (Handle.new 50)).0

abbrev running : VfsRouter (memory 10)
running = record { mount_table = table; handle_registry = registry; world = λ p. disk }

registry-IsValid : IsValid registry
unfolding Handle.new
registry-IsValid =
    register-IsValid 10 2 (chars "/data/f") Flags.read_write info 5 (Handle.new 50) (new-IsValid 50)
      (omega arith)

router-read-write_example :
    (read (memory 10) 10 1 7 2 (write (memory 10) 10 1 7 (8 ∷ 9 ∷ []) running).0).1
    ≡ ok (8 ∷ 9 ∷ [])
unfolding program
router-read-write_example =
    router-read-write 10 running 1 (registered 10 2 (chars "/data/f") Flags.read_write info 5)
      (record { path = chars "/f"; flags = Flags.read_write }) three 7 (8 ∷ 9 ∷ []) registry-IsValid
      refl (record { found = refl; present = refl }) refl refl refl (omega arith)

read_and_write_lem_example :
    ((read (memory 10) 10 1 0 9 running).1
      ≡ on_handle 1
          (λ s. ((memory 10).read s.provider s.provider_handle 0 9 running.world).1)
          (lookup 1 registry))
    × ((read (memory 10) 10 1 0 9 running).0.world ≡ elim (lookup 1 registry) [
      | none ↦ running.world
      | some s ↦ ((memory 10).read s.provider s.provider_handle 0 9 running.world).0
    ])
    × ((write (memory 10) 10 1 0 (8 ∷ []) running).1
        ≡ on_handle 1
            (λ s. ((memory 10).write s.provider s.provider_handle 0 (8 ∷ []) running.world).1)
            (lookup 1 registry))
    × ((write (memory 10) 10 1 0 (8 ∷ []) running).0.world ≡ elim (lookup 1 registry) [
      | none ↦ running.world
      | some s ↦ ((memory 10).write s.provider s.provider_handle 0 (8 ∷ []) running.world).0
    ])
    × ((read (memory 10) 10 1 0 9 running).0.mount_table ≡ running.mount_table)
    × ((write (memory 10) 10 1 0 (8 ∷ []) running).0.mount_table ≡ running.mount_table)
read_and_write_lem_example =
    read_and_write_lem (memory 10) 10 running registry-IsValid 1 0 9 (8 ∷ [])

abbrev move : StatChanges
move = record no_changes { name = some (chars "/f") }
