-- ===== src/Core/Vfs/Memory.antt =====
-- `MemoryFs` behind the interface of the router: every provider is one `MemoryFs` of the world.
use fs.Base.{
  ℕ, ◌+◌, ◌^◌, ◌<◌, ◌≡◌, ap, ◌∙◌, true, false, some, arith, eqb, if◌then◌else◌, nat_eq, length,
  text_eq,
}
use fs.Sdk.Error.{ok}
use fs.Sdk.Capabilities.{Capabilities, posix_like, Capability, ◌∪◌}
use fs.Sdk.Provider.{ProviderId, Handle, Bytes, Providers}
use fs.Core.MemFs.Entry.{MemFile, MemoryFs, OpenHandle}
use fs.Core.MemFs.Entry
use fs.Core.MemFs.Stat
use fs.Core.MemFs.Io
use fs.Core.MemFs.Dirs
use fs.Core.MemFs.Handles.{IsOpen, read-write}
use fs.Core.Handle.{HandleState}
use fs.Core.Handle.Registry.{lookup, IsValid}
use fs.Core.Vfs.{VfsRouter, read, write}
use fs.Core.Vfs.Files.{read_and_write_lem, write-IsValid, write-found}

abbrev pub Disks : Type 0
Disks = ProviderId → MemoryFs

-- The state of one provider is replaced.
abbrev pub at {ℓ} : {A : Type ℓ} → ProviderId → Disks → MemoryFs × A → Disks × A
at p disks (m, a) = (λ q. if eqb p q then m else disks q, a)

abbrev etag_and_rename : Capabilities
etag_and_rename Capability.etag = true
etag_and_rename Capability.atomic_rename = true
etag_and_rename _ = false

-- `capabilities` of `MemoryFs`
abbrev pub memory_capabilities : Capabilities
memory_capabilities = posix_like ∪ etag_and_rename

abbrev pub memory : ℕ → Providers
memory now = record {
  World = Disks;
  capabilities = λ p. memory_capabilities;
  stat = λ p path w. (w, Entry.stat path (w p));
  wstat = λ p path c w. at p w (Stat.wstat now path c (w p));
  statfs = λ p path w. (w, Stat.statfs (w p));
  open_file = λ p path flags w. at p w (Io.open_file now path flags (w p));
  read = λ p h offset size w. (w, Io.read h offset size (w p));
  write = λ p h offset bytes w. at p w (Io.write now h offset bytes (w p));
  close = λ p h sync w. at p w (Io.close h (w p));
  readdir = λ p path w. (w, Dirs.readdir path (w p));
  remove = λ p path w. at p w (Dirs.remove_path path (w p));
}

-- Through the router over memory providers, what is written at an open handle is read back there,
-- if its provider has a readable and writable file without the append flag behind it.
pub router-read-write :
    (now : ℕ) (v : VfsRouter (memory now)) (handle : Handle) (s : HandleState) (h : OpenHandle)
    (f : MemFile) (offset : ℕ) (bytes : Bytes)
    → IsValid v.handle_registry
    → lookup handle v.handle_registry ≡ some s
    → IsOpen (v.world s.provider) s.provider_handle h f
    → h.flags.read ≡ true
    → h.flags.write ≡ true
    → h.flags.append ≡ false
    → offset + length bytes < 2 ^ 64
    → (read
        (memory now)
        now
        handle
        offset
        (length bytes)
        (write (memory now) now handle offset bytes v).0).1
      ≡ ok bytes
router-read-write now v handle s h f offset bytes valid l o r w a fits =
    let P = memory now in
    let v' = (write P now handle offset bytes v).0 in
    let valid' = write-IsValid P now v valid handle offset bytes in
    let there = write-found P now v valid handle offset bytes s l in
    let world = (read_and_write_lem P now v valid handle offset (length bytes) bytes).3 in
    let reading = (read_and_write_lem P now v' valid' handle offset (length bytes) bytes).0 in
    reading
    ∙ ground (
      arith,
      there,
      l,
      ap (λ (d : Disks). Io.read s.provider_handle offset (length bytes) (d s.provider)) world,
      read-write (v.world s.provider) s.provider_handle h f o now offset bytes r w a fits,
    )
