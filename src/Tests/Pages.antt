-- ===== src/Tests/Pages.antt =====
-- PageFs of plugins/pagefs/src over the store in memory.
use native.Mathlib.Decide.{ℕ_discrete}
use fs.Base.{
  ℕ, zero, suc, ◌+◌, ap, ◌≡◌, refl, ◌<◌, Option, none, some, [], ◌∷◌, arith, nat_eq, chars,
  text_dec, text_eq, length, get_or,
}
use fs.Base.Map
use fs.Base.Order.{insert_sorted, text_lt}
use fs.Base.Words.{to_be_bytes}
use fs.Sdk.Error.{ok}
use fs.Sdk.Flags
use fs.Sdk.Provider.{Bytes}
use fs.Plugins.PageFs.Keys
use fs.Plugins.PageFs.Kv
use fs.Plugins.PageFs.Kv.{InMemoryKv, memory}
use fs.Plugins.PageFs.Node.{
  Superblock, Inode, InodeType, file, new_file, touch_mtime, Serde, systemtime_to_timestamp,
}
use fs.Plugins.PageFs.Store.{load_inode, lookup}
use fs.Plugins.PageFs.Files.{PageFs, OpenFile, grown, read, write}
use fs.Plugins.PageFs.View.{byte_at}
use fs.Plugins.PageFs.Access.{IsOpen, write_lem, read_lem, write-others}
use fs.Plugins.PageFs.Roundtrip.{pages-read-write}

-- A concrete codec: a record is the list of its fields.
abbrev superblock_of : Bytes → Option Superblock
superblock_of (a ∷ b ∷ c ∷ d ∷ []) =
    some (record { next_inode = a; page_size = b; total_pages = c; used_pages = d })
superblock_of _ = none

abbrev type_number : InodeType → ℕ
type_number file = 0
type_number InodeType.directory = 1

abbrev number_type : ℕ → InodeType
number_type zero = file
number_type (suc n) = InodeType.directory

number_type-type_number : (t : InodeType) → number_type (type_number t) ≡ t
number_type-type_number file = refl
number_type-type_number InodeType.directory = refl

abbrev inode_of : Bytes → Option Inode
inode_of (a ∷ b ∷ c ∷ d ∷ e ∷ f ∷ g ∷ h ∷ i ∷ []) = some (record {
  id = a;
  inode_type = number_type b;
  mode = c;
  size = d;
  page_count = e;
  atime = f;
  mtime = g;
  ctime = h;
  nlink = i;
})
inode_of _ = none

abbrev inode_bytes : Inode → Bytes
inode_bytes i =
    i.id
    ∷ type_number i.inode_type
    ∷ i.mode
    ∷ i.size
    ∷ i.page_count
    ∷ i.atime
    ∷ i.mtime
    ∷ i.ctime
    ∷ i.nlink
    ∷ []

pub inode_bytes_roundtrip : (i : Inode) → inode_of (inode_bytes i) ≡ some i
inode_bytes_roundtrip i =
    ap (λ t. some (record i { inode_type = t })) (number_type-type_number i.inode_type)

abbrev pub codec : Serde
codec = record {
  superblock_to_vec = λ sb. sb.next_inode ∷ sb.page_size ∷ sb.total_pages ∷ sb.used_pages ∷ [];
  superblock_from_slice = superblock_of;
  inode_to_vec = inode_bytes;
  inode_from_slice = inode_of;
  superblock_roundtrip = λ sb. refl;
  inode_roundtrip = inode_bytes_roundtrip;
}

program : Unit {0}
unfolding Map.get load_inode insert_sorted text_lt Kv.set Kv.new Keys.inode to_be_bytes new_file
    text_dec ℕ_discrete systemtime_to_timestamp
program = tt

-- A file of 3 bytes as inode 2, with a handle that reads and writes it.
abbrev small : Inode
small = record (new_file 0 2 0o644) { size = 3; page_count = 1 }

abbrev small_handle : OpenFile
small_handle = record { inode_id = 2; path = chars "/f"; flags = Flags.read_write }

abbrev store : InMemoryKv
store = Kv.set (Keys.inode 2) (inode_bytes small) Kv.new

abbrev disk : PageFs memory
disk = record { kv = store; handles = (1, small_handle) ∷ []; next_handle = 2; uid = 0; gid = 0 }

small-IsOpen : IsOpen memory codec disk 1 small_handle small
unfolding program
small-IsOpen = record {
  found = refl;
  stored = refl;
  is_file = refl;
  own_id = refl;
  fits = omega arith;
}

-- Four bytes over the border of the first two pages.
abbrev four : Bytes
four = 5 ∷ 6 ∷ 7 ∷ 8 ∷ []

pages-read-write_example :
    (read memory codec 0 1 16382 4 (write memory codec 0 1 16382 four disk).0).1 ≡ ok four
pages-read-write_example =
    pages-read-write memory codec disk 1 small_handle small small-IsOpen 0 16382 four (omega arith)

write_lem_example :
    ((write memory codec 0 1 16382 four disk).1 ≡ ok 4)
    × (load_inode memory codec 2 (write memory codec 0 1 16382 four disk).0.kv
        ≡ some (touch_mtime 0 (grown 16386 small)))
    × (byte_at memory codec (write memory codec 0 1 16382 four disk).0.kv 2 16384 ≡ 7)
write_lem_example =
    write_lem memory codec disk 1 small_handle small small-IsOpen 0 16382 four 16384 (omega arith)
      (omega arith)

read_lem_example :
    ((bytes : Bytes) × ((read memory codec 0 1 1 10 disk).1 ≡ ok bytes)
      × (length bytes ≡ 2)
      × ((j : ℕ) → j < length bytes → get_or bytes j 0 ≡ byte_at memory codec store 2 (1 + j)))
    × ((i : ℕ)
        → byte_at memory codec (read memory codec 0 1 1 10 disk).0.kv 2 i
          ≡ byte_at memory codec store 2 i)
read_lem_example =
    read_lem memory codec disk 1 small_handle small small-IsOpen 0 1 10 (omega arith) (omega arith)

write-others_example :
    (load_inode memory codec 3 (write memory codec 0 1 16382 four disk).0.kv
      ≡ load_inode memory codec 3 store)
    × (byte_at memory codec (write memory codec 0 1 16382 four disk).0.kv 3 0
        ≡ byte_at memory codec store 3 0)
    × (lookup memory codec 1 (chars "f") (write memory codec 0 1 16382 four disk).0.kv
        ≡ lookup memory codec 1 (chars "f") store)
write-others_example =
    write-others memory codec disk 1 small_handle small small-IsOpen 0 16382 four 3 0 1 (chars "f")
      (omega arith) (λ e. absurd (omega arith)) (omega arith) (omega arith)
