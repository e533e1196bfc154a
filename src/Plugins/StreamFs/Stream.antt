-- ===== src/Plugins/StreamFs/Stream.antt =====
-- `StreamFile` of plugins/streamfs/src/lib.rs. `usize` has 64 bits, and counters wrap around.
use fs.Base.{
  ℕ, zero, suc, ◌+◌, ◌-◌, ◌%◌, ◌^◌, max, Bool, true, false, none, List, [], ◌∷◌, ◌++◌, eqb,
  if◌then◌else◌, nat_eq, length, get_or, set, replicate, Text, chars,
}
use fs.Base.Decimal.{decimal}
use fs.Base.Map
use fs.Base.Map.{Map}
use fs.Sdk.Error.{ok, FsResult, err, internal, panic}
use fs.Sdk.Types.{FileInfo, regular}
use fs.Sdk.Provider.{Bytes}
use fs.Plugins.Channel.{Broadcast}

pub record ReaderState : Type 0 where
  pub id : ℕ
  pub registered_at : ℕ

abbrev pub is_empty_chunk : Bytes → Bool
is_empty_chunk [] = true
is_empty_chunk (b ∷ bytes) = false

-- The loop of `get_historical_chunks`: the `n` chunks from number `i` on.
unfoldable pub chunks_from : ℕ → ℕ → ℕ → List Bytes → List Bytes
chunks_from zero i ring_size ring = []
chunks_from (suc n) i ring_size ring =
    let chunk = get_or ring (i % ring_size) [] in
    let rest = chunks_from n (i + 1) ring_size ring in
    if is_empty_chunk chunk then rest else chunk ∷ rest

module _ (B : Broadcast Bytes) where
  pub record StreamFile : Type 0 where
    pub name : Text
    pub total_written : ℕ
    pub closed : Bool
    pub mtime : ℕ
    pub ring_buffer : List Bytes
    pub ring_size : ℕ
    pub write_index : ℕ
    pub total_chunks : ℕ
    pub sender : B.Sender
    pub readers : Map ℕ ReaderState
    pub next_reader_id : ℕ

  -- A channel of size 0 panics.
  unfoldable pub new : ℕ → Text → ℕ → ℕ → FsResult StreamFile
  new now name ring_size channel_size =
      if eqb channel_size 0
      then panic
      else ok (record {
        name = name;
        total_written = 0;
        closed = false;
        mtime = now;
        ring_buffer = replicate ring_size [];
        ring_size = ring_size;
        write_index = 0;
        total_chunks = 0;
        sender = B.channel channel_size;
        readers = [];
        next_reader_id = 1;
      })

  unfoldable pub get_info : StreamFile → FileInfo
  get_info f = record {
    path = f.name;
    size = f.total_written;
    file_type = regular;
    mode = 0o644;
    uid = 0;
    gid = 0;
    atime = f.mtime;
    mtime = f.mtime;
    ctime = f.mtime;
    etag = chars "stream-" ++ decimal f.total_chunks;
    symlink_target = none;
  }

  -- A ring of size 0 ends in a panic at the remainder.
  unfoldable pub write : ℕ → Bytes → StreamFile → StreamFile × FsResult ℕ
  write now bytes f =
      if f.closed
      then (f, err (internal (chars "stream is closed")))
      else if eqb (length bytes) 0
      then (f, ok 0)
      else if eqb f.ring_size 0
      then (f, panic)
      else (
        record f {
          ring_buffer = set f.ring_buffer (f.write_index % f.ring_size) bytes;
          write_index = (f.write_index + 1) % 2 ^ 64;
          total_chunks = (f.total_chunks + 1) % 2 ^ 64;
          total_written = (f.total_written + length bytes) % 2 ^ 64;
          mtime = now;
          sender = B.send bytes f.sender;
        },
        ok (length bytes),
      )

  unfoldable pub register_reader : ℕ → StreamFile → StreamFile × ℕ × B.Receiver
  register_reader now f =
      let (sender, receiver) = B.subscribe f.sender in
      let id = f.next_reader_id in
      (
        record f {
          next_reader_id = (id + 1) % 2 ^ 64;
          sender = sender;
          readers = Map.insert f.readers id (record { id = id; registered_at = now });
        },
        id,
        receiver,
      )

  unfoldable pub unregister_reader : ℕ → StreamFile → StreamFile
  unregister_reader reader_id f = record f { readers = Map.remove f.readers reader_id }

  abbrev pub oldest : StreamFile → ℕ
  oldest f = f.total_chunks - f.ring_size

  unfoldable pub get_historical_chunks : ℕ → StreamFile → List Bytes
  get_historical_chunks from_index f =
      let start = max from_index (oldest f) in
      chunks_from (f.total_chunks - start) start f.ring_size f.ring_buffer

  unfoldable pub close : StreamFile → StreamFile
  close f = record f { closed = true }
