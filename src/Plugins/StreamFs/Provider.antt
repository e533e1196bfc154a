-- ===== src/Plugins/StreamFs/Provider.antt =====
-- `StreamFsProvider` of plugins/streamfs/src/lib.rs. A stream stays in use by its handles after it
-- has lost its name: `files` holds the streams by identity, `streams` the identities by name. The
-- listing of a `HashMap`, which has no order, is in the order of creation here.
use fs.Base.{
  ℕ, ◌+◌, ◌%◌, ◌^◌, Bool, not, ◌&&◌, true, false, Option, none, some, [], ◌∷◌, if◌then◌else◌, ◌==◌,
  nat_eq, length, Text, chars, lines, text_eq, root,
}
use fs.Base.Utf8.{as_bytes}
use fs.Base.Map
use fs.Base.Map.{Map}
use fs.Sdk.Error.{ok, FsResult, err, not_found, panic}
use fs.Sdk.Types.{FileInfo, OpenFlags, regular, directory}
use fs.Sdk.Provider.{Handle, Bytes}
use fs.Core.Paths.{normalize_path}
use fs.Plugins.Channel.{Broadcast}
use fs.Plugins.StreamFs.Stream
use fs.Plugins.StreamFs.Stream.{StreamFile, get_info, register_reader, oldest}

abbrev pub readme_content : Text
readme_content = lines (
    chars "StreamFS - Streaming File System Plugin"
    ∷ []
    ∷ chars "This plugin provides streaming files that support multiple concurrent readers"
    ∷ chars "and writers with real-time data fanout and ring buffer for late joiners."
    ∷ []
    ∷ chars "FEATURES:"
    ∷ chars "  - Multiple writers can append data to a stream concurrently"
    ∷ chars "  - Multiple readers can consume from the stream independently"
    ∷ chars "  - Ring buffer stores recent data for late-joining readers"
    ∷ chars "  - Memory-based storage with configurable buffer sizes"
    ∷ []
    ∷ chars "USAGE:"
    ∷ chars "  Write:  echo \"data\" > /streamfs/mystream"
    ∷ chars "  Read:   cat /streamfs/mystream"
    ∷ []
    ∷ chars "NOTES:"
    ∷ chars "  - Streams are append-only (offset is ignored on write)"
    ∷ chars "  - Data is in-memory only (not persistent across restarts)"
    ∷ [])

abbrev pub readme : Text
readme = chars "/README"

unfoldable pub readme_file_info : FileInfo
unfolding as_bytes
readme_file_info = record {
  path = readme;
  size = length (as_bytes readme_content);
  file_type = regular;
  mode = 0o444;
  uid = 0;
  gid = 0;
  atime = 0;
  mtime = 0;
  ctime = 0;
  etag = chars "readme";
  symlink_target = none;
}

unfoldable pub root_info : ℕ → FileInfo
root_info now = record {
  path = root;
  size = 0;
  file_type = directory;
  mode = 0o755;
  uid = 0;
  gid = 0;
  atime = now;
  mtime = now;
  ctime = now;
  etag = chars "root";
  symlink_target = none;
}

module _ (B : Broadcast Bytes) where
  pub record StreamHandle : Type 0 where
    pub id : ℕ
    pub path : Text
    pub flags : OpenFlags
    pub stream : Option ℕ
    pub reader_id : Option ℕ
    pub receiver : Option B.Receiver
    pub read_buffer : Bytes
    pub read_base : ℕ
    pub historical_sent : Bool
    pub historical_index : ℕ

  pub record StreamFs : Type 0 where
    pub files : Map ℕ (StreamFile B)
    pub next_file : ℕ
    pub streams : Map Text ℕ
    pub ring_size : ℕ
    pub channel_size : ℕ
    pub handles : Map ℕ StreamHandle
    pub next_handle_id : ℕ

  unfoldable pub new : ℕ → ℕ → StreamFs
  new ring_size channel_size = record {
    files = [];
    next_file = 0;
    streams = [];
    ring_size = ring_size;
    channel_size = channel_size;
    handles = [];
    next_handle_id = 1;
  }

  -- The stream that a handle or a name keeps, if there is one.
  abbrev pub file_of : Option ℕ → StreamFs → Option (ℕ × StreamFile B)
  file_of none m = none
  file_of (some file) m = elim (Map.get m.files file) [ none ↦ none | some f ↦ some (file, f) ]

  unfoldable pub stat : ℕ → Text → StreamFs → FsResult FileInfo
  stat now path m =
      let path' = normalize_path path in
      if path' == root
      then ok (root_info now)
      else if path' == readme
      then ok readme_file_info
      else elim (file_of (Map.get m.streams path') m) [
        | none ↦ err (not_found path')
        | some (file, f) ↦ ok (get_info B f)
      ]

  abbrev pub with_file : ℕ → StreamFile B → StreamFs → StreamFs
  with_file file f m = record m { files = Map.insert m.files file f }

  -- The stream that `open` is for: the one of this name, or a new one.
  unfoldable pub open_stream :
      ℕ → Text → OpenFlags → StreamFs → StreamFs × FsResult (ℕ × StreamFile B)
  open_stream now path flags m = elim (file_of (Map.get m.streams path) m) [
    | some found ↦ (m, ok found)
    | none ↦
        if not flags.create && not flags.write
        then (m, err (not_found path))
        else elim (Stream.new B now path m.ring_size m.channel_size) [
          | err e ↦ (m, err e)
          | panic ↦ (m, panic)
          | ok f ↦ (
            record m {
              files = Map.insert m.files m.next_file f;
              next_file = m.next_file + 1;
              streams = Map.insert m.streams path m.next_file;
            },
            ok (m.next_file, f),
          )
        ]
  ]

  -- `register_reader`, for a handle that reads.
  unfoldable pub reader : ℕ → OpenFlags → StreamFile B → StreamFile B × Option ℕ × Option B.Receiver
  reader now flags f =
      if flags.read
      then (let (f', id, receiver) = register_reader B now f in (f', some id, some receiver))
      else (f, none, none)

  abbrev add_handle : StreamHandle → StreamFs → StreamFs
  add_handle h m = record m {
    handles = Map.insert m.handles m.next_handle_id h;
    next_handle_id = (m.next_handle_id + 1) % 2 ^ 64;
  }

  -- The handle that `open` makes on a stream.
  unfoldable pub stream_handle :
      ℕ → Text → OpenFlags → ℕ → StreamFile B → Option ℕ → Option B.Receiver → StreamHandle
  stream_handle id path flags file f reader_id receiver = record {
    id = id;
    path = path;
    flags = flags;
    stream = some file;
    reader_id = reader_id;
    receiver = receiver;
    read_buffer = [];
    read_base = 0;
    historical_sent = false;
    historical_index = oldest B f;
  }

  abbrev readme_handle : ℕ → OpenFlags → StreamHandle
  readme_handle id flags = record {
    id = id;
    path = readme;
    flags = flags;
    stream = none;
    reader_id = none;
    receiver = none;
    read_buffer = as_bytes readme_content;
    read_base = 0;
    historical_sent = true;
    historical_index = 0;
  }

  -- The last line of `open`: what `stat` says of the path.
  abbrev answer : ℕ → Text → ℕ → StreamFs → StreamFs × FsResult (Handle × FileInfo)
  answer now path id m = elim (stat now path m) [
    | ok info ↦ (m, ok (id, info))
    | err e ↦ (m, err e)
    | panic ↦ (m, panic)
  ]

  unfoldable pub open_file :
      ℕ → Text → OpenFlags → StreamFs → StreamFs × FsResult (Handle × FileInfo)
  unfolding stat
  open_file now path flags m =
      let path' = normalize_path path in
      let (m', opened) = open_stream now path' flags m in
      if path' == readme
      then answer now path' m.next_handle_id (add_handle (readme_handle m.next_handle_id flags) m)
      else elim opened [
        | err e ↦ (m', err e)
        | panic ↦ (m', panic)
        | ok (file, f) ↦
            let (f', reader_id, receiver) = reader now flags f in
            answer now path' m'.next_handle_id (
              add_handle (stream_handle m'.next_handle_id path' flags file f' reader_id receiver)
                (with_file file f' m'))
      ]
