-- ===== src/Plugins/StreamFs/Calls.antt =====
-- `read`, `write`, `close`, `readdir` and `remove` of `StreamFsProvider`.
use fs.Base.{
  ℕ, zero, suc, ◌+◌, ◌-◌, ◌*◌, ◌%◌, ◌^◌, min, ◌&&◌, ◌||◌, not, true, none, some, List, [], ◌∷◌,
  ◌++◌, ltb, leb, if◌then◌else◌, ◌==◌, nat_eq, length, slice, drop, Text, chars, text_eq, root,
}
use fs.Base.Map
use fs.Base.Map.{Map}
use fs.Sdk.Error.{ok, FsResult, err, not_found, permission_denied, invalid_handle, internal, panic}
use fs.Sdk.Types.{FileInfo}
use fs.Sdk.Provider.{Handle, Bytes}
use fs.Core.Paths.{normalize_path}
use fs.Plugins.Channel.{Broadcast, received, empty, lagged, closed}
use fs.Plugins.StreamFs.Stream
use fs.Plugins.StreamFs.Stream.{StreamFile, get_info, get_historical_chunks, unregister_reader}
use fs.Plugins.StreamFs.Provider.{
  StreamHandle, StreamFs, file_of, with_file, readme, readme_file_info,
}

abbrev pub concat : List Bytes → Bytes
concat [] = []
concat (chunk ∷ chunks) = chunk ++ concat chunks

-- The bytes from `start` on, at most `size`. A sum past 64 bits ends in a panic at the slice.
unfoldable pub slice_at : ℕ → ℕ → Bytes → FsResult Bytes
slice_at start size buffer =
    let end = min ((start + size) % 2 ^ 64) (length buffer) in
    if ltb end start then panic else ok (slice start end buffer)

abbrev mebibyte : ℕ
mebibyte = 1024 * 1024

abbrev window : ℕ
window = 64 * 1024

module _ (B : Broadcast Bytes) where
  -- The loop around `try_recv`: a round that goes on takes one value, so that as much fuel as there
  -- are values is enough.
  unfoldable pub receive_loop : ℕ → B.Sender → B.Receiver → Bytes → B.Receiver × Bytes
  receive_loop zero sender receiver buffer = (receiver, buffer)
  receive_loop (suc fuel) sender receiver buffer =
      let (receiver', answer) = B.try_recv sender receiver in
      elim answer [
        | received chunk ↦ receive_loop fuel sender receiver' (buffer ++ chunk)
        | empty ↦ (receiver', buffer)
        | lagged ↦ (receiver', buffer)
        | closed ↦ (receiver', buffer)
      ]

  -- The first block of `read` on a stream: what was written before, once.
  unfoldable pub send_historical : StreamFile B → StreamHandle B → StreamHandle B
  send_historical f h =
      if not h.historical_sent
      then record h {
        read_buffer = h.read_buffer ++ concat (get_historical_chunks B h.historical_index f);
        historical_sent = true;
      }
      else h

  -- The second block: what has come in since.
  unfoldable pub receive_chunks : StreamFile B → StreamHandle B → StreamHandle B
  receive_chunks f h = elim h.receiver [
    | none ↦ h
    | some receiver ↦
        let (receiver', buffer) =
          receive_loop (length (B.pending f.sender receiver)) f.sender receiver h.read_buffer in
        record h { receiver = some receiver'; read_buffer = buffer }
  ]

  unfoldable pub receive : StreamFile B → StreamHandle B → StreamHandle B
  receive f h = receive_chunks f (send_historical f h)

  -- The last block: the answer, and the handle without the bytes far before it.
  unfoldable pub answer_read : ℕ → ℕ → StreamHandle B → StreamHandle B × FsResult Bytes
  answer_read offset size h =
      let rel_offset = offset - h.read_base in
      let trim = rel_offset - window in
      if ltb rel_offset (length h.read_buffer)
      then elim (slice_at rel_offset size h.read_buffer) [
        | err e ↦ (h, err e)
        | panic ↦ (h, panic)
        | ok bytes ↦ (
          (if ltb mebibyte (length h.read_buffer) && ltb window rel_offset
              then record h {
                read_buffer = drop trim h.read_buffer;
                read_base = (h.read_base + trim) % 2 ^ 64;
              }
              else h),
          ok bytes,
        )
      ]
      else (h, ok [])

  abbrev with_handle : ℕ → StreamHandle B → StreamFs B → StreamFs B
  with_handle handle h m = record m { handles = Map.insert m.handles handle h }

  -- A handle on a stream keeps it, so that a missing one has no case in the code.
  unfoldable pub read : Handle → ℕ → ℕ → StreamFs B → StreamFs B × FsResult Bytes
  read handle offset size m = elim (Map.get m.handles handle) [
    | none ↦ (m, err (invalid_handle handle))
    | some h ↦
        if h.path == readme
        then (
          m,
          (if leb (length h.read_buffer) offset then ok [] else slice_at offset size h.read_buffer),
        )
        else elim (file_of B h.stream m) [
          | none ↦ (m, err (internal (chars "no stream")))
          | some (file, f) ↦
              let (h', bytes) = answer_read offset size (receive f h) in
              (with_handle handle h' m, bytes)
        ]
  ]

  unfoldable pub write : ℕ → Handle → Bytes → StreamFs B → StreamFs B × FsResult ℕ
  write now handle bytes m = elim (Map.get m.handles handle) [
    | none ↦ (m, err (invalid_handle handle))
    | some h ↦
        if h.path == readme
        then (m, err (permission_denied (chars "README is read-only")))
        else elim (file_of B h.stream m) [
          | none ↦ (m, err (internal (chars "no stream")))
          | some (file, f) ↦
              let (f', written) = Stream.write B now bytes f in (with_file B file f' m, written)
        ]
  ]

  -- `close` on the handle's stream.
  unfoldable pub unregister : StreamHandle B → StreamFs B → StreamFs B
  unregister h m = elim h.reader_id [
    | none ↦ m
    | some reader_id ↦ elim (file_of B h.stream m) [
      | none ↦ m
      | some (file, f) ↦ with_file B file (unregister_reader B reader_id f) m
    ]
  ]

  unfoldable pub close : Handle → StreamFs B → StreamFs B × FsResult (Unit {0})
  close handle m = elim (Map.get m.handles handle) [
    | none ↦ (m, ok tt)
    | some h ↦ (unregister h (record m { handles = Map.remove m.handles handle }), ok tt)
  ]

  unfoldable pub infos : StreamFs B → Map Text ℕ → List FileInfo
  infos m [] = []
  infos m ((name, file) ∷ streams) =
      let rest = infos m streams in
      elim (file_of B (some file) m) [ none ↦ rest | some (i, f) ↦ get_info B f ∷ rest ]

  unfoldable pub readdir : Text → StreamFs B → FsResult (List FileInfo)
  unfolding infos
  readdir path m =
      let path' = normalize_path path in
      if not (path' == root)
      then err (not_found path')
      else ok (readme_file_info ∷ infos m m.streams)

  unfoldable pub remove : Text → StreamFs B → StreamFs B × FsResult (Unit {0})
  remove path m =
      let path' = normalize_path path in
      if path' == root || path' == readme
      then (m, err (permission_denied (chars "cannot remove")))
      else elim (file_of B (Map.get m.streams path') m) [
        | none ↦ (m, err (not_found path'))
        | some (file, f) ↦ (
          with_file B file (Stream.close B f) (record m { streams = Map.remove m.streams path' }),
          ok tt,
        )
      ]
