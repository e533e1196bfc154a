-- ===== src/Plugins/PubSubFs/Calls.antt =====
-- `read`, `write`, `close`, `readdir` and `remove` of `PubSubFsProvider`.
use fs.Base.{
  ℕ, zero, suc, ◌+◌, ◌-◌, ◌*◌, ◌%◌, ◌^◌, ◌&&◌, ◌||◌, not, true, none, some, List, [], ◌∷◌, ◌++◌,
  ltb, leb, if◌then◌else◌, ◌==◌, nat_eq, length, drop, Text, chars, text_eq, root, slash,
}
use fs.Base.Utf8.{as_bytes}
use fs.Base.Map
use fs.Base.Map.{Map}
use fs.Sdk.Error.{
  ok, FsResult, err, not_found, not_directory, permission_denied, invalid_handle, internal, panic,
}
use fs.Sdk.Types.{FileInfo}
use fs.Sdk.Provider.{Handle, Bytes}
use fs.Core.Paths.{normalize_path}
use fs.Plugins.Channel.{Broadcast, received, empty, lagged, closed}
use fs.Plugins.StreamFs.Calls.{slice_at}
use fs.Plugins.PubSubFs.Names.{
  readme, readme_file_info, strip_slash, strip_suffix, topic_place, at_topic,
}
use fs.Plugins.PubSubFs.Topic.{Message, format, get_info, publish, unsubscribe}
use fs.Plugins.PubSubFs.Provider.{
  PubSubFs, PubSubHandle, HandleType, readme_file, topic_info, topic_publish, topic_subscribe,
  Subscription, with_topic, topic_file_info, info_file_info,
}

-- The messages as a subscriber reads them.
abbrev pub format_all : List Message → Bytes
format_all [] = []
format_all (msg ∷ msgs) = format msg ++ format_all msgs

-- The bytes from an offset on, at most `size`, none past the end.
unfoldable pub read_at : ℕ → ℕ → Bytes → FsResult Bytes
unfolding slice_at
read_at offset size bytes = if leb (length bytes) offset then ok [] else slice_at offset size bytes

abbrev pub mebibyte : ℕ
mebibyte = 1024 * 1024

abbrev pub window : ℕ
window = 64 * 1024

module _ (B : Broadcast Message) where
  -- The loop around `try_recv`: a round that goes on takes one message, so that as much fuel as there
  -- are messages is enough.
  unfoldable pub receive_loop : ℕ → B.Sender → B.Receiver → Bytes → B.Receiver × Bytes
  receive_loop zero sender receiver buffer = (receiver, buffer)
  receive_loop (suc fuel) sender receiver buffer =
      let (receiver', answer) = B.try_recv sender receiver in
      elim answer [
        | received msg ↦ receive_loop fuel sender receiver' (buffer ++ format msg)
        | empty ↦ (receiver', buffer)
        | lagged ↦ (receiver', buffer)
        | closed ↦ (receiver', buffer)
      ]

  -- The first block of `read`: the messages from before the subscription, once.
  unfoldable pub send_historical : Subscription B → Subscription B
  send_historical s =
      if not s.historical_sent
      then record s {
        buffer = s.buffer ++ format_all (drop s.historical_index s.historical);
        historical_sent = true;
      }
      else s

  unfoldable pub receive : B.Sender → Subscription B → Subscription B
  unfolding send_historical receive_loop
  receive sender s =
      let s' = send_historical s in
      let (receiver', buffer) =
        receive_loop (length (B.pending sender s'.receiver)) sender s'.receiver s'.buffer in
      record s' { receiver = receiver'; buffer = buffer }

  -- The last block of `read`: the answer, and the subscription without the bytes far before it.
  unfoldable pub answer_read : ℕ → ℕ → Subscription B → Subscription B × FsResult Bytes
  unfolding slice_at
  answer_read offset size s =
      let rel_offset = offset - s.buffer_offset in
      let trim = rel_offset - window in
      if ltb rel_offset (length s.buffer)
      then elim (slice_at rel_offset size s.buffer) [
        | err e ↦ (s, err e)
        | panic ↦ (s, panic)
        | ok bytes ↦ (
          (if ltb mebibyte (length s.buffer) && ltb window rel_offset
              then record s {
                buffer = drop trim s.buffer;
                buffer_offset = (s.buffer_offset + trim) % 2 ^ 64;
              }
              else s),
          ok bytes,
        )
      ]
      else (s, ok [])

  abbrev with_subscription : Handle → PubSubHandle B → Subscription B → PubSubFs B → PubSubFs B
  with_subscription handle h s m = record m {
    handles = Map.insert m.handles handle (record h { handle_type = topic_subscribe s });
  }

  -- A handle on a topic keeps it, so that a missing one has no case in the code.
  abbrev no_topic : FsResult Bytes
  no_topic = err (internal (chars "no topic"))

  unfoldable pub read : (ℕ → Text) → Handle → ℕ → ℕ → PubSubFs B → PubSubFs B × FsResult Bytes
  unfolding receive answer_read get_info as_bytes read_at
  read date handle offset size m = elim (Map.get m.handles handle) [
    | none ↦ (m, err (invalid_handle handle))
    | some h ↦ elim h.handle_type [
      | readme_file bytes ↦ (m, read_at offset size bytes)
      | topic_info topic ↦ elim (Map.get m.store topic) [
        | none ↦ (m, no_topic)
        | some t ↦ (m, read_at offset size (as_bytes (get_info B date t)))
      ]
      | topic_publish topic ↦ (m, err (permission_denied (chars "cannot read from this handle")))
      | topic_subscribe s ↦ elim (Map.get m.store s.topic) [
        | none ↦ (m, no_topic)
        | some t ↦
            let (s', bytes) = answer_read offset size (receive t.sender s) in
            (with_subscription handle h s' m, bytes)
      ]
    ]
  ]

  unfoldable pub write : ℕ → Handle → Bytes → PubSubFs B → PubSubFs B × FsResult ℕ
  unfolding publish
  write now handle bytes m =
      let refused = err (permission_denied (chars "cannot write to this handle")) in
      elim (Map.get m.handles handle) [
        | none ↦ (m, err (invalid_handle handle))
        | some h ↦ elim h.handle_type [
          | readme_file _ ↦ (m, refused)
          | topic_info _ ↦ (m, refused)
          | topic_subscribe _ ↦ (m, refused)
          | topic_publish topic ↦ elim (Map.get m.store topic) [
            | none ↦ (m, err (internal (chars "no topic")))
            | some t ↦
                let (t', written) = publish B now bytes t in (with_topic B topic t' m, written)
          ]
        ]
      ]

  -- `unsubscribe` for the handle of a subscriber.
  unfoldable pub release : HandleType B → PubSubFs B → PubSubFs B
  unfolding unsubscribe
  release (topic_subscribe s) m = elim (Map.get m.store s.topic) [
    | none ↦ m
    | some t ↦ with_topic B s.topic (unsubscribe B s.subscriber_id t) m
  ]
  release _ m = m

  unfoldable pub close : Handle → PubSubFs B → PubSubFs B × FsResult (Unit {0})
  unfolding release
  close handle m = elim (Map.get m.handles handle) [
    | none ↦ (m, ok tt)
    | some h ↦ (release h.handle_type (record m { handles = Map.remove m.handles handle }), ok tt)
  ]

  -- The entries of the topics: each with its `.info` file.
  unfoldable pub infos : (ℕ → Text) → PubSubFs B → Map Text ℕ → List FileInfo
  unfolding topic_file_info info_file_info
  infos date m [] = []
  infos date m ((name, topic) ∷ topics) =
      let rest = infos date m topics in
      elim (Map.get m.store topic) [
        | none ↦ rest
        | some t ↦
            topic_file_info B (slash ∷ t.name) t.name t
            ∷ info_file_info B date (slash ∷ t.name ++ chars ".info") t.name t
            ∷ rest
      ]

  unfoldable pub readdir : (ℕ → Text) → Text → PubSubFs B → FsResult (List FileInfo)
  unfolding infos
  readdir date path m =
      let path' = normalize_path path in
      if path' == root
      then ok (readme_file_info ∷ infos date m m.topics)
      else err (not_directory path')

  -- The end of `remove`, for a path that is not for an `.info` file.
  unfoldable pub remove_topic : Text → PubSubFs B → PubSubFs B × FsResult (Unit {0})
  unfolding strip_slash
  remove_topic path m = elim (strip_slash path) [
    | none ↦ (m, err (not_found path))
    | some p ↦ elim (topic_place p) [
      | at_topic name ↦
          if Map.contains_key m.topics name
          then (record m { topics = Map.remove m.topics name }, ok tt)
          else (m, err (not_found path))
      | _ ↦ (m, err (not_found path))
    ]
  ]

  unfoldable pub remove : Text → PubSubFs B → PubSubFs B × FsResult (Unit {0})
  unfolding remove_topic strip_suffix
  remove path m =
      let path' = normalize_path path in
      if path' == root || path' == readme
      then (m, err (permission_denied (chars "cannot remove special files")))
      else if Map.is_some (strip_suffix path' (chars ".info"))
      then (
        m,
        err (
            permission_denied
              (chars ".info files cannot be deleted directly; delete the topic instead")),
      )
      else remove_topic path' m
