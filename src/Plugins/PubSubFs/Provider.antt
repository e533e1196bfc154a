-- ===== src/Plugins/PubSubFs/Provider.antt =====
-- `PubSubFsProvider` of plugins/pubsubfs/src/lib.rs: its state, `stat` and `open`. A topic stays in use
-- by its handles after it has lost its name: `store` holds the topics by identity, `topics` the
-- identities by name. The listing of a `HashMap`, which has no order, is in the order of creation here.
use fs.Base.{
  ℕ, ◌+◌, ◌%◌, ◌^◌, Bool, ◌&&◌, false, Option, none, some, List, [], ◌++◌, if◌then◌else◌, ◌==◌,
  nat_eq, length, Text, chars, text_eq, root,
}
use fs.Base.Utf8.{as_bytes}
use fs.Base.Map
use fs.Base.Map.{Map}
use fs.Sdk.Error.{ok, FsResult, err, not_found, permission_denied, invalid_argument, panic, ◌>>=◌}
use fs.Sdk.Types.{FileInfo, OpenFlags, regular}
use fs.Sdk.Provider.{Handle, Bytes}
use fs.Core.Paths.{normalize_path}
use fs.Plugins.Channel.{Broadcast}
use fs.Plugins.PubSubFs.Names.{
  at_readme, at_info, at_topic, nowhere, place, readme_content, readme_file_info, root_info,
}
use fs.Plugins.PubSubFs.Topic
use fs.Plugins.PubSubFs.Topic.{Message, Topic, PubSubFsConfig, get_info, subscribe}

module _ (B : Broadcast Message) where
  pub record Subscription : Type 0 where
    pub topic : ℕ
    pub subscriber_id : ℕ
    pub receiver : B.Receiver
    pub buffer : Bytes
    pub buffer_offset : ℕ
    pub historical_sent : Bool
    pub historical : List Message
    pub historical_index : ℕ

  pub data HandleType : Type 0 where
    readme_file : Bytes → HandleType
    topic_info topic_publish : ℕ → HandleType
    topic_subscribe : Subscription → HandleType

  pub record PubSubHandle : Type 0 where
    pub id : ℕ
    pub path : Text
    pub handle_type : HandleType

  pub record PubSubFs : Type 0 where
    pub store : Map ℕ (Topic B)
    pub next_topic : ℕ
    pub topics : Map Text ℕ
    pub ring_size : ℕ
    pub channel_size : ℕ
    pub handles : Map ℕ PubSubHandle
    pub next_handle_id : ℕ

  unfoldable pub new : PubSubFsConfig → PubSubFs
  new config = record {
    store = [];
    next_topic = 0;
    topics = [];
    ring_size = config.ring_size;
    channel_size = config.channel_size;
    handles = [];
    next_handle_id = 1;
  }

  -- The topic of a name, with its identity.
  abbrev pub topic_named : Text → PubSubFs → Option (ℕ × Topic B)
  topic_named name m = elim (Map.get m.topics name) [
    | none ↦ none
    | some topic ↦ elim (Map.get m.store topic) [ none ↦ none | some t ↦ some (topic, t) ]
  ]

  abbrev pub with_topic : ℕ → Topic B → PubSubFs → PubSubFs
  with_topic topic t m = record m { store = Map.insert m.store topic t }

  unfoldable pub create_topic_if_needed : ℕ → Text → PubSubFs → PubSubFs × FsResult ℕ
  unfolding Topic.new
  create_topic_if_needed now name m = elim (topic_named name m) [
    | some (topic, t) ↦ (m, ok topic)
    | none ↦ elim (Topic.new B now name m.ring_size m.channel_size) [
      | err e ↦ (m, err e)
      | panic ↦ (m, panic)
      | ok t ↦ (
        record m {
          store = Map.insert m.store m.next_topic t;
          next_topic = m.next_topic + 1;
          topics = Map.insert m.topics name m.next_topic;
        },
        ok m.next_topic,
      )
    ]
  ]

  unfoldable pub topic_file_info : Text → Text → Topic B → FileInfo
  topic_file_info path name t = record {
    path = path;
    size = 0;
    file_type = regular;
    mode = 0o600;
    uid = 0;
    gid = 0;
    atime = t.mtime;
    mtime = t.mtime;
    ctime = t.created_at;
    etag = chars "topic-" ++ name;
    symlink_target = none;
  }

  module _ (date : ℕ → Text) where
    unfoldable pub info_file_info : Text → Text → Topic B → FileInfo
    unfolding as_bytes get_info
    info_file_info path name t = record {
      path = path;
      size = length (as_bytes (get_info B date t));
      file_type = regular;
      mode = 0o444;
      uid = 0;
      gid = 0;
      atime = t.mtime;
      mtime = t.mtime;
      ctime = t.created_at;
      etag = chars "info-" ++ name;
      symlink_target = none;
    }

    unfoldable pub stat : ℕ → Text → PubSubFs → FsResult FileInfo
    unfolding place topic_file_info info_file_info
    stat now path m =
        let path' = normalize_path path in
        if path' == root then ok (root_info now) else elim (place path') [
          | at_readme ↦ ok readme_file_info
          | at_info name ↦ elim (topic_named name m) [
            | none ↦ err (not_found path')
            | some (topic, t) ↦ ok (info_file_info path' name t)
          ]
          | at_topic name ↦ elim (topic_named name m) [
            | none ↦ err (not_found path')
            | some (topic, t) ↦ ok (topic_file_info path' name t)
          ]
          | nowhere ↦ err (not_found path')
        ]

  -- A new handle on a topic to read what is published.
  unfoldable pub subscription : ℕ → ℕ → Topic B → Topic B × Subscription
  unfolding subscribe
  subscription now topic t =
      let (t', subscriber_id, receiver, historical) = subscribe B now t in
      (
        t',
        record {
          topic = topic;
          subscriber_id = subscriber_id;
          receiver = receiver;
          buffer = [];
          buffer_offset = 0;
          historical_sent = false;
          historical = historical;
          historical_index = 0;
        },
      )

  unfoldable pub open_topic : ℕ → Text → OpenFlags → PubSubFs → PubSubFs × FsResult HandleType
  unfolding create_topic_if_needed subscription
  open_topic now name flags m =
      let (m', created) = create_topic_if_needed now name m in
      if flags.read && flags.write
      then (
        m,
        err (
            invalid_argument
              (chars "cannot open a topic for both read (subscribe) and write (publish)")),
      )
      else if flags.write
      then (m', created >>= (λ topic. ok (topic_publish topic)))
      else if flags.read
      then elim (topic_named name m) [
        | none ↦ (m, err (not_found name))
        | some (topic, t) ↦
            let (t', s) = subscription now topic t in
            (with_topic topic t' m, ok (topic_subscribe s))
      ]
      else (m, err (invalid_argument (chars "must specify read or write mode")))

  -- The first part of `open`: what the handle is for.
  unfoldable pub open_place : ℕ → Text → OpenFlags → PubSubFs → PubSubFs × FsResult HandleType
  unfolding place open_topic
  open_place now path flags m = elim (place path) [
    | at_readme ↦
        if flags.write
        then (m, err (permission_denied (chars "README is read-only")))
        else (m, ok (readme_file (as_bytes readme_content)))
    | at_info name ↦
        if flags.write
        then (m, err (permission_denied (chars ".info files are read-only")))
        else elim (topic_named name m) [
          | none ↦ (m, err (not_found name))
          | some (topic, t) ↦ (m, ok (topic_info topic))
        ]
    | at_topic name ↦ open_topic now name flags m
    | nowhere ↦ (m, err (not_found path))
  ]

  -- The number of the handle is taken before the path is looked at.
  unfoldable pub open_file :
      (ℕ → Text) → ℕ → Text → OpenFlags → PubSubFs → PubSubFs × FsResult (Handle × FileInfo)
  unfolding open_place stat
  open_file date now path flags m =
      let path' = normalize_path path in
      let id = m.next_handle_id in
      let (m', opened) =
        open_place now path' flags (record m { next_handle_id = (id + 1) % 2 ^ 64 }) in
      elim opened [
        | err e ↦ (m', err e)
        | panic ↦ (m', panic)
        | ok handle_type ↦ elim (stat date now path' m') [
          | err e ↦ (m', err e)
          | panic ↦ (m', panic)
          | ok info ↦
              let h : PubSubHandle = record { id = id; path = path'; handle_type = handle_type } in
              (record m' { handles = Map.insert m'.handles id h }, ok (id, info))
        ]
      ]
