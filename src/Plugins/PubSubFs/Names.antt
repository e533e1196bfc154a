-- ===== src/Plugins/PubSubFs/Names.antt =====
-- The names in the directory of plugins/pubsubfs/src/lib.rs: the README, topics and their `.info` files.
use fs.Base.{
  ℕ, ◌||◌, Option, none, some, [], ◌∷◌, if◌then◌else◌, ◌==◌, eqb, nat_eq, length, Text, chars,
  lines, text_eq, root, slash, contains, is_empty,
}
use mathlib.Core.Option
use fs.Base.Utf8.{as_bytes}
use fs.Sdk.Types.{FileInfo, regular, directory}

abbrev pub readme_content : Text
readme_content = lines (
    chars "PubSubFS - Publish/Subscribe File System Plugin"
    ∷ []
    ∷ chars "A topic-based pub/sub system inspired by Unix pipes: everything is a file."
    ∷ []
    ∷ chars "FILE STRUCTURE:"
    ∷ chars "  /pubsub/"
    ∷ chars "    README            # This documentation"
    ∷ chars "    chat              # Topic file: read=subscribe, write=publish"
    ∷ chars "    chat.info         # Topic metadata (subscribers, messages, etc)"
    ∷ chars "    logs              # Another topic"
    ∷ chars "    logs.info         # Its metadata"
    ∷ chars "    events            # Yet another topic"
    ∷ chars "    events.info       # Its metadata"
    ∷ []
    ∷ chars "USAGE:"
    ∷ chars "  # Create a topic (auto-created on first write)"
    ∷ chars "  echo \"hello\" > /pubsub/chat"
    ∷ []
    ∷ chars "  # List all topics"
    ∷ chars "  ls /pubsub"
    ∷ []
    ∷ chars "  # Publish messages (write mode)"
    ∷ chars "  echo \"hello world\" > /pubsub/chat"
    ∷ chars "  echo '{\"level\":\"info\"}' > /pubsub/logs"
    ∷ []
    ∷ chars "  # Subscribe to messages (read mode - streaming)"
    ∷ chars "  cat /pubsub/chat"
    ∷ chars "  tail -f /pubsub/chat           # Recommended: last N + follow"
    ∷ []
    ∷ chars "  # View topic info"
    ∷ chars "  cat /pubsub/chat.info"
    ∷ []
    ∷ chars "  # Delete a topic"
    ∷ chars "  rm /pubsub/chat"
    ∷ []
    ∷ chars "  # Subscribe with processing"
    ∷ chars "  tail -f /pubsub/logs | grep ERROR > /errors.log &"
    ∷ []
    ∷ chars "FEATURES:"
    ∷ chars "  - Simple pipe-like interface: read=subscribe, write=publish"
    ∷ chars "  - Multiple publishers and subscribers per topic"
    ∷ chars "  - Ring buffer for late joiners (configurable size)"
    ∷ chars "  - Real-time message broadcast"
    ∷ chars "  - Topic statistics via .info files"
    ∷ chars "  - Auto-create topics on first write"
    ∷ []
    ∷ chars "NOTES:"
    ∷ chars "  - Messages are in-memory only (not persistent)"
    ∷ chars "  - Each message is broadcast to all active subscribers"
    ∷ chars "  - Ring buffer stores recent messages for new subscribers"
    ∷ chars "  - Path is short and intuitive: /pubsub/chat vs /pubsub/topics/chat/pub"
    ∷ [])

abbrev pub readme : Text
readme = chars "/README"

unfoldable pub readme_file_info : FileInfo
unfolding as_bytes
readme_file_info = record {
  path = readme;
  size = length (as_bytes readme_content);
  file_type = regular;
  mode = 0o444;
  uid = 0;
  gid = 0;
  atime = 0;
  mtime = 0;
  ctime = 0;
  etag = chars "readme";
  symlink_target = none;
}

unfoldable pub root_info : ℕ → FileInfo
root_info now = record {
  path = root;
  size = 0;
  file_type = directory;
  mode = 0o755;
  uid = 0;
  gid = 0;
  atime = now;
  mtime = now;
  ctime = now;
  etag = chars "root";
  symlink_target = none;
}

-- `str::strip_prefix('/')`
unfoldable pub strip_slash : Text → Option Text
strip_slash [] = none
strip_slash (c ∷ s) = if eqb c slash then some s else none

-- `str::strip_suffix`
unfoldable pub strip_suffix : Text → Text → Option Text
strip_suffix [] suffix = if is_empty suffix then some [] else none
strip_suffix (c ∷ s) suffix =
    let rest = Option.map (λ t. c ∷ t) (strip_suffix s suffix) in
    if (c ∷ s) == suffix then some [] else rest

-- What a path is for `stat` and `open`, in the order of their tests.
pub data Place : Type 0 where
  at_readme : Place
  at_info at_topic : Text → Place
  nowhere : Place

-- The name of a topic of a path that is not for its `.info` file.
abbrev pub topic_place : Text → Place
topic_place name = if is_empty name || contains name slash then nowhere else at_topic name

unfoldable pub place : Text → Place
unfolding strip_slash strip_suffix
place path = if path == readme then at_readme else elim (strip_slash path) [
  | none ↦ nowhere
  | some p ↦ elim (strip_suffix p (chars ".info")) [
    | some name ↦ at_info name
    | none ↦ topic_place p
  ]
]
