-- ===== src/Plugins/PubSubFs/Topic.antt =====
-- `Message` and `Topic` of plugins/pubsubfs/src/lib.rs. A call reads the clock once.
use fs.Base.{
  ℕ, ◌+◌, ◌%◌, ◌^◌, ◌*◌, List, [], ◌∷◌, ◌++◌, eqb, leb, ltb, if◌then◌else◌, length, Text, chars,
  nat_eq, is_empty, ◌&&◌, String,
}
use fs.Base.Map.{Map}
use fs.Base.Map
use fs.Base.Decimal.{decimal}
use fs.Sdk.Error.{FsResult, ok, err, invalid_argument, panic}
use fs.Sdk.Provider.{Bytes}
use fs.Plugins.Channel.{Broadcast}

abbrev pub default_ring_size : ℕ
default_ring_size = 100

abbrev pub default_channel_size : ℕ
default_channel_size = 100

-- `MAX_MESSAGE_SIZE`
abbrev pub max_message_size : ℕ
max_message_size = 1024 * 1024

pub record PubSubFsConfig : Type 0 where
  pub ring_size : ℕ
  pub channel_size : ℕ

-- `PubSubFsConfig::default()`
abbrev pub default_config : PubSubFsConfig
default_config = record { ring_size = default_ring_size; channel_size = default_channel_size }

abbrev pub newline : ℕ
newline = 10

pub record Message : Type 0 where
  pub timestamp : ℕ
  pub bytes : Bytes

-- The data without a newline at its end.
unfoldable pub without_newline : Bytes → Bytes
without_newline [] = []
without_newline (b ∷ bytes) =
    let rest = without_newline bytes in if is_empty bytes && (eqb b newline) then [] else b ∷ rest

unfoldable pub new_message : ℕ → Bytes → Message
unfolding without_newline
new_message now bytes = record { timestamp = now; bytes = without_newline bytes }

unfoldable pub format : Message → Bytes
format msg = msg.bytes ++ newline ∷ []

pub record SubscriberInfo : Type 0 where
  pub id : ℕ
  pub subscribed_at : ℕ

-- `VecDeque::pop_front`
abbrev pub pop_front : List Message → List Message
pop_front [] = []
pop_front (msg ∷ ring) = ring

-- The ring after one more message.
unfoldable pub push_ring : ℕ → Message → List Message → List Message
push_ring ring_size msg ring =
    (if leb ring_size (length ring) then pop_front ring else ring) ++ msg ∷ []

module _ (B : Broadcast Message) where
  pub record Topic : Type 0 where
    pub name : Text
    pub created_at : ℕ
    pub mtime : ℕ
    pub ring_buffer : List Message
    pub ring_size : ℕ
    pub total_messages : ℕ
    pub sender : B.Sender
    pub subscribers : Map ℕ SubscriberInfo
    pub next_subscriber_id : ℕ

  -- A channel of size 0 panics.
  unfoldable pub new : ℕ → Text → ℕ → ℕ → FsResult Topic
  new now name ring_size channel_size =
      if eqb channel_size 0
      then panic
      else ok (record {
        name = name;
        created_at = now;
        mtime = now;
        ring_buffer = [];
        ring_size = ring_size;
        total_messages = 0;
        sender = B.channel channel_size;
        subscribers = [];
        next_subscriber_id = 1;
      })

  -- The topic after a message that is not too large.
  unfoldable pub add_message : ℕ → Message → Topic → Topic
  unfolding push_ring
  add_message now msg t = record t {
    mtime = now;
    ring_buffer = push_ring t.ring_size msg t.ring_buffer;
    total_messages = (t.total_messages + 1) % 2 ^ 64;
    sender = B.send msg t.sender;
  }

  unfoldable pub publish : ℕ → Bytes → Topic → Topic × FsResult ℕ
  unfolding new_message add_message
  publish now bytes t =
      let msg = new_message now bytes in
      if ltb max_message_size (length bytes)
      then (
        t,
        err (
            invalid_argument (
              chars "message too large: "
              ++ decimal (length bytes)
              ++ chars " > "
              ++ decimal max_message_size)),
      )
      else (add_message now msg t, ok (length msg.bytes))

  -- The number of the subscriber, its receiver and the messages of the ring.
  unfoldable pub subscribe : ℕ → Topic → Topic × ℕ × B.Receiver × List Message
  subscribe now t =
      let id = t.next_subscriber_id in
      let (sender, receiver) = B.subscribe t.sender in
      (
        record t {
          sender = sender;
          subscribers = Map.insert t.subscribers id (record { id = id; subscribed_at = now });
          next_subscriber_id = (id + 1) % 2 ^ 64;
        },
        id,
        receiver,
        t.ring_buffer,
      )

  unfoldable pub unsubscribe : ℕ → Topic → Topic
  unsubscribe subscriber_id t = record t { subscribers = Map.remove t.subscribers subscriber_id }

  abbrev line : String → Text → Text
  line key value = chars key ++ value ++ newline ∷ []

  -- `date` stands for the format of dates of the crate chrono.
  unfoldable pub get_info : (ℕ → Text) → Topic → Text
  get_info date t =
      line "name: " t.name
      ++ line "subscribers: " (decimal (length t.subscribers))
      ++ line "messages: " (decimal t.total_messages)
      ++ line "ring_size: " (decimal t.ring_size)
      ++ line "created: " (date t.created_at)
      ++ line "modified: " (date t.mtime)
