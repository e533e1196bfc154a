-- ===== src/Tests/Topics.antt =====
-- Topics of plugins/pubsubfs/src/lib.rs over a channel of bounded size.
use fs.Base.{
  ◌<◌, ◌≤◌, take, drop, arith, ◌≡◌, refl, List, [], ◌∷◌, ◌++◌, length, chars, ◌%◌, ◌^◌, ℕ,
}
use fs.Sdk.Error.{ok}
use fs.Sdk.Provider.{Bytes}
use fs.Plugins.Channel.{Broadcast}
use fs.Plugins.PubSubFs.Topic
use fs.Plugins.PubSubFs.Topic.{
  Message, Topic, format, new_message, without_newline, publish, add_message, subscribe,
  unsubscribe,
}
use fs.Plugins.StreamFs.Calls.{slice_at}
use fs.Plugins.PubSubFs.Provider.{subscription}
use fs.Plugins.PubSubFs.Calls.{format_all, receive, answer_read, send_historical, receive_loop}
use fs.Plugins.PubSubFs.Ring.{publish_all, accepted, last, places, publish_all_lem}
use fs.Plugins.PubSubFs.Delivery.{Event, published, joined, left, taken, messages, run, receive-run}
use fs.Tests.Channels.{bounded}

abbrev topics : Broadcast Message
topics = bounded Message

abbrev chat : Topic topics
chat = record {
  name = chars "chat";
  created_at = 7;
  mtime = 7;
  ring_buffer = [];
  ring_size = 2;
  total_messages = 0;
  sender = topics.channel 3;
  subscribers = [];
  next_subscriber_id = 1;
}

fresh : Topic.new topics 7 (chars "chat") 2 3 ≡ ok chat
unfolding Topic.new
fresh = refl

abbrev writes : List (ℕ × Bytes)
writes = (8, chars "a") ∷ (9, chars "b") ∷ (10, chars "c") ∷ []

publish_all_lem_example :
    ((publish_all topics writes chat).ring_buffer ≡ last (places 2) (accepted writes))
    × ((publish_all topics writes chat).total_messages ≡ length (accepted writes) % 2 ^ 64)
publish_all_lem_example = publish_all_lem topics 7 (chars "chat") 2 3 chat writes fresh

-- Two messages wait at most.
abbrev events : List Event
events =
    published 8 (chars "a")
    ∷ joined 9
    ∷ published 10 (chars "b")
    ∷ taken 0 5
    ∷ left 2
    ∷ published 11 (chars "c")
    ∷ []

short : length (format_all chat.ring_buffer ++ format_all (messages events)) < 2 ^ 64
unfolding format new_message without_newline
short = omega arith

nothing_dropped : (run topics events (subscription topics 8 0 chat)).1.buffer_offset ≤ 2
unfolding format new_message without_newline publish add_message subscribe unsubscribe subscription
    receive answer_read slice_at send_historical receive_loop
nothing_dropped = omega arith

receive-run_example :
    let (t, s) = run topics events (subscription topics 8 0 chat) in
    (answer_read topics 2 9 (receive topics t.sender s)).1
    ≡ ok (take 9 (drop 2 (format_all [] ++ format_all (messages events))))
receive-run_example =
    receive-run topics 8 0 chat events 2 9 refl short (omega arith) nothing_dropped
