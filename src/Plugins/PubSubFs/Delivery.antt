-- ===== src/Plugins/PubSubFs/Delivery.antt =====
-- What a subscriber of a topic of plugins/pubsubfs/src/lib.rs reads: the messages of the ring from when
-- it subscribed, and then each message that is published, once and in order.
use mathlib.Core.Path.{subst}
use mathlib.Core.List.{append-nil, append_assoc}
use fs.Base.{
  ℕ, ◌+◌, ◌^◌, ◌<◌, ◌≤◌, nat_eq, take, drop, ◌≡◌, refl, sym, ap, ◌∙◌, inl, inr, Bool, true, false,
  ◌&&◌, List, [], ◌∷◌, ◌++◌, arith, ltb, ltb→lt, if◌then◌else◌, Bool-cases, length,
}
use fs.Sdk.Provider.{Bytes}
use fs.Plugins.Channel.{Broadcast}
use fs.Plugins.PubSubFs.Topic.{
  Message, Topic, new_message, publish, add_message, subscribe, unsubscribe, max_message_size,
  format,
}
use fs.Plugins.PubSubFs.Provider.{Subscription, subscription}
use fs.Plugins.PubSubFs.Calls.{format_all, send_historical, receive, answer_read}
use fs.Plugins.PubSubFs.Drains.{answer_read-text}
use fs.Sdk.Error.{ok}
use fs.Plugins.PubSubFs.Tracking.{
  Tracks, subscription-Tracks, send-Tracks, receive-offset, IsCurrent-Tracks, receive-IsCurrent,
  answer_read-IsCurrent,
}

-- What happens to a topic while a subscriber has it open: a write, another subscriber that comes or
-- goes, and a read by the subscriber itself at an offset and of a size.
pub data Event : Type 0 where
  published : ℕ → Bytes → Event
  joined left : ℕ → Event
  taken : ℕ → ℕ → Event

-- The messages of the writes that are not too large.
abbrev pub messages : List Event → List Message
messages [] = []
messages (published now bytes ∷ events) =
    let rest = messages events in
    if ltb max_message_size (length bytes) then rest else new_message now bytes ∷ rest
messages (joined now ∷ events) = messages events
messages (left id ∷ events) = messages events
messages (taken offset size ∷ events) = messages events

-- The channel never has to hold more than `capacity` messages for the subscriber, where `waiting` are
-- there.
abbrev pub keeps_up : ℕ → ℕ → List Event → Bool
keeps_up capacity waiting [] = true
keeps_up capacity waiting (published now bytes ∷ events) =
    let rest = keeps_up capacity waiting events in
    let more = keeps_up capacity (waiting + 1) events in
    if ltb max_message_size (length bytes) then rest else ltb waiting capacity && more
keeps_up capacity waiting (joined now ∷ events) = keeps_up capacity waiting events
keeps_up capacity waiting (left id ∷ events) = keeps_up capacity waiting events
keeps_up capacity waiting (taken offset size ∷ events) = keeps_up capacity 0 events

both-true : (a b : Bool) → (a && b) ≡ true → (a ≡ true) × (b ≡ true)
both-true true true h = (refl, refl)
both-true true false h = cc
both-true false b h = cc

module _ (B : Broadcast Message) where
  abbrev pub step : Event → Topic B × Subscription B → Topic B × Subscription B
  step (published now bytes) (t, s) = ((publish B now bytes t).0, s)
  step (joined now) (t, s) = ((subscribe B now t).0, s)
  step (left id) (t, s) = (unsubscribe B id t, s)
  step (taken offset size) (t, s) = (t, (answer_read B offset size (receive B t.sender s)).0)

  abbrev pub run : List Event → Topic B × Subscription B → Topic B × Subscription B
  run [] state = state
  run (event ∷ events) state = run events (step event state)

  run-Tracks :
      (events : List Event) (capacity waiting : ℕ) (text : Bytes)
      → (state : Topic B × Subscription B) → Tracks B capacity waiting text state
      → keeps_up capacity waiting events ≡ true
      → (n : ℕ) × Tracks B capacity n (text ++ format_all (messages events)) (run events state)
  unfolding publish subscribe unsubscribe
  run-Tracks [] capacity waiting text state w h =
      (waiting, subst (λ bytes. Tracks B capacity waiting bytes state) (sym (append-nil text)) w)
  run-Tracks (published now bytes ∷ events) capacity waiting text (t, s) w h =
      elim (Bool-cases (ltb max_message_size (length bytes))) [
        | inl large ↦
            rw (publish, large) (run-Tracks events capacity waiting text (t, s) w (rw large at h))
        | inr small ↦
            let msg = new_message now bytes in
            let t' = add_message B now msg t in
            let (room, rest) =
              both-true (ltb waiting capacity) (keeps_up capacity (waiting + 1) events)
                (rw small at h) in
            let w' : Tracks B capacity (waiting + 1) (text ++ format msg) (t', s) =
              send-Tracks B capacity waiting text now msg t s w (ltb→lt waiting capacity room) in
            let (n, v) =
              run-Tracks events capacity (waiting + 1) (text ++ format msg) (t', s) w' rest in
            rw (publish, small)
              (
                n,
                subst (λ b. Tracks B capacity n b (run events (t', s)))
                    (append_assoc text (format msg) (format_all (messages events))) v,
              )
      ]
  run-Tracks (joined now ∷ events) capacity waiting text (t, s) w h =
      let (member, same) = B.subscribe-others t.sender s.receiver w.member in
      run-Tracks events capacity waiting text ((subscribe B now t).0, s)
        (record {
          size = B.subscribe-capacity t.sender ∙ w.size;
          member = member;
          count = ap length same ∙ w.count;
          room = w.room;
          gone = w.gone;
          base = w.base;
          whole =
              ap (λ values. w.gone ++ ((send_historical B s).buffer ++ format_all values)) same
              ∙ w.whole;
        })
        h
  run-Tracks (left id ∷ events) capacity waiting text (t, s) w h =
      run-Tracks events capacity waiting text (unsubscribe B id t, s)
        (record {
          size = w.size;
          member = w.member;
          count = w.count;
          room = w.room;
          gone = w.gone;
          base = w.base;
          whole = w.whole;
        })
        h
  run-Tracks (taken offset size ∷ events) capacity waiting text (t, s) w h =
      let current = receive-IsCurrent B capacity waiting text t s w in
      let s' = receive B t.sender s in
      run-Tracks events capacity 0 text (t, (answer_read B offset size s').0)
        (IsCurrent-Tracks B capacity text t _
          (answer_read-IsCurrent B capacity text t s' offset size current))
        h

  -- As long as the channel never has to hold more than its capacity for a subscriber, a read of
  -- the subscriber within 64 bits answers with the bytes from its offset on, as many as it asks
  -- for or as there are, of one text of less than 2^64 bytes: the messages that the ring had when
  -- it subscribed and each one that was accepted since, once and in order, whatever writes, reads
  -- and other subscribers came between. The offset is not below the bytes that earlier reads have
  -- dropped.
  pub receive-run :
      (now topic : ℕ) (t : Topic B) (events : List Event) (offset size : ℕ)
      → keeps_up (B.capacity t.sender) 0 events ≡ true
      → length (format_all t.ring_buffer ++ format_all (messages events)) < 2 ^ 64
      → offset + size < 2 ^ 64
      → (run events (subscription B now topic t)).1.buffer_offset ≤ offset
      → let (t', s) = run events (subscription B now topic t) in
        (answer_read B offset size (receive B t'.sender s)).1
        ≡ ok (take size (drop offset (format_all t.ring_buffer ++ format_all (messages events))))
  receive-run now topic t events offset size h b f l =
      let text = format_all t.ring_buffer ++ format_all (messages events) in
      let (n, w) =
        run-Tracks events (B.capacity t.sender) 0 (format_all t.ring_buffer)
          (subscription B now topic t) (subscription-Tracks B now topic t) h in
      let (t', s) = run events (subscription B now topic t) in
      let current = receive-IsCurrent B (B.capacity t.sender) n text t' s w in
      answer_read-text B text offset size (receive B t'.sender s) current.kept b f
        (omega (arith, receive-offset B t'.sender s, l))
