-- ===== src/Plugins/PubSubFs/Tracking.antt =====
-- A subscriber of a topic of plugins/pubsubfs/src/lib.rs and the text that it reads, at a write, at the
-- arrival of another subscriber and at a read.
use mathlib.Core.Path.{subst}
use mathlib.Core.List.{append-nil, append_assoc}
use fs.Base.{
  ℕ, ◌+◌, ◌%◌, ◌^◌, ◌<◌, ◌≤◌, nat_eq, ◌≡◌, refl, sym, ap, ◌∙◌, inl, inr, true, List, [], ◌∷◌, ◌++◌,
  arith, Bool-cases, length, length-append,
}
use fs.Sdk.Provider.{Bytes}
use fs.Plugins.Channel.{Broadcast}
use fs.Plugins.PubSubFs.Topic.{Message, Topic, add_message, subscribe, format}
use fs.Plugins.PubSubFs.Provider.{Subscription, subscription}
use fs.Plugins.PubSubFs.Calls.{format_all, receive_loop, send_historical, receive, answer_read}
use fs.Plugins.PubSubFs.Drains.{Kept, answer_read-drained, drained-Kept}

format_all-append : (a b : List Message) → format_all (a ++ b) ≡ format_all a ++ format_all b
format_all-append [] b = refl
format_all-append (msg ∷ a) b =
    ap (λ bytes. format msg ++ bytes) (format_all-append a b)
    ∙ sym (append_assoc (format msg) (format_all a) (format_all b))

module _ (B : Broadcast Message) where
  -- What was dropped from the buffer of the subscriber, what it has, and what waits for it are just the
  -- bytes of `text`; `waiting` messages wait.
  pub record Tracks (capacity waiting : ℕ) (text : Bytes) (state : Topic B × Subscription B)
      : Type 0 where
    pub size : B.capacity state.0.sender ≡ capacity
    pub member : B.IsSubscribed state.0.sender state.1.receiver
    pub count : length (B.pending state.0.sender state.1.receiver) ≡ waiting
    pub room : waiting ≤ capacity
    pub gone : Bytes
    pub base : state.1.buffer_offset ≡ length gone % 2 ^ 64
    pub whole :
        gone
          ++ ((send_historical B state.1).buffer
              ++ format_all (B.pending state.0.sender state.1.receiver))
        ≡ text

  pub subscription-Tracks :
      (now topic : ℕ) (t : Topic B)
      → Tracks (B.capacity t.sender) 0 (format_all t.ring_buffer) (subscription B now topic t)
  unfolding subscription subscribe send_historical
  subscription-Tracks now topic t = record {
    size = B.subscribe-capacity t.sender;
    member = B.subscribe-IsSubscribed t.sender;
    count = ap length (B.subscribe-pending t.sender);
    room = omega arith;
    gone = [];
    base = refl;
    whole =
        ap (λ values. format_all t.ring_buffer ++ format_all values) (B.subscribe-pending t.sender)
        ∙ append-nil (format_all t.ring_buffer);
  }

  receive_loop_lem :
      (values : List Message) (s : B.Sender) (r : B.Receiver) (buffer : Bytes)
      → B.IsSubscribed s r
      → B.pending s r ≡ values
      → length values ≤ B.capacity s
      → ((receive_loop B (length values) s r buffer).1 ≡ buffer ++ format_all values)
        × (B.pending s (receive_loop B (length values) s r buffer).0 ≡ [])
        × B.IsSubscribed s (receive_loop B (length values) s r buffer).0
  unfolding receive_loop
  receive_loop_lem [] s r buffer m e l = (sym (append-nil buffer), e, m)
  receive_loop_lem (value ∷ values) s r buffer m e l =
      let (got, rest) = B.try_recv-some s r value values m e (omega (arith, ap length e)) in
      let (text, none, kept) =
        receive_loop_lem values s (B.try_recv s r).0 (buffer ++ format value)
          (B.try_recv-IsSubscribed s r m) rest (omega arith) in
      rw (receive_loop, got)
        (text ∙ append_assoc buffer (format value) (format_all values), none, kept)

  -- A message that the channel has room for is put behind what is there to read.
  pub send-Tracks :
      (capacity waiting : ℕ) (text : Bytes) (now : ℕ) (msg : Message) (t : Topic B)
      → (s : Subscription B) → Tracks capacity waiting text (t, s)
      → waiting < capacity
      → Tracks capacity (waiting + 1) (text ++ format msg) (add_message B now msg t, s)
  unfolding add_message
  send-Tracks capacity waiting text now msg t s w h =
      let sent : B.pending (B.send msg t.sender) s.receiver
          ≡ B.pending t.sender s.receiver ++ msg ∷ [] =
        B.send-pending msg t.sender s.receiver w.member in
      let old = B.pending t.sender s.receiver in
      record {
        size = B.send-capacity msg t.sender ∙ w.size;
        member = B.send-IsSubscribed msg t.sender s.receiver w.member;
        count = ap length sent ∙ omega (arith, length-append old (msg ∷ []), w.count);
        room = omega arith;
        gone = w.gone;
        base = w.base;
        whole =
            ap (λ values. w.gone ++ ((send_historical B s).buffer ++ format_all values)) sent
            ∙ ap (λ bytes. w.gone ++ ((send_historical B s).buffer ++ bytes))
                (format_all-append old (msg ∷ [])
                  ∙ ap (λ b. format_all old ++ b) (append-nil (format msg)))
            ∙ ap (λ bytes. w.gone ++ bytes)
                (sym (append_assoc (send_historical B s).buffer (format_all old) (format msg)))
            ∙ sym
                (append_assoc w.gone ((send_historical B s).buffer ++ format_all old) (format msg))
            ∙ ap (λ bytes. bytes ++ format msg) w.whole;
      }

  send_historical-receiver : (s : Subscription B) → (send_historical B s).receiver ≡ s.receiver
  unfolding send_historical
  send_historical-receiver s = elim (Bool-cases s.historical_sent) [
    | inl e ↦ rw (send_historical, e) refl
    | inr e ↦ rw (send_historical, e) refl
  ]

  send_historical-sent : (s : Subscription B) → (send_historical B s).historical_sent ≡ true
  unfolding send_historical
  send_historical-sent s = elim (Bool-cases s.historical_sent) [
    | inl e ↦ rw (send_historical, e) refl
    | inr e ↦ rw (send_historical, e) refl
  ]

  sent-buffer :
      (s : Subscription B) → s.historical_sent ≡ true → (send_historical B s).buffer ≡ s.buffer
  unfolding send_historical
  sent-buffer s e = rw (send_historical, e) refl

  send_historical-offset :
      (s : Subscription B) → (send_historical B s).buffer_offset ≡ s.buffer_offset
  unfolding send_historical
  send_historical-offset s = elim (Bool-cases s.historical_sent) [
    | inl e ↦ rw (send_historical, e) refl
    | inr e ↦ rw (send_historical, e) refl
  ]

  pub receive-offset :
      (sender : B.Sender) (s : Subscription B)
      → (receive B sender s).buffer_offset ≡ s.buffer_offset
  unfolding receive
  receive-offset sender s = send_historical-offset s

  -- Nothing waits for the subscriber: what was dropped from its buffer and what it has are the text.
  pub record IsCurrent (capacity : ℕ) (text : Bytes) (t : Topic B) (s : Subscription B)
      : Type 0 where
    pub size : B.capacity t.sender ≡ capacity
    pub member : B.IsSubscribed t.sender s.receiver
    pub none_waits : B.pending t.sender s.receiver ≡ []
    pub sent : s.historical_sent ≡ true
    pub kept : Kept B text s

  pub IsCurrent-Tracks :
      (capacity : ℕ) (text : Bytes) (t : Topic B) (s : Subscription B)
      → IsCurrent capacity text t s
      → Tracks capacity 0 text (t, s)
  IsCurrent-Tracks capacity text t s c = record {
    size = c.size;
    member = c.member;
    count = ap length c.none_waits;
    room = omega arith;
    gone = c.kept.gone;
    base = c.kept.base;
    whole =
        ap (λ values. c.kept.gone ++ ((send_historical B s).buffer ++ format_all values))
          c.none_waits
        ∙ ap (λ bytes. c.kept.gone ++ bytes) (append-nil _ ∙ sent-buffer s c.sent)
        ∙ c.kept.whole;
  }

  -- A read takes all that waits into its buffer.
  pub receive-IsCurrent :
      (capacity waiting : ℕ) (text : Bytes) (t : Topic B) (s : Subscription B)
      → Tracks capacity waiting text (t, s)
      → IsCurrent capacity text t (receive B t.sender s)
  unfolding receive
  receive-IsCurrent capacity waiting text t s w =
      let s' = send_historical B s in
      let same = send_historical-receiver s in
      let few : length (B.pending t.sender s'.receiver) ≤ B.capacity t.sender =
        omega (arith, ap (λ r. length (B.pending t.sender r)) same, w.count, w.size, w.room) in
      let (read, none, kept) =
        receive_loop_lem (B.pending t.sender s'.receiver) t.sender s'.receiver s'.buffer
          (subst (λ r. B.IsSubscribed t.sender r) (sym same) w.member) refl few in
      record {
        size = w.size;
        member = kept;
        none_waits = none;
        sent = send_historical-sent s;
        kept = record {
          gone = w.gone;
          base = send_historical-offset s ∙ w.base;
          whole =
              ap (λ bytes. w.gone ++ bytes)
                (read ∙ ap (λ r. s'.buffer ++ format_all (B.pending t.sender r)) same)
              ∙ w.whole;
        };
      }

  pub answer_read-IsCurrent :
      (capacity : ℕ) (text : Bytes) (t : Topic B) (s : Subscription B) (offset size : ℕ)
      → IsCurrent capacity text t s
      → IsCurrent capacity text t (answer_read B offset size s).0
  answer_read-IsCurrent capacity text t s offset size c =
      elim (answer_read-drained B offset size s) [
        | inl e ↦ subst (IsCurrent capacity text t) (sym e) c
        | inr (n, h, e) ↦ subst (IsCurrent capacity text t) (sym e) (record {
          size = c.size;
          member = c.member;
          none_waits = c.none_waits;
          sent = c.sent;
          kept = drained-Kept B text n s h c.kept;
        })
      ]
