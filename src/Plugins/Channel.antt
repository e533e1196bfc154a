-- ===== src/Plugins/Channel.antt =====
-- The broadcast channel of tokio, as plugins/streamfs/src/lib.rs and plugins/pubsubfs/src/lib.rs use it.
-- The laws say what its documentation promises of a receiver that is subscribed: it gets the values that
-- are sent after it has subscribed, in their order and each one once. A receiver that falls behind by more
-- values than the channel holds is told so once, has lost the oldest ones, and goes on with those that the
-- channel still holds.
use fs.Base.{ℕ, ◌-◌, ◌<◌, ◌≤◌, ◌≡◌, List, [], ◌∷◌, ◌++◌, length, drop}

-- The answer of `try_recv`.
pub data TryRecv (V : Type 0) : Type 0 where
  received : V → TryRecv V
  empty lagged closed : TryRecv V

pub record Broadcast (V : Type 0) : Type 1 where
  pub Sender : Type 0
  pub Receiver : Type 0
  pub channel : ℕ → Sender
  pub send : V → Sender → Sender
  pub subscribe : Sender → Sender × Receiver
  pub try_recv : Sender → Receiver → Receiver × TryRecv V
  -- How many values a channel holds.
  pub capacity : Sender → ℕ
  -- What was sent since the value that a receiver got last, lost values included.
  pub pending : Sender → Receiver → List V
  -- The receiver is one of this channel.
  pub IsSubscribed : Sender → Receiver → Type 0
  -- A channel may hold more than it was asked to.
  pub channel-capacity : (n : ℕ) → n ≤ capacity (channel n)
  pub subscribe-IsSubscribed : (s : Sender) → IsSubscribed (subscribe s).0 (subscribe s).1
  pub subscribe-pending : (s : Sender) → pending (subscribe s).0 (subscribe s).1 ≡ []
  -- Another receiver changes nothing for the receivers that are there.
  pub subscribe-others :
      (s : Sender) (r : Receiver)
      → IsSubscribed s r
      → IsSubscribed (subscribe s).0 r × (pending (subscribe s).0 r ≡ pending s r)
  pub subscribe-capacity : (s : Sender) → capacity (subscribe s).0 ≡ capacity s
  pub send-IsSubscribed :
      (value : V) (s : Sender) (r : Receiver) → IsSubscribed s r → IsSubscribed (send value s) r
  pub send-capacity : (value : V) (s : Sender) → capacity (send value s) ≡ capacity s
  pub send-pending :
      (value : V) (s : Sender) (r : Receiver)
      → IsSubscribed s r
      → pending (send value s) r ≡ pending s r ++ value ∷ []
  pub try_recv-IsSubscribed :
      (s : Sender) (r : Receiver) → IsSubscribed s r → IsSubscribed s (try_recv s r).0
  pub try_recv-none :
      (s : Sender) (r : Receiver)
      → IsSubscribed s r
      → pending s r ≡ []
      → ((try_recv s r).1 ≡ empty) × (pending s (try_recv s r).0 ≡ [])
  -- A receiver that keeps up gets the oldest value that waits.
  pub try_recv-some :
      (s : Sender) (r : Receiver) (value : V) (values : List V)
      → IsSubscribed s r
      → pending s r ≡ value ∷ values
      → length (pending s r) ≤ capacity s
      → ((try_recv s r).1 ≡ received value) × (pending s (try_recv s r).0 ≡ values)
  -- One that has fallen behind gets no value, and only what the channel holds waits for it from then on.
  pub try_recv-lagged :
      (s : Sender) (r : Receiver)
      → IsSubscribed s r
      → capacity s < length (pending s r)
      → ((try_recv s r).1 ≡ lagged)
        × (pending s (try_recv s r).0 ≡ drop (length (pending s r) - capacity s) (pending s r))
