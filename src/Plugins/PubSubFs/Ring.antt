-- ===== src/Plugins/PubSubFs/Ring.antt =====
-- What the ring of a topic of plugins/pubsubfs/src/lib.rs holds: the last messages that it accepted.
use mathlib.Core.Path.{subst}
use mathlib.Core.List.{append-nil, append_assoc}
use fs.Base.{
  ℕ, zero, suc, ◌+◌, ◌-◌, ◌%◌, ◌^◌, max, ◌≡◌, refl, sym, ap, ◌∙◌, inl, inr, Bool, true, false, List,
  [], ◌∷◌, ◌++◌, arith, ltb, leb, eqb, if◌then◌else◌, Bool-cases, length, drop, drop_all, drop-snoc,
  length-append, length-drop, Text,
}
use fs.Sdk.Error.{ok, panic}
use fs.Sdk.Provider.{Bytes}
use fs.Plugins.Channel.{Broadcast}
use fs.Plugins.PubSubFs.Topic
use fs.Plugins.PubSubFs.Topic.{
  Message, Topic, new_message, pop_front, push_ring, add_message, publish, max_message_size,
}

-- A topic without places in its ring keeps one message all the same.
abbrev pub places : ℕ → ℕ
places ring_size = max 1 ring_size

-- The last `n` elements.
abbrev pub last : ℕ → List Message → List Message
last n history = drop (length history - n) history

pop_front-drop : (n : ℕ) (ring : List Message) → pop_front (drop n ring) ≡ drop (suc n) ring
pop_front-drop zero [] = refl
pop_front-drop zero (msg ∷ ring) = refl
pop_front-drop (suc n) [] = refl
pop_front-drop (suc n) (msg ∷ ring) = pop_front-drop n ring

-- A full ring loses its first message, one that is not full loses none.
push_ring-last :
    (n : ℕ) (msg : Message) (history : List Message)
    → push_ring n msg (last (places n) history) ≡ last (places n) (history ++ msg ∷ [])
unfolding push_ring
push_ring-last n msg history =
    let k = length history - places n in
    let m = length (history ++ msg ∷ []) - places n in
    elim (Bool-cases (ltb (length history) (places n))) [
      | inl h ↦
          let none_old : k ≡ 0 = ground arith in
          let none_new : m ≡ 0 = ground (arith, longer) in
          rw (push_ring, none_old, none_new) (ap (λ ring. ring ++ msg ∷ []) (kept h))
      | inr h ↦
          let full : leb n (length (drop k history)) ≡ true =
            ground (arith, length-drop k history) in
          let next : m ≡ suc k = ground (arith, longer) in
          rw (push_ring, full, next)
            (ap (λ ring. ring ++ msg ∷ []) (pop_front-drop k history)
              ∙ sym (drop-snoc history (suc k) msg (ground arith)))
    ]
  where
    longer : length (history ++ msg ∷ []) ≡ length history + 1
    longer = length-append history (msg ∷ [])

    pop_front-empty : (ring : List Message) → length ring ≡ 0 → pop_front ring ≡ ring
    pop_front-empty [] h = refl
    pop_front-empty (m ∷ ring) h = absurd (omega arith)

    kept :
        ltb (length history) (places n) ≡ true
        → (if leb n (length history) then pop_front history else history) ≡ history
    kept h = elim (Bool-cases (leb n (length history))) [
      | inl l ↦ rw l (pop_front-empty history (ground arith))
      | inr l ↦ rw l refl
    ]

module _ (B : Broadcast Message) (ring_size : ℕ) where
  -- The topic after it has accepted the messages of `history`, in this order.
  pub record Holds (t : Topic B) (history : List Message) : Type 0 where
    pub size : t.ring_size ≡ ring_size
    pub ring : t.ring_buffer ≡ last (places ring_size) history
    pub total : t.total_messages ≡ length history % 2 ^ 64

  pub add_message-Holds :
      (now : ℕ) (msg : Message) (t : Topic B) (history : List Message)
      → Holds t history
      → Holds (add_message B now msg t) (history ++ msg ∷ [])
  unfolding add_message
  add_message-Holds now msg t history w = record {
    size = w.size;
    ring = rw (w.size, w.ring) (push_ring-last ring_size msg history);
    total = omega (arith, w.total, length-append history (msg ∷ []));
  }

-- The messages of a sequence of writes: those that are not too large.
abbrev pub accepted : List (ℕ × Bytes) → List Message
accepted [] = []
accepted ((now, bytes) ∷ writes) =
    let rest = accepted writes in
    if ltb max_message_size (length bytes) then rest else new_message now bytes ∷ rest

module _ (B : Broadcast Message) where
  -- The topic after the writes.
  abbrev pub publish_all : List (ℕ × Bytes) → Topic B → Topic B
  publish_all [] t = t
  publish_all ((now, bytes) ∷ writes) t = publish_all writes (publish B now bytes t).0

  publish_all-Holds :
      (ring_size : ℕ) (writes : List (ℕ × Bytes)) (t : Topic B) (history : List Message)
      → Holds B ring_size t history
      → Holds B ring_size (publish_all writes t) (history ++ accepted writes)
  unfolding publish
  publish_all-Holds ring_size [] t history w =
      subst (λ h. Holds B ring_size t h) (sym (append-nil history)) w
  publish_all-Holds ring_size ((now, bytes) ∷ writes) t history w =
      elim (Bool-cases (ltb max_message_size (length bytes))) [
        | inl large ↦ rw (publish, large) (publish_all-Holds ring_size writes t history w)
        | inr small ↦
            let msg = new_message now bytes in
            rw (publish, small)
              (subst (λ h. Holds B ring_size (publish_all writes (add_message B now msg t)) h)
                (append_assoc history (msg ∷ []) (accepted writes))
                (publish_all-Holds ring_size writes (add_message B now msg t) (history ++ msg ∷ [])
                  (add_message-Holds B ring_size now msg t history w)))
      ]

  new-Holds :
      (now : ℕ) (name : Text) (ring_size channel_size : ℕ) (t : Topic B)
      → Topic.new B now name ring_size channel_size ≡ ok t
      → Holds B ring_size t []
  unfolding Topic.new
  new-Holds now name ring_size channel_size t = made (eqb channel_size 0)
    where
      fresh : Topic B
      fresh = record {
        name = name;
        created_at = now;
        mtime = now;
        ring_buffer = [];
        ring_size = ring_size;
        total_messages = 0;
        sender = B.channel channel_size;
        subscribers = [];
        next_subscriber_id = 1;
      }

      made : (none : Bool) → (if none then panic else ok fresh) ≡ ok t → Holds B ring_size t []
      made true e = cc
      made false e =
          let same : fresh ≡ t = cc in
          subst (λ u. Holds B ring_size u []) same
            (record {
              size = refl;
              ring = sym (drop_all (0 - places ring_size) [] (omega arith));
              total = refl;
            })

  -- A new topic after any writes holds the last of the messages that were not too large, as many as
  -- its ring has places and one at least, and has counted them up to 2 ^ 64.
  pub publish_all_lem :
      (now : ℕ) (name : Text) (ring_size channel_size : ℕ) (t : Topic B)
      → (writes : List (ℕ × Bytes)) → Topic.new B now name ring_size channel_size ≡ ok t
      → ((publish_all writes t).ring_buffer ≡ last (places ring_size) (accepted writes))
        × ((publish_all writes t).total_messages ≡ length (accepted writes) % 2 ^ 64)
  unfolding Topic.new
  publish_all_lem now name ring_size channel_size t writes e =
      let w : Holds B ring_size (publish_all writes t) (accepted writes) =
        publish_all-Holds ring_size writes t [] (new-Holds now name ring_size channel_size t e) in
      (w.ring, w.total)
