-- ===== src/Tests/Channels.antt =====
-- A channel that forgets what it has no place for: a sender is its size and what it has sent, a receiver
-- how much of that it has seen or lost.
use fs.Base.{
  ℕ, zero, suc, ◌≡◌, refl, ap, List, [], ◌∷◌, ◌++◌, arith, length, drop, drop_all, drop-snoc, ◌≤◌,
  ◌<◌, ◌+◌, ◌-◌, ltb, lt→ltb, le→ltb, if◌then◌else◌, nat_eq, Bool-cases, inl, inr, sym, length-drop,
  length-append,
}
use fs.Base.Cuts.{drop-drop}
use fs.Plugins.Channel.{Broadcast, TryRecv, received, empty, lagged}

module _ {V : Type 0} where
  abbrev head_or : List V → TryRecv V
  head_or [] = empty
  head_or (value ∷ values) = received value

  abbrev step : List V → ℕ → ℕ
  step [] n = n
  step (value ∷ values) n = suc n

  pub drop_more :
      (sent : List V) (n : ℕ) (value : V) (values : List V)
      → drop n sent ≡ value ∷ values
      → drop (suc n) sent ≡ values
  drop_more [] zero value values e = cc
  drop_more [] (suc n) value values e = cc
  drop_more (x ∷ sent) zero value values e = ap (λ xs. drop 1 xs) e
  drop_more (x ∷ sent) (suc n) value values e = drop_more sent n value values e

  pub step-le : (sent : List V) (n : ℕ) → n ≤ length sent → step (drop n sent) n ≤ length sent
  step-le [] zero h = omega arith
  step-le [] (suc n) h = absurd (omega arith)
  step-le (x ∷ sent) zero h = omega arith
  step-le (x ∷ sent) (suc n) h = step_inside (drop n sent) n (step-le sent n (omega arith))
    where
      step_inside :
          (rest : List V) (k : ℕ)
          → step rest k ≤ length sent
          → step rest (suc k) ≤ suc (length sent)
      step_inside [] k l = omega arith
      step_inside (value ∷ values) k l = omega arith

  -- What a receiver that has seen `n` values gets from a channel of `size` places.
  abbrev received_at : ℕ → List V → ℕ → ℕ × TryRecv V
  received_at size sent n =
      if ltb size (length (drop n sent))
      then (length (drop n sent) - size + n, lagged)
      else (step (drop n sent) n, head_or (drop n sent))

  pub lagging :
      (size n : ℕ) (sent : List V)
      → size < length (drop n sent)
      → received_at size sent n ≡ (length (drop n sent) - size + n, lagged)
  lagging size n sent h = rw (lt→ltb size (length (drop n sent)) h) refl

  pub up_to_date :
      (size n : ℕ) (sent : List V)
      → length (drop n sent) ≤ size
      → received_at size sent n ≡ (step (drop n sent) n, head_or (drop n sent))
  up_to_date size n sent h = rw (le→ltb (length (drop n sent)) size h) refl

  pub received-le :
      (size n : ℕ) (sent : List V) → n ≤ length sent → (received_at size sent n).0 ≤ length sent
  received-le size n sent h = elim (Bool-cases (ltb size (length (drop n sent)))) [
    | inl e ↦ rw e (omega (arith, length-drop n sent))
    | inr e ↦ rw e (step-le sent n h)
  ]

-- A channel of as many places as were asked for.
abbrev pub bounded : (V : Type 0) → Broadcast V
bounded V = record {
  Sender = ℕ × List V;
  Receiver = ℕ;
  channel = λ n. (n, []);
  send = λ value s. (s.0, s.1 ++ value ∷ []);
  subscribe = λ s. (s, length s.1);
  try_recv = λ s r. received_at s.0 s.1 r;
  capacity = λ s. s.0;
  pending = λ s r. drop r s.1;
  IsSubscribed = λ s r. r ≤ length s.1;
  channel-capacity = λ n. omega arith;
  subscribe-IsSubscribed = λ s. omega arith;
  subscribe-pending = λ s. drop_all (length s.1) s.1 (omega arith);
  subscribe-others = λ s r h. (h, refl);
  subscribe-capacity = λ s. refl;
  send-IsSubscribed = λ value s r h. omega (arith, length-append s.1 (value ∷ []));
  send-capacity = λ value s. refl;
  send-pending = λ value s r h. drop-snoc s.1 r value h;
  try_recv-IsSubscribed = λ s r h. received-le s.0 r s.1 h;
  try_recv-none = λ s r h e. rw (up_to_date s.0 r s.1 (rw e (omega arith)), e) (refl, e);
  try_recv-some = λ s r value values h e l.
      rw (up_to_date s.0 r s.1 l, e) (refl, drop_more s.1 r value values e);
  try_recv-lagged =
      λ s r h l. rw (lagging s.0 r s.1 l) (refl, sym (drop-drop r (length (drop r s.1) - s.0) s.1));
}
