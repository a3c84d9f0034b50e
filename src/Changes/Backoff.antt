-- ===== src/Changes/Backoff.antt =====
-- What the watch loop does over its rounds, in its order, with the length of every wait.
use findo.Prelude.{
  ℕ, zero, suc, ◌*◌, ◌≡◌, refl, ap, ◌∙◌, List, [], ◌∷◌, ◌++◌, arith, leb, if◌then◌else◌,
}
use findo.Changes.{
  Round, session_lost, cancelled_in_session, cancelled_on_signal, cancelled_in_wait, Act,
  needs_resync, wait, base_backoff, next_backoff, watch_loop,
}

unfoldable pub twice_over : ℕ → ℕ → ℕ
twice_over n zero = n
twice_over n (suc i) = 2 * twice_over n i

-- The wait after so many lost sessions that came before: a second, doubled each time, and a minute at
-- most.
abbrev pub delay : ℕ → ℕ
unfolding twice_over
delay i = if leb (twice_over 1000 i) 60000 then twice_over 1000 i else 60000

-- The acts after the first `i` lost sessions, for `n` more.
unfoldable pub recoveries : ℕ → ℕ → List Act
unfolding twice_over
recoveries i zero = []
recoveries i (suc n) = needs_resync ∷ wait (delay i) ∷ recoveries (suc i) n

unfoldable pub losses : ℕ → List Round
losses zero = []
losses (suc n) = session_lost ∷ losses n

-- The rounds in which the loop returns, and what it does in them.
pub data Ends : Round → List Act → Type 0 where
  in_session : Ends cancelled_in_session []
  on_signal : Ends cancelled_on_signal []
  in_wait : Ends cancelled_in_wait (needs_resync ∷ [])

next_backoff-delay : (i : ℕ) → next_backoff (delay i) ≡ delay (suc i)
unfolding next_backoff twice_over
next_backoff-delay i = ground arith

loop-Ends :
    (backoff : ℕ) (last : Round) (acts : List Act) (later : List Round)
    → Ends last acts
    → watch_loop backoff (last ∷ later) ≡ acts
unfolding watch_loop
loop-Ends backoff _ _ later in_session = refl
loop-Ends backoff _ _ later on_signal = refl
loop-Ends backoff _ _ later in_wait = refl

loop_from :
    (i n : ℕ) (last : Round) (acts : List Act) (later : List Round)
    → Ends last acts
    → watch_loop (delay i) (losses n ++ last ∷ later) ≡ recoveries i n ++ acts
unfolding watch_loop losses recoveries
loop_from i zero last acts later e = loop-Ends (delay i) last acts later e
loop_from i (suc n) last acts later e =
    ap (λ t. needs_resync ∷ wait (delay i) ∷ t)
      (ap (λ b. watch_loop b (losses n ++ last ∷ later)) (next_backoff-delay i)
        ∙ loop_from (suc i) n last acts later e)

-- After any number of lost sessions, each in a round that is not cancelled, and a round that is: the
-- loop has asked for a resync and then waited once for each of those sessions, in this order, the
-- first time a second and then twice as long each time, but never more than a minute; it ends with one
-- more request where it is cancelled while it waits, and with nothing where the watch is cancelled
-- before a request is taken.
pub watch_loop_recovers :
    (n : ℕ) (last : Round) (acts : List Act) (later : List Round)
    → Ends last acts
    → watch_loop base_backoff (losses n ++ last ∷ later) ≡ recoveries 0 n ++ acts
unfolding twice_over
watch_loop_recovers n last acts later e = loop_from 0 n last acts later e
