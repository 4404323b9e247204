-- ===== src/Auth/Poll/Bounds.antt =====
-- The loop ends, and what it asks of the server on the way.
use browzer_cli.Prelude.{
  ℕ, zero, suc, ◌+◌, ◌-◌, ◌≤◌, Option, some, [], ◌∷◌, ◌++◌, ◌≡◌, refl, arith, All, All-append,
  length, length-append, ltb, ◌==◌, Bool-cases, inl, inr,
}
use browzer_cli.Prelude.Text.{Text}
use browzer_cli.Prelude.Int.{ℤ, pos, negsuc}
use browzer_cli.Auth.Poll.{
  PollParams, PollResult, Request, World, State, Next, done, again, round, poll_loop,
  poll_for_token, start, clamp, token_request, on_reply, on_refusal, send_round, Reply, not_built,
  not_sent, granted, garbled, refused,
}

abbrev pub Between : ℕ → ℕ → ℕ → Type 0
Between lo hi n = (lo ≤ n) × (n ≤ hi)

-- What holds before a round: the interval and the waits are of 5 to 60 seconds, and there is a wait
-- less than attempts and a request at most for each of these, which are 720 at most.
abbrev pub IsPolling : State → Type 0
IsPolling s =
    Between 5 60 s.interval
    × All (Between 5 60) s.waits
    × (length s.waits ≤ s.attempt - 1)
    × (s.requests ≤ s.attempt)
    × (s.attempt ≤ 720)

-- What a call has done when it ends.
abbrev pub IsPolite : State → Type 0
IsPolite s = All (Between 5 60) s.waits × (length s.waits ≤ 720) × (s.requests ≤ 720)

abbrev Good : ℕ → Next → Type 0
Good n (done result t) = IsPolite t
Good n (again t) = IsPolling t × (t.attempt ≡ n + 1)

on_refusal-Good :
    (status : ℕ) (error : Text) (n : ℕ) (s : State)
    → s.attempt ≡ n + 1
    → IsPolling s
    → Good n (on_refusal status error s)
unfolding on_refusal
on_refusal-Good status error n s e h = ground arith

on_reply-Good :
    (r : Reply) (n : ℕ) (s : State) → s.attempt ≡ n + 1 → IsPolling s → Good n (on_reply r s)
unfolding on_reply
on_reply-Good not_built n s e h = ground arith
on_reply-Good not_sent n s e h = ground arith
on_reply-Good (granted t) n s e h = ground arith
on_reply-Good garbled n s e h = ground arith
on_reply-Good (refused status error) n s e h = on_refusal-Good status error n s e h

module _ (w : World) (request : Request) (expires_in : ℕ) where
  send_round-Good :
      (n : ℕ) (s : State)
      → s.attempt ≡ n + 1
      → Between 5 60 s.interval
      → All (Between 5 60) s.waits
      → length s.waits ≤ n
      → s.requests ≤ n
      → n ≤ 720
      → Good n (send_round w request expires_in s)
  unfolding send_round
  send_round-Good n s e i ws few sent bound = elim (Bool-cases (ltb 720 s.attempt)) [
    | inl over ↦ rw over (ws, omega arith, omega arith)
    | inr under ↦ elim (Bool-cases (ltb expires_in (w.elapsed s.attempt))) [
      | inl late ↦ rw (under, late) (ws, omega arith, omega arith)
      | inr early ↦
          rw (under, early)
            (on_reply-Good (w.reply request s.attempt) n (record s { requests = s.requests + 1 }) e
              (i, ws, omega arith, omega arith, ground arith))
    ]
  ]

  round-Good : (s : State) → IsPolling s → Good s.attempt (round w request expires_in s)
  unfolding round
  round-Good s (i, ws, few, sent, bound) = elim (Bool-cases (s.attempt == 0)) [
    | inl e ↦ rw e (
        send_round-Good s.attempt (record s { attempt = s.attempt + 1 }) refl i ws (omega arith)
          sent bound)
    | inr e ↦ elim (Bool-cases (w.is_cancelled s.attempt)) [
      | inl c ↦ rw (e, c) (ws, omega arith, omega arith)
      | inr c ↦
          rw (e, c)
            (send_round-Good s.attempt
              (record s { waits = s.waits ++ s.interval ∷ []; attempt = s.attempt + 1 }) refl i
              (All-append (Between 5 60) s.waits (s.interval ∷ []) ws (i, tt))
              (ground (arith, length-append s.waits (s.interval ∷ []), few)) sent bound)
    ]
  ]

  poll_loop-ends :
      (fuel : ℕ) (s : State)
      → IsPolling s
      → 721 ≤ fuel + s.attempt
      → (result : PollResult) × (t : State) × (poll_loop fuel w request expires_in s
          ≡ some (result, t))
        × IsPolite t
  unfolding poll_loop
  poll_loop-ends zero s (i, ws, few, sent, bound) h = absurd (omega arith)
  poll_loop-ends (suc fuel) s h enough =
      next (round w request expires_in s) (round-Good s h)
        (λ t g e. poll_loop-ends fuel t g (omega arith))
    where
      next :
          (n : Next)
          → Good s.attempt n
          → ((t : State)
              → IsPolling t
              → t.attempt ≡ s.attempt + 1
              → (result : PollResult) × (u : State) × (poll_loop fuel w request expires_in t
                  ≡ some (result, u))
                × IsPolite u)
          → (result : PollResult) × (u : State) × (elim n as (λ n. Option (PollResult × State)) [
            | done result t ↦ some (result, t)
            | again t ↦ poll_loop fuel w request expires_in t
          ]
              ≡ some (result, u))
            × IsPolite u
      next (done result t) g later = (result, t, refl, g)
      next (again t) (g, e) later = later t g e

clamp-Between : (n : ℤ) (lo hi : ℕ) → lo ≤ hi → Between lo hi (clamp n lo hi)
clamp-Between (negsuc n) lo hi h = (omega arith, h)
clamp-Between (pos n) lo hi h = ground arith

-- Whatever the server replies, whatever the clock shows and whenever the context is cancelled,
-- PollForToken ends with a token or an error. It has sent 720 requests at most and waited 720 times
-- at most, each time for 5 to 60 seconds, whatever interval the server asked for.
pub poll_for_token_ends :
    (w : World) (p : PollParams)
    → (result : PollResult) × (s : State) × (poll_for_token w p ≡ some (result, s)) × IsPolite s
unfolding poll_for_token start
poll_for_token_ends w p =
    poll_loop-ends w (token_request p) (clamp p.expires_in 60 1800) 721 (start p)
      (clamp-Between p.interval 5 60 (omega arith), tt, omega arith, omega arith, omega arith)
      (omega arith)
