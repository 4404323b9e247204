-- ===== src/Auth/Poll/Granted.antt =====
-- Where a token comes from.
use browzer_cli.Prelude.{
  ℕ, zero, suc, ◌+◌, ◌<◌, true, Option, none, some, ◌≡◌, refl, sym, ap, subst, subst₂, ==_iff, ◌||◌,
  [], ◌∷◌, ◌++◌, ◌∙◌, arith, ltb, ◌==◌, Bool-cases, inl, inr,
}
use browzer_cli.Prelude.Text.{Text, codes, text_eq}
use browzer_cli.Auth.Poll.{
  PollParams, PollResult, token, failed, clamp, TokenResponse, Request, World, State, Next, done,
  again, round, poll_loop, poll_for_token, start, token_request, on_reply, on_refusal, send_round,
  Reply, granted, refused, not_built, not_sent, garbled,
}

-- The reply tells the client to ask again.
abbrev pub IsPending : Reply → Type 0
IsPending (refused status error) =
    (text_eq error (codes "authorization_pending") || text_eq error (codes "slow_down")) ≡ true
IsPending _ = ⊥

-- What a round of attempt `n` says of the reply to it.
abbrev Says : Reply → ℕ → Next → Type 0
Says r n (done (token t) u) = (u.attempt ≡ n) × (r ≡ granted t)
Says r n (done (failed e) u) = Unit
Says r n (again u) = (u.attempt ≡ n) × IsPending r

on_refusal-Says :
    (status : ℕ) (error : Text) (s : State)
    → Says (refused status error) s.attempt (on_refusal status error s)
unfolding on_refusal
on_refusal-Says status error s = ground arith

on_reply-Says : (r : Reply) (s : State) → Says r s.attempt (on_reply r s)
unfolding on_reply
on_reply-Says not_built s = tt
on_reply-Says not_sent s = tt
on_reply-Says (granted t) s = (refl, refl)
on_reply-Says garbled s = tt
on_reply-Says (refused status error) s = on_refusal-Says status error s

abbrev attempt_of : Option (PollResult × State) → ℕ
attempt_of none = 0
attempt_of (some (result, s)) = s.attempt

abbrev token_of : TokenResponse → Option (PollResult × State) → TokenResponse
token_of t none = t
token_of t (some (token x, s)) = x
token_of t (some (failed e, s)) = t

module _ (w : World) (request : Request) (expires_in : ℕ) where
  send_round-Says :
      (s : State) → Says (w.reply request s.attempt) s.attempt (send_round w request expires_in s)
  unfolding send_round
  send_round-Says s = elim (Bool-cases (ltb 720 s.attempt)) [
    | inl over ↦ rw over tt
    | inr under ↦ elim (Bool-cases (ltb expires_in (w.elapsed s.attempt))) [
      | inl late ↦ rw (under, late) tt
      | inr early ↦
          rw (under, early)
            (on_reply-Says (w.reply request s.attempt) (record s { requests = s.requests + 1 }))
    ]
  ]

  round-Says :
      (s : State)
      → Says (w.reply request (s.attempt + 1)) (s.attempt + 1) (round w request expires_in s)
  unfolding round
  round-Says s = elim (Bool-cases (s.attempt == 0)) [
    | inl e ↦ rw e (send_round-Says (record s { attempt = s.attempt + 1 }))
    | inr e ↦ elim (Bool-cases (w.is_cancelled s.attempt)) [
      | inl c ↦ rw (e, c) tt
      | inr c ↦
          rw (e, c)
            (send_round-Says
              (record s { waits = s.waits ++ s.interval ∷ []; attempt = s.attempt + 1 }))
    ]
  ]

  -- The token is the reply to the last attempt, and the replies since attempt `n` were pending.
  abbrev pub IsGranted : ℕ → TokenResponse → ℕ → Type 0
  IsGranted n t last =
      (n < last)
      × (w.reply request last ≡ granted t)
      × ((i : ℕ) → n < i → i < last → IsPending (w.reply request i))

  extend :
      (n last : ℕ) (t : TokenResponse)
      → IsPending (w.reply request (n + 1))
      → IsGranted (n + 1) t last
      → IsGranted n t last
  extend n last t now (more, reply, pending) = (
    omega arith,
    reply,
    λ i lo hi. elim (Bool-cases (i == n + 1)) [
      | inl e ↦
          subst (λ j. IsPending (w.reply request j)) (omega (arith, (==_iff i (n + 1)).0 e)) now
      | inr e ↦ pending i (ground arith) hi
    ],
  )

  poll_loop-IsGranted :
      (fuel : ℕ) (s u : State) (t : TokenResponse)
      → poll_loop fuel w request expires_in s ≡ some (token t, u)
      → IsGranted s.attempt t u.attempt
  unfolding poll_loop
  poll_loop-IsGranted zero s u t h = cc
  poll_loop-IsGranted (suc fuel) s u t h =
      next (round w request expires_in s) (round-Says s) h (λ v k. poll_loop-IsGranted fuel v u t k)
    where
      next :
          (n : Next)
          → Says (w.reply request (s.attempt + 1)) (s.attempt + 1) n
          → (elim n as (λ n. Option (PollResult × State)) [
            | done result t ↦ some (result, t)
            | again t ↦ poll_loop fuel w request expires_in t
          ]
              ≡ some (token t, u))
          → ((v : State)
              → poll_loop fuel w request expires_in v ≡ some (token t, u)
              → IsGranted v.attempt t u.attempt)
          → IsGranted s.attempt t u.attempt
      next (done (token t') v) (e, r) h later =
          subst₂ (λ n x. IsGranted s.attempt x n) (sym e ∙ ap attempt_of h) (ap (token_of t') h)
            (omega arith, r, λ i lo hi. absurd (omega arith))
      next (done (failed e) v) g h later = cc
      next (again v) (e, now) h later =
          extend s.attempt u.attempt t now (subst (λ n. IsGranted n t u.attempt) e (later v h))

-- A token that PollForToken returns is the one in the server's reply to the last attempt, and the
-- reply to every attempt before asked for patience.
pub poll_for_token_granted :
    (w : World) (p : PollParams) (t : TokenResponse) (s : State)
    → poll_for_token w p ≡ some (token t, s)
    → (w.reply (token_request p) s.attempt ≡ granted t)
      × ((i : ℕ) → 0 < i → i < s.attempt → IsPending (w.reply (token_request p) i))
unfolding poll_for_token start
poll_for_token_granted w p t s h =
    let (more, reply, pending) =
      poll_loop-IsGranted w (token_request p) (clamp p.expires_in 60 1800) 721 (start p) s t h in
    (reply, pending)
