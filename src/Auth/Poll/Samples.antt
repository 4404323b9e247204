-- ===== src/Auth/Poll/Samples.antt =====
-- A sign-in that the user approves at the third attempt, after the server has asked to slow down.
use browzer_cli.Prelude.{ℕ, ◌*◌, ◌<◌, false, some, [], ◌∷◌, ◌≡◌, refl, if◌then◌else◌, ltb}
use browzer_cli.Prelude.Text.{codes, text_eq}
use browzer_cli.Prelude.Int.{pos, negsuc}
use browzer_cli.Auth.Poll.{
  PollParams, PollResult, token, TokenResponse, Request, World, State, Reply, granted, refused,
  poll_for_token, poll_loop, round, send_round, on_reply, on_refusal, start, token_request,
}
use browzer_cli.Auth.Poll.Bounds.{poll_for_token_ends, IsPolite}
use browzer_cli.Auth.Poll.Granted.{poll_for_token_granted, IsPending}

abbrev approved : TokenResponse
approved = record {
  access_token = codes "abc";
  token_type = codes "Bearer";
  expires_in = pos 3600;
  refresh_token = [];
  scope = [];
}

abbrev answer : Request → ℕ → Reply
answer request n =
    if ltb n 2
    then refused 400 (codes "authorization_pending")
    else if ltb n 3
    then refused 400 (codes "slow_down")
    else granted approved

abbrev world : World
world = record { is_cancelled = λ n. false; elapsed = λ n. 7 * n; reply = answer }

abbrev params : PollParams
params = record {
  server = codes "https://browzer.dev/";
  device_code = codes "d";
  interval = negsuc 0;
  expires_in = pos 900;
  client_id = [];
}

abbrev end : State
end = record { interval = 10; attempt = 3; slow_down_count = 1; waits = 5 ∷ 10 ∷ []; requests = 3 }

poll_runs : poll_for_token world params ≡ some (token approved, end)
unfolding poll_for_token poll_loop round send_round on_reply on_refusal start text_eq token_request
poll_runs = refl

poll_for_token_ends_example :
    (result : PollResult) × (s : State) × (poll_for_token world params ≡ some (result, s))
    × IsPolite s
poll_for_token_ends_example = poll_for_token_ends world params

poll_for_token_granted_example :
    (answer (token_request params) 3 ≡ granted approved)
    × ((i : ℕ) → 0 < i → i < 3 → IsPending (answer (token_request params) i))
poll_for_token_granted_example = poll_for_token_granted world params approved end poll_runs
