-- ===== src/Auth/Poll.antt =====
-- PollForToken of internal/auth/device_flow.go. The replies of the server, the clock and the
-- cancellation of the context are arguments, as functions of the number of the attempt.
pub mod Bounds
pub mod Granted
mod Samples
use browzer_cli.Prelude.{
  ℕ, zero, suc, ◌+◌, Bool, true, false, Option, none, some, List, [], ◌∷◌, ◌++◌, if◌then◌else◌, ltb,
  ◌==◌,
}
use browzer_cli.Prelude.Text.{Text, codes, text_eq}
use browzer_cli.Prelude.Int.{ℤ, pos, negsuc}

abbrev pub min_interval_seconds : ℕ
min_interval_seconds = 5

abbrev pub max_interval_seconds : ℕ
max_interval_seconds = 60

abbrev pub min_expires_seconds : ℕ
min_expires_seconds = 60

abbrev pub max_expires_seconds : ℕ
max_expires_seconds = 1800

abbrev pub max_poll_count : ℕ
max_poll_count = 720

abbrev pub slow_down_bump_seconds : ℕ
slow_down_bump_seconds = 5

abbrev pub max_slow_down_bumps : ℕ
max_slow_down_bumps = 8

pub record TokenResponse : Type 0 where
  pub access_token : Text
  pub token_type : Text
  pub expires_in : ℤ
  pub refresh_token : Text
  pub scope : Text

pub record PollParams : Type 0 where
  pub server : Text
  pub device_code : Text
  pub interval : ℤ
  pub expires_in : ℤ
  pub client_id : Text

-- The request of an attempt: its URL and the three values of its body.
pub record Request : Type 0 where
  pub url : Text
  pub grant_type : Text
  pub device_code : Text
  pub client_id : Text

abbrev pub clamp : ℤ → ℕ → ℕ → ℕ
clamp (negsuc n) min max = min
clamp (pos n) min max = if ltb n min then min else if ltb max n then max else n

-- strings.TrimRight(s, "/")
unfoldable pub trim_slashes : Text → Text
trim_slashes [] = []
trim_slashes (c ∷ s) =
    let rest = trim_slashes s in
    elim rest [ [] ↦ if c == b'/' then [] else c ∷ [] | d ∷ r ↦ c ∷ d ∷ r ]

abbrev default_client_id : Text
default_client_id = codes "browzer-cli"

abbrev or_default : Text → Text
or_default [] = default_client_id
or_default (c ∷ s) = c ∷ s

unfoldable pub token_request : PollParams → Request
unfolding trim_slashes
token_request p = record {
  url = trim_slashes p.server ++ codes "/api/device/token";
  grant_type = codes "urn:ietf:params:oauth:grant-type:device_code";
  device_code = p.device_code;
  client_id = or_default p.client_id;
}

-- What becomes of a request: it cannot be built or sent, it has the status 200 with a body that
-- decodes or not, or another status with the field "error" of its body.
pub data Reply : Type 0 where
  not_built : Reply
  not_sent : Reply
  granted : TokenResponse → Reply
  garbled : Reply
  refused : ℕ → Text → Reply

pub data PollError : Type 0 where
  cancelled : PollError
  safety_cap : PollError
  window_timeout : PollError
  request_error : PollError
  transport_error : PollError
  decode_error : PollError
  slow_down_cap : PollError
  window_expired : PollError
  code_rejected : PollError
  client_not_allowed : PollError
  unexpected : ℕ → Text → PollError

pub data PollResult : Type 0 where
  token : TokenResponse → PollResult
  failed : PollError → PollResult

-- The local variables of the loop, the seconds waited and the number of requests sent so far.
pub record State : Type 0 where
  pub interval : ℕ
  pub attempt : ℕ
  pub slow_down_count : ℕ
  pub waits : List ℕ
  pub requests : ℕ

pub data Next : Type 0 where
  done : PollResult → State → Next
  again : State → Next

-- The switch on the error of a refusal.
unfoldable pub on_refusal : ℕ → Text → State → Next
unfolding text_eq
on_refusal status error s =
    if text_eq error (codes "authorization_pending")
    then again s
    else if text_eq error (codes "slow_down")
    then (let t : State = record s { slow_down_count = s.slow_down_count + 1 } in
        if ltb max_slow_down_bumps t.slow_down_count
        then done (failed slow_down_cap) t
        else again (record t {
          interval =
              if ltb max_interval_seconds (t.interval + slow_down_bump_seconds)
              then max_interval_seconds
              else t.interval + slow_down_bump_seconds;
        }))
    else if text_eq error (codes "expired_token")
    then done (failed window_expired) s
    else if text_eq error (codes "invalid_grant")
    then done (failed code_rejected) s
    else if text_eq error (codes "unauthorized_client")
    then done (failed client_not_allowed) s
    else done (failed (unexpected status error)) s

unfoldable pub on_reply : Reply → State → Next
unfolding on_refusal
on_reply not_built s = done (failed request_error) s
on_reply not_sent s = done (failed transport_error) s
on_reply (granted t) s = done (token t) s
on_reply garbled s = done (failed decode_error) s
on_reply (refused status error) s = on_refusal status error s

-- What the loop meets at each attempt: whether the context is cancelled first while it waits, the
-- whole seconds since the start, and the reply to the request.
pub record World : Type 0 where
  pub is_cancelled : ℕ → Bool
  pub elapsed : ℕ → ℕ
  pub reply : Request → ℕ → Reply

-- One round, from the test of the safety cap on; the attempt is counted already.
unfoldable pub send_round : World → Request → ℕ → State → Next
unfolding on_reply
send_round w request expires_in s =
    if ltb max_poll_count s.attempt
    then done (failed safety_cap) s
    else if ltb expires_in (w.elapsed s.attempt)
    then done (failed window_timeout) s
    else on_reply (w.reply request s.attempt) (record s { requests = s.requests + 1 })

unfoldable pub round : World → Request → ℕ → State → Next
unfolding send_round
round w request expires_in s =
    if s.attempt == 0
    then send_round w request expires_in (record s { attempt = s.attempt + 1 })
    else if w.is_cancelled s.attempt
    then done (failed cancelled) s
    else send_round w request expires_in
        (record s { waits = s.waits ++ s.interval ∷ []; attempt = s.attempt + 1 })

-- The loop, for at most `fuel` rounds.
unfoldable pub poll_loop : ℕ → World → Request → ℕ → State → Option (PollResult × State)
unfolding round
poll_loop zero w request expires_in s = none
poll_loop (suc fuel) w request expires_in s = elim (round w request expires_in s) [
  | done result t ↦ some (result, t)
  | again t ↦ poll_loop fuel w request expires_in t
]

unfoldable pub start : PollParams → State
start p = record {
  interval = clamp p.interval min_interval_seconds max_interval_seconds;
  attempt = 0;
  slow_down_count = 0;
  waits = [];
  requests = 0;
}

-- 721 rounds are enough, as Bounds shows.
unfoldable pub poll_for_token : World → PollParams → Option (PollResult × State)
unfolding poll_loop start token_request
poll_for_token w p =
    poll_loop 721 w (token_request p) (clamp p.expires_in min_expires_seconds max_expires_seconds)
      (start p)
