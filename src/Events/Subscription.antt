-- ===== src/Events/Subscription.antt =====
-- cli/src/lib/sse-client.ts: `subscribeToRoom`, as a state with the errors of the event source, the
-- answers of the token's refresh and the close as steps.
--
-- The events themselves, their dispatch by type and the watchdog for a stalled connection are left
-- out. Times are milliseconds of `Date.now()`.
use hisohiso.Prelude.{
  ◌≡◌, ℕ, suc, ◌+◌, ◌-◌, Bool, true, false, not, ◌&&◌, Option, none, some, List, [], ◌∷◌, leb, ◌==◌,
  if◌then◌else◌,
}
use hisohiso.Text.{Text}
use hisohiso.Message.Envelope.{is_empty}

abbrev pub jwt_refresh_retry_ms : ℕ
jwt_refresh_retry_ms = 30000

pub record Subscription : Type 0 where
  pub current_jwt : Text
  pub closed : Bool
  pub refreshing : Bool
  pub last_refresh_at : ℕ
  -- How many event sources were made, and how many calls of `refreshJwt` wait for their answer.
  pub sources : ℕ
  pub in_flight : ℕ
  -- When the calls of `refreshJwt` were made, the latest first.
  pub refreshes : List ℕ
  -- How often `onError` was called.
  pub errors : ℕ

-- `connect`
abbrev pub connect : Subscription → Subscription
connect s = record s { sources = suc s.sources }

abbrev pub subscribe_to_room : Text → Subscription
subscribe_to_room jwt = record {
  current_jwt = jwt;
  closed = false;
  refreshing = false;
  last_refresh_at = 0;
  sources = 1;
  in_flight = 0;
  refreshes = [];
  errors = 0;
}

abbrev pub is_unauthorized : Option ℕ → Bool
is_unauthorized none = false
is_unauthorized (some code) = code == 401

-- The test of `onerror`, with whether `refreshJwt` is wired.
unfoldable pub should_refresh : ℕ → Option ℕ → Bool → Subscription → Bool
should_refresh now code can_refresh s =
    is_unauthorized code
    && can_refresh
    && not s.refreshing
    && not s.closed
    && leb (s.last_refresh_at + jwt_refresh_retry_ms) now

-- The call of `refreshJwt`.
abbrev pub call_refresh : ℕ → Subscription → Subscription
call_refresh now s = record s {
  refreshing = true;
  last_refresh_at = now;
  in_flight = suc s.in_flight;
  refreshes = now ∷ s.refreshes;
}

-- `onerror`: the code of the error, and whether the source is closed for good.
unfoldable pub on_error : ℕ → Option ℕ → Bool → Bool → Subscription → Subscription
unfolding should_refresh
on_error now code can_refresh is_dead s =
    if should_refresh now code can_refresh s
    then call_refresh now s
    else if is_dead
    then record s { errors = suc s.errors }
    else s

-- An answer that is null or empty is no token.
abbrev pub with_token : Option Text → Subscription → Subscription
with_token none s = s
with_token (some jwt) s =
    if s.closed then s else if is_empty jwt then s else connect (record s { current_jwt = jwt })

-- The answer of a call of `refreshJwt`: a token or null, or none for a rejection as well.
unfoldable pub refreshed : Option Text → Subscription → Subscription
refreshed next s = with_token next (record s { refreshing = false; in_flight = s.in_flight - 1 })

-- `close`
abbrev pub close : Subscription → Subscription
close s = record s { closed = true }

pub data Step (s : Subscription) : Subscription → Type 0 where
  error_step :
      (now : ℕ) (code : Option ℕ) (can_refresh is_dead : Bool)
      → Step s (on_error now code can_refresh is_dead s)
  answer_step : (next : Option Text) (n : ℕ) → s.in_flight ≡ suc n → Step s (refreshed next s)
  close_step : Step s (close s)

pub data Reach (s : Subscription) : Subscription → Type 0 where
  start : Reach s s
  next : {t u : Subscription} → Reach s t → Step t u → Reach s u
