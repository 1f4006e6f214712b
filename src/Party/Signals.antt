-- ===== src/Party/Signals.antt =====
-- Signals on the road: `recordSignal` in apps/api/src/modules/party/party.service.ts.
use motogram.Prelude.{ℕ, Bool, true, false, is_some, not, ltb, if◌then◌else◌}
use motogram.Prelude.Action.{forbidden, Action, pure, raise_if, ◌>>=◌, ◌>>◌, find_unique, write}
use motogram.Party.Schema.{Signal, Tables, Store, member_set, signal_count, emit, signalled}
use motogram.Party.Members.{counted}

-- `{ allowed, count }`
pub record SignalResult : Type 0 where
  pub allowed : Bool
  pub count : ℕ

-- `PARTY_TTL.signalRatePerMinute`
abbrev signals_per_minute : ℕ
signals_per_minute = 12

module _ (T : Tables) where
  -- `incrementActionCount(senderId, 'party_signal', 60)`. That the key expires after the window is
  -- a change of the store from outside.
  unfoldable pub count_signal : ℕ → Action (Store T) ℕ
  count_signal user_id = do
    before ← find_unique (signal_count T) user_id
    write (signal_count T) user_id (counted before)

  unfoldable pub send_signal : (party_id sender_id : ℕ) → Signal → ℕ → Action (Store T) SignalResult
  send_signal party_id sender_id kind n = do
    row ← find_unique (member_set T) (party_id, sender_id)
    raise_if (not (is_some row)) (forbidden "not_member")
    emit T (signalled party_id sender_id kind)
    pure (record { allowed = true; count = n })

  unfoldable pub record_signal : (party_id sender_id : ℕ) → Signal → Action (Store T) SignalResult
  unfolding count_signal send_signal
  record_signal party_id sender_id kind = do
    n ← count_signal sender_id
    if ltb signals_per_minute n
        then pure (record { allowed = false; count = n })
        else send_signal party_id sender_id kind n
