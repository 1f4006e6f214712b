-- ===== src/Emergencies/Alerts.antt =====
-- Calling for help: `createAlert`, `dispatchNearbyNotifications` and `flagFalseAlarm` in
-- apps/api/src/modules/emergency/emergency.service.ts. The riders nearby, with their distances in full
-- meters, are the answer of the location service and an argument; notifications are always stored.
pub mod Recipients
pub mod Limit
pub mod Told
use motogram.Prelude.{
  ℕ, ◌+◌, Bool, true, false, Option, none, some, is_some, not, String, ltb, ◌==◌, ◌&&◌, ◌||◌, List,
  [], ◌∷◌, map, filter, any, length, if◌then◌else◌,
}
use motogram.Prelude.Action.{
  ⊤, bad_request, forbidden, Action, pure, raise, raise_if, do_if, ◌>>=◌, ◌>>◌, find_unique,
  find_many, create, write, update,
}
use motogram.Social.Schema.{Block}
use motogram.Emergencies.Schema.{
  Kind, Alert, open_alert, Responder, notified, Signal, nearby_notice, nearby_push, nearby_message,
  rate_limit_entry, Tables, Store, alert, responder, block, rate, lock, emit,
}

-- `EMERGENCY_RATE.maxAlertsPer10Min`, `SOS_MIN_HOLD_MS` and `EMERGENCY_DEFAULT_RADIUS_M`
abbrev pub max_alerts : ℕ
max_alerts = 3

abbrev min_hold_ms : ℕ
min_hold_ms = 3000

abbrev default_radius : ℕ
default_radius = 5000

-- What the caller is known by.
pub record Requester : Type 0 where
  pub username : String
  pub city : Option String
  pub is_banned : Bool

-- `CreateEmergencyAlertDto`
pub record CreateAlert (Place : Type 0) : Type 0 where
  pub kind : Kind
  pub description : Option String
  pub place : Place
  pub hold_duration_ms : Option ℕ
  pub radius_meters : Option ℕ

-- A rider that the location service has found.
pub record Rider : Type 0 where
  pub user_id : ℕ
  pub distance : ℕ

abbrev pub is_short : Option ℕ → Bool
is_short none = false
is_short (some ms) = ltb ms min_hold_ms

abbrev pub or_zero : Option ℕ → ℕ
or_zero none = 0
or_zero (some n) = n

abbrev radius_of : Option ℕ → ℕ
radius_of none = default_radius
radius_of (some r) = r

-- `candidateIds`
abbrev pub candidates : ℕ → List Rider → List Rider
candidates user_id riders = filter (λ r. not (r.user_id == user_id)) riders

-- `where` of the blocks: one side is the caller, the other a candidate.
abbrev pub is_between : ℕ → List Rider → ℕ × ℕ → Block → Bool
is_between user_id riders k b =
    (k.0 == user_id && any (λ r. r.user_id == k.1) riders)
    || (k.1 == user_id && any (λ r. r.user_id == k.0) riders)

-- `filtered`
abbrev pub unblocked : List ((ℕ × ℕ) × Block) → List Rider → List Rider
unblocked blocks riders =
    filter (λ r. not (any (λ b. b.0.0 == r.user_id || b.0.1 == r.user_id) blocks)) riders

abbrev pub new_responder : (now : ℕ) → Rider → Responder
new_responder now r = record {
  status = notified;
  distance_meters = some r.distance;
  eta_seconds = none;
  notified_at = now;
  acknowledged_at = none;
  arrived_at = none;
  declined_at = none;
}

module _ (Place : Type 0) where
  abbrev pub new_alert : (now user_id : ℕ) → Requester → CreateAlert Place → Alert Place
  new_alert now user_id u dto = record {
    user_id = user_id;
    kind = dto.kind;
    description = dto.description;
    place = dto.place;
    radius_meters = radius_of dto.radius_meters;
    city = u.city;
    status = open_alert;
    notified_count = 0;
    created_at = now;
    resolved_at = none;
    cancelled_at = none;
    deleted_at = none;
  }

  abbrev pub count_notified : ℕ → Alert Place → Alert Place
  count_notified n a = record a { notified_count = n }

module _ (Place : Type 0) (T : Tables Place) where
  -- `INCR`
  abbrev pub increment : ℕ → Action (Store Place T) ℕ
  increment user_id = do
    n ← find_unique (rate Place T) user_id
    write (rate Place T) user_id (or_zero n + 1)

  -- `SET NX`: one entry for a window.
  pub flag_false_alarm : (user_id alerts_in_window : ℕ) → Action (Store Place T) ⊤
  flag_false_alarm user_id alerts_in_window = do
    locked ← find_unique (lock Place T) user_id
    do_if (not (is_some locked)) (do
      write (lock Place T) user_id tt
      emit Place T (rate_limit_entry user_id alerts_in_window))

  -- A body that throws leaves the counter and the entry.
  unfoldable pub check_rate : ℕ → Action (Store Place T) ⊤
  check_rate user_id = do
    n ← increment user_id
    do_if (ltb max_alerts n) (do flag_false_alarm user_id n; raise (forbidden "sos_rate_limit"))

  -- `createMany` with `skipDuplicates`
  unfoldable pub add_responders : (alert_id now : ℕ) → List Rider → Action (Store Place T) ⊤
  add_responders alert_id now [] = pure tt
  add_responders alert_id now (r ∷ rs) = do
    old ← find_unique (responder Place T) (alert_id, r.user_id)
    do_if (not (is_some old))
        (do write (responder Place T) (alert_id, r.user_id) (new_responder now r); pure tt)
    add_responders alert_id now rs

  unfoldable pub notify_each : (alert_id user_id : ℕ) → List Rider → Action (Store Place T) ⊤
  notify_each alert_id user_id [] = pure tt
  notify_each alert_id user_id (r ∷ rs) = do
    emit Place T (nearby_notice r.user_id alert_id user_id r.distance)
    notify_each alert_id user_id rs

  unfoldable pub message_each :
      (alert_id user_id now : ℕ) → String → List Rider → Action (Store Place T) ⊤
  message_each alert_id user_id now username [] = pure tt
  message_each alert_id user_id now username (r ∷ rs) = do
    emit Place T (nearby_message r.user_id alert_id user_id username r.distance now)
    message_each alert_id user_id now username rs

  -- The notifications, one push (a failure of which is logged only), a message to each.
  unfoldable pub dispatch_nearby :
      (alert_id user_id now : ℕ) → String → List Rider → Action (Store Place T) ⊤
  dispatch_nearby alert_id user_id now username recipients = do
    notify_each alert_id user_id recipients
    emit Place T (nearby_push (map (λ r. r.user_id) recipients) alert_id user_id)
    message_each alert_id user_id now username recipients

  abbrev pub dispatch : (alert_id user_id now : ℕ) → String → List Rider → Action (Store Place T) ⊤
  dispatch alert_id user_id now username [] = pure tt
  dispatch alert_id user_id now username (r ∷ rs) =
      dispatch_nearby alert_id user_id now username (r ∷ rs)

  -- Steps 3 and 4: the responders, their number, and the dispatch.
  unfoldable pub reach :
      (alert_id user_id now : ℕ)
      → String
      → Alert Place
      → (recipients : List Rider) → Action (Store Place T) (Alert Place)
  reach alert_id user_id now username a recipients = do
    add_responders alert_id now recipients
    update (alert Place T) alert_id (count_notified Place (length recipients))
    dispatch alert_id user_id now username recipients
    pure (count_notified Place (length recipients) a)

  -- What follows the creation of the row. The answer is the alert.
  abbrev pub call_nearby :
      (alert_id user_id now : ℕ)
      → String
      → Alert Place
      → List Rider
      → Action (Store Place T) (Alert Place)
  call_nearby alert_id user_id now username a [] = pure a
  call_nearby alert_id user_id now username a (c ∷ cs) = do
    blocks ← find_many (block Place T) (is_between user_id (c ∷ cs))
    reach alert_id user_id now username a (unblocked blocks (c ∷ cs))

  unfoldable pub create_alert :
      (alert_id now user_id : ℕ)
      → CreateAlert Place
      → Requester
      → (nearby : List Rider) → Action (Store Place T) (Alert Place)
  create_alert alert_id now user_id dto u nearby = do
    raise_if u.is_banned (forbidden "user_banned")
    raise_if (is_short dto.hold_duration_ms) (bad_request "hold_too_short")
    check_rate user_id
    a ← create (alert Place T) alert_id (new_alert Place now user_id u dto)
    call_nearby alert_id user_id now u.username a (candidates user_id nearby)
