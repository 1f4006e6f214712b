-- ===== src/Emergencies/Answers.antt =====
-- Answering and closing an alert: `respond`, `resolve`, `getAlert` and `listForUser` in
-- apps/api/src/modules/emergency/emergency.service.ts.
pub mod Closing
pub mod Experience
use motogram.Prelude.{
  ℕ, ◌+◌, Bool, true, false, Option, none, some, is_some, not, leb, ◌==◌, ◌&&◌, List, map, sort,
  if◌then◌else◌,
}
use motogram.Prelude.Pages.{take}
use motogram.Prelude.Action.{
  ⊤, bad_request, forbidden, not_found, Action, pure, raise_if, or_raise, do_if, ◌>>=◌, ◌>>◌,
  find_unique, find_first, find_many, upsert, update,
}
use motogram.Emergencies.Schema.{
  Alert, AlertStatus, open_alert, acknowledged_alert, resolved_alert, cancelled_alert, false_alarm,
  Responder, ResponderStatus, notified, acknowledged, en_route, arrived, declined,
  responder_message, resolved_message, acknowledged_trigger, coming_notice, Tables, Store, alert,
  responder, emit,
}

-- The statuses of `RespondEmergencyAlertSchema`
pub data Answer : Type 0 where
  on_my_way going here no : Answer

abbrev pub to_status : Answer → ResponderStatus
to_status on_my_way = acknowledged
to_status going = en_route
to_status here = arrived
to_status no = declined

-- `ResolveEmergencyAlertSchema`
pub data Resolution : Type 0 where
  resolved cancelled was_false : Resolution

abbrev to_alert_status : Resolution → AlertStatus
to_alert_status resolved = resolved_alert
to_alert_status cancelled = cancelled_alert
to_alert_status was_false = false_alarm

-- `dto.status === 'ACKNOWLEDGED'`
abbrev pub is_on_my_way : Answer → Bool
is_on_my_way on_my_way = true
is_on_my_way _ = false

abbrev pub is_closed : AlertStatus → Bool
is_closed resolved_alert = true
is_closed cancelled_alert = true
is_closed _ = false

abbrev pub is_open : AlertStatus → Bool
is_open open_alert = true
is_open _ = false

-- `data`
abbrev pub answered : Answer → (now : ℕ) → Option ℕ → Responder → Responder
answered on_my_way now eta r = record r {
  status = acknowledged;
  eta_seconds = eta;
  acknowledged_at = some now;
}
answered going now eta r = record r { status = en_route; eta_seconds = eta }
answered here now eta r = record r { status = arrived; eta_seconds = eta; arrived_at = some now }
answered no now eta r = record r { status = declined; eta_seconds = eta; declined_at = some now }

-- The row of a responder that was not notified.
abbrev pub uncalled : (now : ℕ) → Responder
uncalled now = record {
  status = notified;
  distance_meters = none;
  eta_seconds = none;
  notified_at = now;
  acknowledged_at = none;
  arrived_at = none;
  declined_at = none;
}

-- `existing?.acknowledgedAt`
abbrev pub has_acknowledged : Option Responder → Bool
has_acknowledged none = false
has_acknowledged (some r) = is_some r.acknowledged_at

abbrev by_notice : (ℕ × ℕ) × Responder → (ℕ × ℕ) × Responder → Bool
by_notice a b = leb a.1.notified_at b.1.notified_at

module _ (Place : Type 0) where
  abbrev pub is_live : ℕ → ℕ → Alert Place → Bool
  is_live id k a = k == id && not (is_some a.deleted_at)

  abbrev acknowledge : Alert Place → Alert Place
  acknowledge a = record a { status = acknowledged_alert }

  abbrev pub close : Resolution → (now : ℕ) → Alert Place → Alert Place
  close resolved now a = record a {
    status = resolved_alert;
    resolved_at = some now;
    cancelled_at = none;
  }
  close cancelled now a = record a {
    status = cancelled_alert;
    resolved_at = none;
    cancelled_at = some now;
  }
  close was_false now a = record a {
    status = false_alarm;
    resolved_at = none;
    cancelled_at = some now;
  }

  abbrev pub newer : ℕ × Alert Place → ℕ × Alert Place → Bool
  newer a b = leb b.1.created_at a.1.created_at

module _ (Place : Type 0) (T : Tables Place) where
  abbrev require_live : ℕ → Action (Store Place T) (Alert Place)
  require_live alert_id = do
    found ← find_first (alert Place T) (is_live Place alert_id)
    a ← or_raise found (not_found "alert_not_found")
    pure a.1

  -- The part of `respond` that follows its guards.
  pub save_answer :
      (now responder_id alert_id : ℕ)
      → Answer
      → Option ℕ
      → Alert Place
      → Action (Store Place T) Responder
  save_answer now responder_id alert_id answer eta a = do
    existing ← find_unique (responder Place T) (alert_id, responder_id)
    saved ←
        upsert (responder Place T) (alert_id, responder_id) (answered answer now eta (uncalled now))
          (answered answer now eta)
    do_if (is_on_my_way answer && is_open a.status)
        (do update (alert Place T) alert_id (acknowledge Place); pure tt)
    emit Place T (responder_message alert_id a.user_id responder_id saved)
    do_if (is_on_my_way answer && not (has_acknowledged existing)) (do
      emit Place T (acknowledged_trigger responder_id alert_id)
      emit Place T (coming_notice a.user_id alert_id responder_id))
    pure saved

  pub respond :
      (now responder_id alert_id : ℕ) → Answer → Option ℕ → Action (Store Place T) Responder
  respond now responder_id alert_id answer eta = do
    a ← require_live alert_id
    raise_if (a.user_id == responder_id) (forbidden "cannot_respond_to_own_alert")
    raise_if (is_closed a.status) (bad_request "alert_closed")
    save_answer now responder_id alert_id answer eta a

  pub resolve : (now user_id alert_id : ℕ) → Resolution → Action (Store Place T) (Alert Place)
  resolve now user_id alert_id resolution = do
    a ← require_live alert_id
    raise_if (not (a.user_id == user_id)) (forbidden "not_alert_owner")
    updated ← update (alert Place T) alert_id (close Place resolution now)
    responders ← find_many (responder Place T) (λ k r. k.0 == alert_id)
    emit Place T
        (resolved_message alert_id (map (λ r. r.0.1) responders) (to_alert_status resolution))
    pure updated

  -- The alert, with at most 50 of its responders in the order in which they were notified.
  unfoldable pub get_alert :
      (requester_id alert_id : ℕ)
      → Action (Store Place T) (Alert Place × List ((ℕ × ℕ) × Responder))
  get_alert requester_id alert_id = do
    a ← require_live alert_id
    responders ← find_many (responder Place T) (λ k r. k.0 == alert_id)
    own ← find_unique (responder Place T) (alert_id, requester_id)
    raise_if (not (a.user_id == requester_id) && not (is_some own)) (forbidden "not_authorized")
    pure (a, take 50 (sort by_notice responders))

  unfoldable pub list_for_user :
      (user_id limit : ℕ) → Action (Store Place T) (List (ℕ × Alert Place))
  list_for_user user_id limit = do
    alerts ← find_many (alert Place T) (λ k a. a.user_id == user_id && not (is_some a.deleted_at))
    pure (take limit (sort (newer Place) alerts))
