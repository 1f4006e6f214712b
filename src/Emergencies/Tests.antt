-- ===== src/Emergencies/Tests.antt =====
-- Emergencies on which the services run: a place is a number, and riders 2 to 4 are near rider 1, who has
-- blocked rider 3.
use motogram.Prelude.{ℕ, ◌≡◌, ◌≤◌, ◌-◌, refl, true, false, none, some, List, [], ◌∷◌, arith}
use motogram.Prelude.Assoc.{id_table, pair_table}
use motogram.Prelude.History.{run}
use motogram.Prelude.Action.{⊤, is_ok, ok}
use motogram.Social.Schema.{Block}
use motogram.Emergencies.Schema.{Alert, accident, open_alert, Responder, Contact, Tables, Store}
use motogram.Emergencies.Alerts.{
  Requester, CreateAlert, Rider, max_alerts, create_alert, check_rate, reach, add_responders,
  dispatch_nearby, notify_each, message_each,
}
use motogram.Emergencies.Alerts.Told.{IsHeard, create_alert-IsHeard}
use motogram.Emergencies.Alerts.Limit.{Call, granted, counter, granted_few}
use motogram.Emergencies.Answers.{was_false, on_my_way, resolve, get_alert, list_for_user}
use motogram.Emergencies.Answers.Closing.{IsMet, resolve-IsMet}
use motogram.Emergencies.Answers.Experience.{
  create_call, respond_call, resolve_call, IsTriggeredOnce, step, run-IsTriggeredOnce,
}
use motogram.Emergencies.Contacts.{list_contacts}

abbrev tables : Tables ℕ
tables = record {
  alert = id_table (Alert ℕ);
  responder = pair_table Responder;
  contact = id_table Contact;
  block = pair_table Block;
  rate = id_table ℕ;
  lock = id_table ⊤;
}

abbrev quiet : Store ℕ tables
quiet = record {
  alerts = ([], tt);
  responders = ([], tt);
  contacts = (
    (8, record { user_id = 1; name = "bob"; phone = "555"; relationship = none; created_at = 1 })
        ∷ [],
    (refl, tt),
  );
  blocks = (((1, 3), record { created_at = 1 }) ∷ [], (refl, tt));
  rates = ([], tt);
  locks = ([], tt);
  signals = [];
}

abbrev crash : CreateAlert ℕ
crash = record {
  kind = accident;
  description = none;
  place = 40;
  hold_duration_ms = some 3500;
  radius_meters = none;
}

abbrev ann : Requester
ann = record { username = "ann"; city = none; is_banned = false }

abbrev riders : List Rider
riders =
    record { user_id = 1; distance = 0 }
    ∷ record { user_id = 2; distance = 30 }
    ∷ record { user_id = 3; distance = 50 }
    ∷ record { user_id = 4; distance = 90 }
    ∷ []

create_alert-IsHeard_example :
    IsHeard ℕ tables 1 quiet 5 (create_alert ℕ tables 5 100 1 crash ann riders quiet).1
create_alert-IsHeard_example = create_alert-IsHeard ℕ tables 1 quiet 5 100 crash ann riders

abbrev again : ℕ → Call ℕ
again id = record {
  alert_id = id;
  now = id;
  user_id = 1;
  dto = crash;
  requester = ann;
  nearby = riders;
}

granted_few_example :
    granted ℕ tables 1 quiet (again 5 ∷ again 6 ∷ again 7 ∷ again 8 ∷ [])
    ≤ max_alerts - counter ℕ tables 1 quiet
granted_few_example = granted_few ℕ tables 1 quiet (again 5 ∷ again 6 ∷ again 7 ∷ again 8 ∷ [])

run-IsTriggeredOnce_example : IsTriggeredOnce ℕ tables (
    run (step ℕ tables) quiet (
      create_call 5 100 1 crash ann riders
      ∷ respond_call 110 2 5 on_my_way none
      ∷ respond_call 120 2 5 on_my_way none
      ∷ resolve_call 130 1 5 was_false
      ∷ []))
run-IsTriggeredOnce_example =
    run-IsTriggeredOnce ℕ tables quiet
      (create_call 5 100 1 crash ann riders
        ∷ respond_call 110 2 5 on_my_way none
        ∷ respond_call 120 2 5 on_my_way none
        ∷ resolve_call 130 1 5 was_false
        ∷ [])
      (λ alert_id user_id. omega arith)

abbrev shout : Alert ℕ
shout = record {
  user_id = 1;
  kind = accident;
  description = none;
  place = 40;
  radius_meters = 5000;
  city = none;
  status = open_alert;
  notified_count = 2;
  created_at = 100;
  resolved_at = none;
  cancelled_at = none;
  deleted_at = none;
}

abbrev loud : Store ℕ tables
loud = record quiet { alerts = ((5, shout) ∷ [], (refl, tt)) }

resolve-IsMet_example :
    let (r, t) = resolve ℕ tables 200 1 5 was_false loud in
    (is_ok r ≡ true) × IsMet ℕ tables 2 5 was_false t
resolve-IsMet_example =
    resolve-IsMet ℕ tables loud 200 1 2 5 shout refl refl refl (λ e. ground arith) was_false refl

sees_alert : is_ok (get_alert ℕ tables 1 5 loud).0 ≡ true
unfolding get_alert
sees_alert = refl

lists_alerts : (list_for_user ℕ tables 1 20 loud).0 ≡ ok ((5, shout) ∷ [])
unfolding list_for_user
lists_alerts = refl

lists_contacts : is_ok (list_contacts ℕ tables 1 quiet).0 ≡ true
unfolding list_contacts
lists_contacts = refl

-- Riders 2 and 4 are told.
two_are_told : (create_alert ℕ tables 5 100 1 crash ann riders quiet).0 ≡ ok shout
unfolding create_alert check_rate reach add_responders dispatch_nearby notify_each message_each
two_are_told = refl
