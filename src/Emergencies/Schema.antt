-- ===== src/Emergencies/Schema.antt =====
-- The tables and keys of the emergencies (apps/api/prisma/schema.prisma and emergency.constants.ts).
-- Where an alert is (its coordinates and their accuracy) is only stored and passed on: it is a parameter.
use motogram.Prelude.{ℕ, Option, String, List, ◌∷◌, ◌==◌, pair_eq}
use motogram.Prelude.Table.{Table}
use motogram.Prelude.Action.{⊤, Action, Model, modify}
use motogram.Social.Schema.{Block}

-- `EmergencyType`
pub data Kind : Type 0 where
  general accident mechanical medical fuel other : Kind

-- `EmergencyStatus`
pub data AlertStatus : Type 0 where
  open_alert acknowledged_alert resolved_alert cancelled_alert false_alarm : AlertStatus

-- `ResponderStatus`
pub data ResponderStatus : Type 0 where
  notified acknowledged en_route arrived declined : ResponderStatus

pub record Alert (Place : Type 0) : Type 0 where
  pub user_id : ℕ
  pub kind : Kind
  pub description : Option String
  pub place : Place
  pub radius_meters : ℕ
  pub city : Option String
  pub status : AlertStatus
  pub notified_count : ℕ
  pub created_at : ℕ
  pub resolved_at : Option ℕ
  pub cancelled_at : Option ℕ
  pub deleted_at : Option ℕ

-- `EmergencyResponder`, keyed by `alertId_responderId`.
pub record Responder : Type 0 where
  pub status : ResponderStatus
  pub distance_meters : Option ℕ
  pub eta_seconds : Option ℕ
  pub notified_at : ℕ
  pub acknowledged_at : Option ℕ
  pub arrived_at : Option ℕ
  pub declined_at : Option ℕ

-- `EmergencyContact`
pub record Contact : Type 0 where
  pub user_id : ℕ
  pub name : String
  pub phone : String
  pub relationship : Option String
  pub created_at : ℕ

-- What leaves the service: notifications, pushes, socket messages, the events for the gamification,
-- and the entries of the audit log.
pub data Signal : Type 0 where
  nearby_notice : (to alert_id requester_id distance : ℕ) → Signal
  nearby_push : (to : List ℕ) → (alert_id requester_id : ℕ) → Signal
  nearby_message : (to alert_id requester_id : ℕ) → String → (distance created_at : ℕ) → Signal
  responder_message : (alert_id requester_id responder_id : ℕ) → Responder → Signal
  resolved_message : (alert_id : ℕ) → (to : List ℕ) → AlertStatus → Signal
  acknowledged_trigger : (user_id alert_id : ℕ) → Signal
  coming_notice : (to alert_id responder_id : ℕ) → Signal
  rate_limit_entry : (user_id alerts_in_window : ℕ) → Signal

-- `rate` is the counter under `rate:sos:{user}`, `lock` the key `sos:admin_notified:{user}`; that they
-- expire is a change of the store from outside.
pub record Tables (Place : Type 0) : Type 1 where
  pub alert : Table ◌==◌ (Alert Place)
  pub responder : Table pair_eq Responder
  pub contact : Table ◌==◌ Contact
  pub block : Table pair_eq Block
  pub rate : Table ◌==◌ ℕ
  pub lock : Table ◌==◌ ⊤

pub record Store (Place : Type 0) (T : Tables Place) : Type 0 where
  pub alerts : T.alert.Rows
  pub responders : T.responder.Rows
  pub contacts : T.contact.Rows
  pub blocks : T.block.Rows
  pub rates : T.rate.Rows
  pub locks : T.lock.Rows
  pub signals : List Signal

module _ (Place : Type 0) (T : Tables Place) where
  abbrev pub alert : Model (Store Place T) ◌==◌ (Alert Place)
  alert = record { table = T.alert; get = λ s. s.alerts; put = λ t s. record s { alerts = t } }

  abbrev pub responder : Model (Store Place T) pair_eq Responder
  responder = record {
    table = T.responder;
    get = λ s. s.responders;
    put = λ t s. record s { responders = t };
  }

  abbrev pub contact : Model (Store Place T) ◌==◌ Contact
  contact = record {
    table = T.contact;
    get = λ s. s.contacts;
    put = λ t s. record s { contacts = t };
  }

  abbrev pub block : Model (Store Place T) pair_eq Block
  block = record { table = T.block; get = λ s. s.blocks; put = λ t s. record s { blocks = t } }

  abbrev pub rate : Model (Store Place T) ◌==◌ ℕ
  rate = record { table = T.rate; get = λ s. s.rates; put = λ t s. record s { rates = t } }

  abbrev pub lock : Model (Store Place T) ◌==◌ ⊤
  lock = record { table = T.lock; get = λ s. s.locks; put = λ t s. record s { locks = t } }

  abbrev pub emit : Signal → Action (Store Place T) ⊤
  emit m = modify (λ s. record s { signals = m ∷ s.signals })
