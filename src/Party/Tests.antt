-- ===== src/Party/Tests.antt =====
-- A party on which the service runs.
mod Elections
mod Leaders
mod Runs
use motogram.Prelude.{ℕ, refl, Bool, true, false, Option, none, some, List, [], ◌∷◌}
use motogram.Prelude.Assoc.{id_table, pair_table}
use motogram.Prelude.Action.{⊤}
use motogram.Party.Schema.{
  Party, Member, Invite, Route, PartyRole, leader, co_leader, member, riding, Tables, Store,
}

abbrev pub tables : Tables
tables = record {
  party = id_table Party;
  party_member = pair_table Member;
  invite = pair_table Invite;
  route = id_table Route;
  member_set = pair_table ⊤;
  user_party = id_table ℕ;
  active_set = id_table ⊤;
  zombie_set = pair_table ℕ;
  leader_lock = id_table ℕ;
  create_count = id_table ℕ;
  signal_count = id_table ℕ;
}

abbrev pub tour : Party
tour = record {
  name = "tour";
  leader_id = 1;
  co_leader_ids = 2 ∷ [];
  route_id = none;
  event_id = none;
  status = riding;
  is_private = false;
  max_members = 3;
  ended_at = none;
  deleted_at = none;
}

abbrev pub rider : PartyRole → ℕ → Option ℕ → Member
rider role joined left = record {
  role = role;
  is_online = true;
  joined_at = joined;
  left_at = left;
  server_hostname = none;
}

-- Users 1 (the leader) and 2 ride in party 1; user 4 has left it.
abbrev pub road : Store tables
road = record {
  parties = ((1, tour) ∷ [], (refl, tt));
  members = (
    ((1, 1), rider leader 1 none)
        ∷ ((1, 2), rider member 2 none)
        ∷ ((1, 4), rider member 3 (some 5))
        ∷ [],
    (refl, (refl, (refl, tt))),
  );
  invites = ([], tt);
  routes = ([], tt);
  member_sets = (((1, 1), tt) ∷ ((1, 2), tt) ∷ [], (refl, (refl, tt)));
  user_parties = ((1, 1) ∷ (2, 1) ∷ [], (refl, (refl, tt)));
  active = ((1, tt) ∷ [], (refl, tt));
  zombies = ([], tt);
  locks = ([], tt);
  creates = ([], tt);
  signals = ([], tt);
  has_emitter = true;
  sent = [];
}
