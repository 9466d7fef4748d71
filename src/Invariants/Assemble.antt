-- ===== src/Invariants/Assemble.antt =====
-- From a stable property of the data to a property of whole histories.
use lhjsample.Common.{◌≡◌, List, some}
use lhjsample.User.{connected, in_lobby, in_room}
use lhjsample.World.{World, Platform}
use lhjsample.ChatServer.{Event, run}
use lhjsample.Invariants.Interface.{Invariant}
use lhjsample.Invariants.Stable.{Stable}
use lhjsample.Invariants.Derive.{
  send_packet-Keeps, call_db-Keeps, update_queues-Keeps, store_data-Keeps, change_state-Keeps,
  moves-Keeps, clear-Keeps,
}
use lhjsample.Invariants.RoomChanges.{
  enter_room_user-Keeps, leave_room_user-Keeps, fetch_packet-Keeps,
}
use lhjsample.Invariants.AccountChanges.{delete_user_info-Keeps, login_request-Keeps}
use lhjsample.Invariants.Histories.{run-Keeps}

module _ {Db : Type 0} {P : World Db → Type 0} (stable : Stable P) (p : Platform Db) where
  open stable use {pool}

  invariant : Invariant p P
  invariant = record {
    positions = λ w i u h at. (pool w h i u at).position;
    sends = send_packet-Keeps stable;
    queries = call_db-Keeps stable;
    queues = update_queues-Keeps stable;
    stores = store_data-Keeps stable;
    fetches = fetch_packet-Keeps stable;
    joins = enter_room_user-Keeps stable;
    leaves = leave_room_user-Keeps stable;
    moves = moves-Keeps stable;
    connects = λ i. change_state-Keeps stable i connected (λ k. cc);
    lobbies = λ i. change_state-Keeps stable i in_lobby (λ k. cc);
    enters = λ i. change_state-Keeps stable i in_room (λ k. cc);
    clears = clear-Keeps stable;
    deletes = delete_user_info-Keeps stable;
    logins = login_request-Keeps stable p;
  }

  -- A history from a world of the property ends in one.
  pub run-stable :
      (es : List Event) (w : World Db) (r : Unit {0} × World Db) → P w → run p es w ≡ some r → P r.1
  run-stable es w r h e = (run-Keeps p invariant es).at w r h e
