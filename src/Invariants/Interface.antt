-- ===== src/Invariants/Interface.antt =====
-- What has to be shown of a predicate on the world, once for each way to change the world.
use lhjsample.Common.{ℕ, ◌≡◌, List, Bool, Option, some, length, get_elem?, ℤ}
use lhjsample.Common.Effect.Keeps.{Keeps}
use lhjsample.Packet.Framing.{IsFramed}
use lhjsample.User.{User, clear, change_state, in_lobby, in_room, connected}
use lhjsample.World.{World, PacketQueues, Platform, users, modify_user, send_packet, call_db}
use lhjsample.Rooms.{enter_room_user, leave_room_user}
use lhjsample.Accounts.{delete_user_info}
use lhjsample.Session.{login_request}
use lhjsample.PacketManager.{update_queues, store_data, fetch_packet}

module _ {Db : Type 0} (p : Platform Db) where
  pub record Invariant (P : World Db → Type 0) : Type 0 where
    -- A user knows its position in the pool.
    pub positions :
        (w : World Db) (i : ℕ) (u : User) → P w → get_elem? (users w) i ≡ some u → u.index ≡ i
    pub sends :
        (client_index size : ℕ) (m : List ℕ)
        → IsFramed m
        → size ≡ length m
        → Keeps P (send_packet client_index size m)
    pub queries : (query : Db → Bool × Db) → Keeps P (call_db query)
    pub queues : (f : PacketQueues → PacketQueues) → Keeps P (update_queues f)
    pub stores : (i : ℕ) (p_data : List ℕ) → Keeps P (modify_user i (store_data p_data))
    pub fetches : (i : ℕ) → Keeps P (fetch_packet i)
    pub joins : (r i : ℕ) → Keeps P (enter_room_user r i)
    pub leaves : (r i : ℕ) → Keeps P (leave_room_user r i)
    pub moves : (i : ℕ) (n : ℤ) → Keeps P (modify_user i (λ u. some (record u { room_index = n })))
    pub connects : (i : ℕ) → Keeps P (modify_user i (change_state connected))
    pub lobbies : (i : ℕ) → Keeps P (modify_user i (change_state in_lobby))
    pub enters : (i : ℕ) → Keeps P (modify_user i (change_state in_room))
    pub clears : (i : ℕ) → Keeps P (modify_user i clear)
    pub deletes : (i : ℕ) → Keeps P (delete_user_info i)
    pub logins : (i : ℕ) (p_packet : Option ℕ) → Keeps P (login_request p i i p_packet)
