-- ===== src/PacketManager/Safety.antt =====
-- LHJSample/PacketManager.cpp: which rounds of the packet thread end, in a safe world.
pub mod Rounds
use mathlib.Core.Option.{some-injective}
use lhjsample.Common.{
  get_elem?-set_self, get_elem?-lt, get_elem?_of_lt, ℕ, ◌+◌, ◌≤◌, ◌<◌, ◌≡◌, refl, sym, ap, ◌∙◌,
  subst, ◌⊎◌, inl, inr, List, [], ◌∷◌, ◌++◌, Bool, true, false, Bool-cases, Option, Option-cases,
  some, none, length, get_elem?, set, ltb, ◌==◌, if◌then◌else◌, arith, lt→ltb, le→not-ltb, ltb→lt,
}
use lhjsample.Common.Effect.{Effect, pure, update, lift, gets, ◌>>=◌, ◌>>◌}
use lhjsample.Packet.{
  PacketId, packet_id, sys_user_connect, sys_user_disconnect, sys_end, user_id_field,
  req_create_account, req_login, req_lobby_info, req_room_enter, req_room_info, req_room_leave,
  req_room_chat,
}
use lhjsample.User.Buffer
use lhjsample.User.Buffer.{PacketInfo, PacketBuffer, no_packet, get_packet}
use lhjsample.User.{User, UserState, connected, clear, change_state, Handler, ignore}
use lhjsample.User.Bindings.{UserIsValid, protocol, IsRequest, clear-UserIsValid, clear-user_id}
use lhjsample.World.{World, Platform, users, get_user, put_user, modify_user}
use lhjsample.World.Inversion.{UserAt, with_user}
use lhjsample.World.Safety.{
  AllBelow, AllSystem, IsSystem, Safe, Any, Known, Ends, Ends-pure, Ends-bind, Ends-if,
  get_user-Ends, modify_user-Ends, Safe-with_user,
}
use lhjsample.Accounts.{delete_user_info, update_dictionary}
use lhjsample.Session.{call_handler}
use lhjsample.Session.Safety.{change_state-Known}
use lhjsample.Session.Safety.Requests.{CanServe, call_handler-ends}
use lhjsample.PacketManager.{
  Method, process_user_connect, process_user_disconnect, process_request, recv_funtion,
  user_connect, clear_connection_info, deque_packet_data, deque_system_packet_data,
  deque_system_from, update_queues, user_request, call_method, process_recv_packet,
  process_client_packet, process_system_packet, process_packet,
}
use lhjsample.PacketManager.Order.{after_fetch, deque_packet_data-get_packet}
use lhjsample.User.Buffer.Packets.{get_packet-take_frame}

-- `Clear` ends on every user, and leaves a known one.
clear-Known : (i : ℕ) (u : User) → Known i u → (v : User) × (clear u ≡ some v) × Known i v
clear-Known i u (valid, short) = elim (Option-cases (clear u)) [
  | inl fault ↦ absurd (clear-ne-none u fault)
  | inr (v, e) ↦ (
    v,
    e,
    (
      clear-UserIsValid i u v valid e,
      subst (λ x. length x ≤ user_id_field) (sym (clear-user_id u v e)) (omega arith),
    ),
  )
]
  where
    clear-ne-none : (x : User) → ¬ (clear x ≡ none)
    clear-ne-none x e = unfold clear change_state in ground arith

-- A packet above the ids of the system is dropped or is a request.
pub recv_funtion-IsRequest :
    (x : ℕ)
    → packet_id sys_end < x
    → (recv_funtion x ≡ none)
      ⊎ ((id : PacketId) × (x ≡ packet_id id)
          × IsRequest x
          × (recv_funtion x ≡ some (process_request id)))
unfolding recv_funtion
recv_funtion-IsRequest x high = elim (Bool-cases (x == packet_id req_create_account)) [
  | inl same ↦ inr (req_create_account, ground arith, ground arith, ground arith)
  | inr other0 ↦ elim (Bool-cases (x == packet_id req_login)) [
    | inl same ↦ inr (req_login, ground arith, ground arith, ground arith)
    | inr other1 ↦ elim (Bool-cases (x == packet_id req_lobby_info)) [
      | inl same ↦ inr (req_lobby_info, ground arith, ground arith, ground arith)
      | inr other2 ↦ elim (Bool-cases (x == packet_id req_room_enter)) [
        | inl same ↦ inr (req_room_enter, ground arith, ground arith, ground arith)
        | inr other3 ↦ elim (Bool-cases (x == packet_id req_room_info)) [
          | inl same ↦ inr (req_room_info, ground arith, ground arith, ground arith)
          | inr other4 ↦ elim (Bool-cases (x == packet_id req_room_leave)) [
            | inl same ↦ inr (req_room_leave, ground arith, ground arith, ground arith)
            | inr other5 ↦ elim (Bool-cases (x == packet_id req_room_chat)) [
              | inl same ↦ inr (req_room_chat, ground arith, ground arith, ground arith)
              | inr other6 ↦ inl (ground arith)
            ]
          ]
        ]
      ]
    ]
  ]
]

-- A user has a handler for each request.
pub request-bound :
    (i x : ℕ) (u : User)
    → UserIsValid i u
    → IsRequest x
    → (h : Handler) × (u.recv_funtion_dictionary x ≡ some h)
request-bound i x u valid request = elim (valid.bindings.bound x request) [
  | inl e ↦ (ignore, e)
  | inr e ↦ (protocol u.state x, e)
]

-- A packet above the ids of the system stands in the buffer.
pub get_packet-pointer :
    (b : PacketBuffer) (r : PacketInfo × PacketBuffer)
    → get_packet b ≡ some r
    → 0 < r.0.packet_id
    → (offset : ℕ) × (r.0.data_ptr ≡ some offset)
unfolding get_packet
get_packet-pointer b r e high = elim (Option-cases r.0.data_ptr) [
  | inl missing ↦ absurd (ground arith)
  | inr found ↦ found
]

-- What is taken from the queue of the system.
abbrev Taken : ℕ → PacketInfo → Type 0
Taken k packet = (packet.packet_id ≡ 0) ⊎ IsSystem k packet

module _ {Db : Type 0} (k n : ℕ) where
  user_connect-Ends : (i : ℕ) → i < k → Ends {Db = Db} k n Any (user_connect i)
  unfolding user_connect
  user_connect-Ends i below =
      Ends-bind k n _ _ (modify_user-Ends k n i _ below (clear-Known i)) λ _ _.
        modify_user-Ends k n i _ below
          λ u known. change_state-Known connected i u (λ h. cc) (λ h. cc) (λ h. cc) known

  clear_connection_info-Ends : (i : ℕ) → i < k → Ends {Db = Db} k n Any (clear_connection_info i)
  unfolding clear_connection_info delete_user_info update_dictionary update
  clear_connection_info-Ends i below = Ends-bind k n _ _ (get_user-Ends k n i below) λ u known.
      Ends-if k n _ _ _ (Ends-pure k n tt tt) (
        Ends-bind k n _ _ (get_user-Ends k n i below) λ v known'.
          Ends-bind k n {P = Any} _ _
            (record {
              at = λ w s. (
                (tt, _),
                refl,
                tt,
                record {
                  user_count = s.user_count;
                  room_count = s.room_count;
                  valid = s.valid;
                  short = s.short;
                  members = s.members;
                  range = s.range;
                  incoming = s.incoming;
                  system = s.system;
                },
              );
            })
            λ _ _. modify_user-Ends k n i _ below (clear-Known i))

  deque_system_packet_data-Ends : Ends {Db = Db} k n (Taken k) deque_system_packet_data
  unfolding deque_system_packet_data ◌>>=◌ deque_system_from update_queues update pure
  deque_system_packet_data-Ends = record {
    at = λ w s. take_first w w.queues.system_packet_queue refl s;
  }
    where
      take_first :
          (w : World Db) (queue : List PacketInfo)
          → w.queues.system_packet_queue ≡ queue
          → Safe k n w
          → (q : PacketInfo × World Db) × (deque_system_packet_data w ≡ some q)
            × Taken k q.0
            × Safe k n q.1
      take_first w [] e s = ((no_packet, w), rw e refl, inl refl, s)
      take_first w (packet ∷ rest) e s =
          let (first, others) = subst (AllSystem k) e s.system in
          (
            (packet, record w { queues = record w.queues { system_packet_queue = rest } }),
            rw e refl,
            inr first,
            record {
              user_count = s.user_count;
              room_count = s.room_count;
              valid = s.valid;
              short = s.short;
              members = s.members;
              range = s.range;
              incoming = s.incoming;
              system = others;
            },
          )

  module _ (p : Platform Db) where
    pub process_system_packet-Ends : Ends {Db = Db} k n Any (process_system_packet p)
    unfolding process_system_packet process_recv_packet recv_funtion call_method
    process_system_packet-Ends = Ends-bind k n _ _ deque_system_packet_data-Ends λ packet taken.
        elim taken [
          | inl empty ↦ rw empty (Ends-pure k n tt tt)
          | inr (below, inl connects) ↦ rw connects (user_connect-Ends packet.client_index below)
          | inr (below, inr leaves) ↦
              rw leaves (clear_connection_info-Ends packet.client_index below)
        ]
