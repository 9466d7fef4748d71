-- ===== src/Invariants/RoomChanges.antt =====
-- Entering and leaving a room, and fetching a packet, keep a stable property.
use mathlib.Core.Option.{some-injective}
use lhjsample.Common.{
  ℕ, ◌<◌, ◌≡◌, refl, sym, ap, ◌∙◌, subst, List, true, false, some, length, get_elem?, leb,
  if◌then◌else◌, arith, Bool-cases, inl, inr, ◌⊎◌,
}
use lhjsample.Common.Effect.{pure, lift, gets, update}
use lhjsample.Common.Effect.Keeps.{
  Keeps, Keeps-pure, Keeps-update, >>=-eq-some, lift-reads, gets-reads, pure-reads,
}
use lhjsample.Packet.{
  PacketId, ResultCode, zeroed_name, name_packet, notify_room_info, notify_room_leave,
  user_id_field, enter_room_full_user, enter_room_success, leave_room_success,
}
use lhjsample.Packet.Framing.{name_packet-IsFramed, length-name_packet, length-zeroed_name}
use lhjsample.User.{User}
use lhjsample.User.Buffer
use lhjsample.User.Buffer.{PacketInfo, PacketBuffer, set_packet_data, get_packet}
use lhjsample.User.Buffer.Packets.{get_packet-take_frame}
use lhjsample.User.Bindings.{UserIsValid}
use lhjsample.World.{
  World, Room, users, rooms, get_user, get_room, modify_room, put_user, send_packet,
}
use lhjsample.World.Inversion.{
  with_user, with_message, message, UserAt, get_user-reads, get_room-reads, modify_room-changes,
}
use lhjsample.Rooms.{
  push_user, remove_user, enter_room_user, admit_user, leave_room_user, send_to_all_user,
}
use lhjsample.PacketManager.{fetch_packet}
use lhjsample.Invariants.Stable.{Stable}
use lhjsample.Invariants.Derive.{send_packet-Keeps}
use lhjsample.Invariants.Handlers.{send_to_all_user-Keeps}

module _ {Db : Type 0} {P : World Db → Type 0} (stable : Stable P) where
  open stable use {pool, says, revises, pushes, removes}

  -- A broadcast keeps the property, together with what stands in a room and in the pool.
  broadcast-Keeps :
      (id : PacketId) (name : List ℕ) (c : ℕ) (members : List ℕ) (r i : ℕ) (room : Room) (u : User)
      → length name ≡ user_id_field
      → Keeps
          (λ w. P w × (get_elem? (rooms w) r ≡ some room) × UserAt w i u)
          (send_to_all_user 16 (name_packet id name) c false members)
  unfolding send_packet
  broadcast-Keeps id name c members r i room u n =
      send_to_all_user-Keeps 16 (name_packet id name) c false members λ k. Keeps-both k
    where
      Keeps-both :
          (k : ℕ)
          → Keeps
              (λ w. P w × (get_elem? (rooms w) r ≡ some room) × UserAt w i u)
              (send_packet k 16 (name_packet id name))
      Keeps-both k = Keeps-update _ λ w h. (
        subst (λ (x : ℕ). P (with_message w (message k x (name_packet id name))))
            (sym (length-name_packet id name n))
            (says w k (name_packet id name) (name_packet-IsFramed id name n) h.0),
        h.1,
        h.2,
      )

  admit_user-leads :
      (r i : ℕ) (room : Room) (w : World Db) (q : ResultCode × World Db)
      → P w
      → get_elem? (rooms w) r ≡ some room
      → room.current_user_count < room.max_user_count
      → admit_user r room i w ≡ some q
      → P q.1
  unfolding admit_user
  admit_user-leads r i room w q h at space e =
      let (a, e1, f1) = >>=-eq-some (get_user i) _ w q e in
      let (found, same1) = get_user-reads i w a e1 in
      let (b, e2, f2) = >>=-eq-some (lift (zeroed_name a.0.user_id)) _ a.1 q f1 in
      let (named, same2) = lift-reads (zeroed_name a.0.user_id) a.1 b e2 in
      let (c, e3, f3) =
        >>=-eq-some
          (send_to_all_user 16 (name_packet notify_room_info b.0) a.0.index false room.user_list) _
          b.1 q f2 in
      let start =
        subst (λ x. P x × (get_elem? (rooms x) r ≡ some room) × UserAt x i a.0)
          (sym (same2 ∙ same1)) (h, at, found) in
      let (h', at', found') =
        (broadcast-Keeps notify_room_info b.0 a.0.index room.user_list r i room a.0
            (length-zeroed_name a.0.user_id b.0 named)).at
          b.1 c start e3 in
      let (d, e4, f4) = >>=-eq-some (modify_room r (push_user i)) _ c.1 q f3 in
      let (old, new, here, pushed, changed) = modify_room-changes r (push_user i) c.1 d e4 in
      let (_, done) = pure-reads enter_room_success d.1 q f4 in
      let same_room : room ≡ old = some-injective _ _ (sym at' ∙ here) in
      let space' = subst (λ (x : Room). x.current_user_count < x.max_user_count) same_room space in
      subst P (sym (done ∙ changed)) (pushes c.1 r i old new a.0 here found' space' pushed h')

  pub enter_room_user-Keeps : (r i : ℕ) → Keeps P (enter_room_user r i)
  unfolding enter_room_user
  enter_room_user-Keeps r i = record {
    at = λ w q h e.
        let (a, e1, f1) = >>=-eq-some (get_room r) _ w q e in
        let (found, same) = get_room-reads r w a e1 in
        go a.0 a.1 q (subst P (sym same) h) (ap (λ x. get_elem? (rooms x) r) same ∙ found)
          (Bool-cases (leb a.0.max_user_count a.0.current_user_count)) f1;
  }
    where
      go :
          (room : Room) (w : World Db) (q : ResultCode × World Db)
          → P w
          → get_elem? (rooms w) r ≡ some room
          → (leb room.max_user_count room.current_user_count ≡ true)
            ⊎ (leb room.max_user_count room.current_user_count ≡ false)
          → (if leb room.max_user_count room.current_user_count
                then pure enter_room_full_user
                else admit_user r room i)
              w
            ≡ some q
          → P q.1
      go room w q h at (inl full) e =
          (Keeps-pure {P = P} enter_room_full_user).at w q h (rw full at e)
      go room w q h at (inr space) e =
          admit_user-leads r i room w q h at (ground arith) (rw space at e)

  pub leave_room_user-Keeps : (r i : ℕ) → Keeps P (leave_room_user r i)
  unfolding leave_room_user
  leave_room_user-Keeps r i = record {
    at = λ w q h e.
        let (a, e1, f1) = >>=-eq-some (get_room r) _ w q e in
        let (here, same1) = get_room-reads r w a e1 in
        let (b, e2, f2) = >>=-eq-some (get_user i) _ a.1 q f1 in
        let (found, same2) = get_user-reads i a.1 b e2 in
        let (c, e3, f3) = >>=-eq-some (lift (zeroed_name b.0.user_id)) _ b.1 q f2 in
        let (named, same3) = lift-reads (zeroed_name b.0.user_id) b.1 c e3 in
        let (d, e4, f4) =
          >>=-eq-some
            (send_to_all_user 16 (name_packet notify_room_leave c.0) b.0.index false a.0.user_list)
            _ c.1 q f3 in
        let start = subst P (sym (same3 ∙ same2 ∙ same1)) h in
        let h' =
          (send_to_all_user-Keeps 16 (name_packet notify_room_leave c.0) b.0.index false
              a.0.user_list
              (λ k.
                let n = length-zeroed_name b.0.user_id c.0 named in
                send_packet-Keeps stable k 16 _ (name_packet-IsFramed notify_room_leave c.0 n)
                  (length-name_packet notify_room_leave c.0 n))).at
            c.1 d start e4 in
        let (g, e5, f5) = >>=-eq-some (gets users) _ d.1 q f4 in
        let (whole, same4) = gets-reads users d.1 g e5 in
        let change = remove_user g.0 b.0.user_id in
        let (k, e6, f6) = >>=-eq-some (modify_room r change) _ g.1 q f5 in
        let (old, new, at, removed, changed) = modify_room-changes r change g.1 k e6 in
        let (_, done) = pure-reads leave_room_success k.1 q f6 in
        let removed' =
          subst (λ (x : List User). remove_user x b.0.user_id old ≡ some new)
            (whole ∙ sym (ap users same4)) removed in
        subst P (sym (done ∙ changed))
          (removes g.1 r b.0.user_id old new at removed' (subst P (sym same4) h'));
  }

  pub fetch_packet-Keeps : (i : ℕ) → Keeps P (fetch_packet i)
  unfolding fetch_packet put_user update
  fetch_packet-Keeps i = record {
    at = λ w q h e.
        let (a, e1, f1) = >>=-eq-some (get_user i) _ w q e in
        let (found, same1) = get_user-reads i w a e1 in
        let (b, e2, f2) = >>=-eq-some (lift (get_packet a.0.buffer)) _ a.1 q f1 in
        let (got, same2) = lift-reads (get_packet a.0.buffer) a.1 b e2 in
        let valid = pool w h i a.0 found in
        let (r, made, fresh, seen) = get_packet-take_frame a.0.buffer valid.buffer_valid in
        let same_packet : r ≡ b.0 = some-injective _ _ (sym made ∙ got) in
        let left_valid =
          subst (λ (x : PacketInfo × PacketBuffer). Buffer.IsValid x.1) same_packet fresh in
        let v : User = record a.0 { buffer = b.0.1 } in
        let kept : UserIsValid i v = record {
          position = valid.position;
          buffer_valid = left_valid;
          bindings = record { entered = valid.bindings.entered; bound = valid.bindings.bound };
        } in
        let (c, e3, f3) = >>=-eq-some (put_user i v) _ b.1 q f2 in
        let (_, done) = pure-reads _ c.1 q f3 in
        let written : c.1 ≡ with_user b.1 i v = sym (ap (λ x. x.1) (some-injective _ _ e3)) in
        subst P (sym (done ∙ written ∙ ap (λ x. with_user x i v) (same2 ∙ same1)))
          (revises w i a.0 v found refl kept h);
  }
