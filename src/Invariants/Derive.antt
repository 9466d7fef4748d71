-- ===== src/Invariants/Derive.antt =====
-- A stable property of the data is an invariant of the methods.
use mathlib.Core.Option.{some-injective}
use lhjsample.Common.{ℕ, ◌≡◌, ◌≢◌, refl, sym, subst, ℤ, List, Bool, Option, some, length}
use lhjsample.Common.Fallible.{>>=-eq-some as bind-eq-some}
use lhjsample.Common.Effect.Keeps.{Keeps, Keeps-pure, Keeps-gets, Keeps-bind, Keeps-update}
use lhjsample.Packet.Framing.{IsFramed}
use lhjsample.User.{User, UserState, disconnect, clear, change_state}
use lhjsample.User.Buffer.{set_packet_data}
use lhjsample.User.Buffer.Append.{set_packet_data-IsValid}
use lhjsample.User.Bindings.{UserIsValid, change_state-UserIsValid, change_state-user_id}
use lhjsample.World.{World, PacketQueues, modify_user, send_packet, call_db}
use lhjsample.World.Inversion.{with_message, message, modify_user-changes}
use lhjsample.PacketManager.{update_queues, store_data}
use lhjsample.Invariants.Stable.{Stable}

module _ {Db : Type 0} {P : World Db → Type 0} (stable : Stable P) where
  open stable use {pool, says, queries, queues, revises, pushes, removes, clears, deletes, logins}

  pub send_packet-Keeps :
      (c size : ℕ) (m : List ℕ) → IsFramed m → size ≡ length m → Keeps P (send_packet c size m)
  unfolding send_packet
  send_packet-Keeps c size m f e =
      Keeps-update _
        λ w h. subst (λ (n : ℕ). P (with_message w (message c n m))) (sym e) (says w c m f h)

  pub call_db-Keeps : (query : Db → Bool × Db) → Keeps P (call_db query)
  unfolding call_db
  call_db-Keeps query =
      Keeps-bind _ _ (Keeps-gets _)
        λ r. Keeps-bind _ _ (Keeps-update _ (λ w h. queries w r.1 h)) λ _. Keeps-pure r.0

  pub update_queues-Keeps : (f : PacketQueues → PacketQueues) → Keeps P (update_queues f)
  unfolding update_queues
  update_queues-Keeps f = Keeps-update _ λ w h. queues w (f w.queues) h

  -- A method of a valid user that keeps its id and its validity.
  pub modify_user-Keeps :
      (i : ℕ) (method : User → Option User)
      → ((u v : User)
          → UserIsValid i u
          → method u ≡ some v
          → (v.user_id ≡ u.user_id) × UserIsValid i v)
      → Keeps P (modify_user i method)
  modify_user-Keeps i method ok = record {
    at = λ w q h e.
        let (u, v, at, made, changed) = modify_user-changes i method w q e in
        let (same, valid) = ok u v (pool w h i u at) made in
        subst P (sym changed) (revises w i u v at same valid h);
  }

  pub store_data-Keeps : (i : ℕ) (p_data : List ℕ) → Keeps P (modify_user i (store_data p_data))
  unfolding store_data
  store_data-Keeps i p_data = modify_user-Keeps i (store_data p_data) λ u v valid e.
      let (b, stored, made) = bind-eq-some (set_packet_data p_data u.buffer) _ e in
      let u' : User = record u { buffer = b } in
      let kept : UserIsValid i u' = record {
        position = valid.position;
        buffer_valid = set_packet_data-IsValid u.buffer b p_data valid.buffer_valid stored;
        bindings = record { entered = valid.bindings.entered; bound = valid.bindings.bound };
      } in
      subst (λ (x : User). (x.user_id ≡ u.user_id) × UserIsValid i x) (some-injective _ _ made)
        (refl, kept)

  pub change_state-Keeps :
      (i : ℕ) (s : UserState) → s ≢ disconnect → Keeps P (modify_user i (change_state s))
  change_state-Keeps i s d = modify_user-Keeps i (change_state s) λ u v valid e.
      (change_state-user_id i u v valid s e, change_state-UserIsValid i u v valid s d e)

  pub moves-Keeps :
      (i : ℕ) (n : ℤ) → Keeps P (modify_user i (λ u. some (record u { room_index = n })))
  moves-Keeps i n = modify_user-Keeps i _ λ u v valid e.
      let u' : User = record u { room_index = n } in
      let kept : UserIsValid i u' = record {
        position = valid.position;
        buffer_valid = valid.buffer_valid;
        bindings = record { entered = valid.bindings.entered; bound = valid.bindings.bound };
      } in
      subst (λ (x : User). (x.user_id ≡ u.user_id) × UserIsValid i x) (some-injective _ _ e)
        (refl, kept)

  pub clear-Keeps : (i : ℕ) → Keeps P (modify_user i clear)
  clear-Keeps i = record {
    at = λ w q h e.
        let (u, v, at, made, changed) = modify_user-changes i clear w q e in
        subst P (sym changed) (clears w i u v at made h);
  }
