-- ===== src/Network/Reuse.antt =====
-- When the accepter uses a session again: `PostAccept` marks a session with a time that no clock of
-- seconds reaches, and `Close` does not reset it.
use lhjsample.Common.{ℕ, ◌+◌, ◌≤◌, ◌≡◌, refl, false, some, get_elem?, arith}
use lhjsample.Common.Effect.{◌>>=◌}
use lhjsample.Network.{ClientInfo, Winsock, Network, uint32_max, get_client_info, is_connected}
use lhjsample.Network.Server.{accept_clients, is_acceptable}

-- A session that was given a socket once cannot be chosen again before the time
-- `UINT32_MAX + 3` seconds, connected or not.
pub is_acceptable-used :
    (cur_time_sec : ℕ) (c : ClientInfo)
    → c.latest_closed_time_sec ≡ uint32_max
    → cur_time_sec ≤ uint32_max + 3
    → is_acceptable cur_time_sec c ≡ false
unfolding is_acceptable is_connected
is_acceptable-used cur_time_sec c used early = ground arith

module _ {Os : Type 0} (s : Winsock Os) where
  -- The accepter passes over such a session.
  pub accept_clients-used :
      (cur_time_sec i : ℕ) (c : ClientInfo) (n : Network Os)
      → get_elem? n.client_infos i ≡ some c
      → c.latest_closed_time_sec ≡ uint32_max
      → cur_time_sec ≤ uint32_max + 3
      → accept_clients s cur_time_sec i 1 n ≡ some (tt, n)
  unfolding accept_clients get_client_info ◌>>=◌
  accept_clients-used cur_time_sec i c n at used early =
      rw (at, is_acceptable-used cur_time_sec c used early) refl
