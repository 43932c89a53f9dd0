-- ===== src/Link/Connect/Fresh.antt =====
-- The link that `Link::connect` returns.
use dbss.Common.{◌≡◌, refl, Bool, true, false, Option, none, some, ℕ}
use dbss.Link.{new_link}
use dbss.Link.Connect.{
  Kernel, Numbering, Connection, new_connection, sock_err, open_socket, client_link, after_connect,
  connect_socket, after_socket, next_call, connect,
}

-- A link that is returned has the buffers of a new one.
abbrev pub IsNew : Option Connection × Kernel → Type 0
IsNew (none, k) = Unit
IsNew (some c, k) = c.link ≡ some new_link

module _ ⦃n : Numbering⦄ where
  after_connect-IsNew : (fd : ℕ) (r : Bool × Kernel) → IsNew (after_connect fd r)
  unfolding after_connect client_link new_connection sock_err
  after_connect-IsNew fd (true, k) = refl
  after_connect-IsNew fd (false, k) = tt

  after_socket-IsNew : (r : Bool × Kernel) → IsNew (after_socket connect_socket r)
  unfolding after_socket connect_socket open_socket sock_err
  after_socket-IsNew (true, k) = after_connect-IsNew _ _
  after_socket-IsNew (false, k) = tt

  pub connect-IsNew : (k : Kernel) → IsNew (connect k)
  unfolding connect
  connect-IsNew k = after_socket-IsNew (next_call k)
