-- ===== src/Dbss/Connect.antt =====
-- src/DBSS.cc and src/SSDB_impl.cpp: the life of a `DBSS`: its constructor, `connect`, and its
-- destructor. Of the object only `client.link` has a part here; printing and the handling of
-- SIGPIPE are left out.
use dbss.Common.{subst, [], ◌≡◌, Bool, true, false, Option, none, some}
use dbss.Text.{ℤ, pos}
use dbss.Link.Connect.{Kernel, Numbering, Connection, connect as link_connect, close}
use dbss.Link.{new_link}
use dbss.Link.Connect.Fresh.{IsNew, connect-IsNew}
use dbss.Link.Connect.Descriptors.{Opens, links-Opens}

-- `client.link`, NULL until a connection is made, and the kernel.
pub record Handle : Type 0 where
  pub link : Option Connection
  pub kernel : Kernel

-- `ClientImpl::~ClientImpl`, and so `DBSS_gc`.
unfoldable pub destroy : Handle → Kernel
unfolding close
destroy h = elim h.link [ none ↦ h.kernel | some c ↦ close c h.kernel ]

module _ ⦃n : Numbering⦄ where
  -- The link that was there is not looked at.
  connected : Option Connection × Kernel → Bool × Handle
  connected (none, k) = (false, record { link = none; kernel = k })
  connected (some c, k) = (true, record { link = some c; kernel = k })

  -- `ClientImpl::connect`.
  unfoldable pub client_connect : Handle → Bool × Handle
  unfolding connected link_connect
  client_connect h = connected (link_connect h.kernel)

  ret_of : Bool × Handle → ℤ × Handle
  ret_of (true, h) = (pos 1, h)
  ret_of (false, h) = (pos 0, h)

  -- `DBSS::connect`: `client = ssdb::ClientImpl()` sets `link` to NULL.
  unfoldable pub connect : Handle → ℤ × Handle
  unfolding client_connect ret_of
  connect h = ret_of (client_connect (record h { link = none }))

  -- `DBSS::DBSS`, and so `DBSS_new`, which does not look at the result of `connect`.
  unfoldable pub new_dbss : Kernel → Handle
  unfolding connect
  new_dbss k = (connect (record { link = none; kernel = k })).1

  -- A link made by `Link::connect`, put in place and destroyed.
  destroy-connected :
      (r : Option Connection × Kernel) (k : Kernel)
      → Opens k.open_fds r
      → (destroy (ret_of (connected r)).1).open_fds ≡ k.open_fds
  unfolding destroy connected ret_of Opens
  destroy-connected (none, k') k e = e
  destroy-connected (some c, k') k (fd, e, h, o, closed) = closed

  destroy-connect : (h : Handle) → (destroy (connect h).1).open_fds ≡ h.kernel.open_fds
  unfolding connect client_connect
  destroy-connect h =
      destroy-connected (link_connect h.kernel) h.kernel (links-Opens [] (pos 0) h.kernel).0

  -- A `DBSS` that is made and destroyed leaves the open descriptors as they were. When
  -- `connect` is called on it in between, the descriptors that it had opened before stay open.
  pub descriptors_left :
      (k : Kernel)
      → ((destroy (new_dbss k)).open_fds ≡ k.open_fds)
        × ((destroy (connect (new_dbss k)).1).open_fds ≡ (new_dbss k).kernel.open_fds)
  unfolding new_dbss
  descriptors_left k =
      (destroy-connect (record { link = none; kernel = k }), destroy-connect (new_dbss k))

  connected-IsNew :
      (r : Option Connection × Kernel) (c : Connection)
      → IsNew r
      → (ret_of (connected r)).1.link ≡ some c
      → c.link ≡ some new_link
  unfolding connected ret_of
  connected-IsNew (none, k) c h e = absurd (none_ne e)
    where
      none_ne : none ≡ some c → ⊥
      none_ne e = cc
  connected-IsNew (some d, k) c h e =
      subst (λ (o : Option Connection). elim o [ none ↦ Unit | some x ↦ x.link ≡ some new_link ]) e
        h

  -- The link of a `DBSS` that has one has empty buffers.
  pub new_dbss_link :
      (k : Kernel) (c : Connection) → (new_dbss k).link ≡ some c → c.link ≡ some new_link
  unfolding new_dbss connect client_connect
  new_dbss_link k c e = connected-IsNew (link_connect k) c (connect-IsNew k) e
