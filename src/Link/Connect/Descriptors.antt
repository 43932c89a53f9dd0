-- ===== src/Link/Connect/Descriptors.antt =====
-- Which descriptors are open behind `Link::connect`, `Link::listen` and `Link::accept`.
use dbss.Common.{
  ℕ, zero, suc, ◌≡◌, refl, sym, ap, ◌∙◌, Bool, true, false, Option, none, some, List, [], ◌∷◌,
  Bytes, arith, if_elim,
}
use dbss.Text.{ℤ}
use dbss.Link.Connect.{
  Answer, succeeds, interrupted, fails, Kernel, contains, remove, Numbering, next_call, Connection,
  close, close_fd, set_option, sock_err, open_socket, client_link, after_connect, connect_socket,
  after_socket, connect, next_calls, after_listen, listen_socket, listen, accept_call, with_peer,
  accepted, after_accept, accept, new_connection,
}

remove_unused : (fd : ℕ) (xs : List ℕ) → contains fd xs ≡ false → remove fd xs ≡ xs
remove_unused fd [] h = refl
remove_unused fd (x ∷ xs) h = ground (arith, remove_unused fd xs)

pub remove-cons : (fd : ℕ) (xs : List ℕ) → contains fd xs ≡ false → remove fd (fd ∷ xs) ≡ xs
remove-cons fd xs h = ground (arith, remove_unused fd xs h)

next_call_same : (k : Kernel) → (next_call k).1.open_fds ≡ k.open_fds
next_call_same k = by_answers k.open_fds k.answers
  where
    by_answers :
        (fds : List ℕ) (later : List Answer)
        → (next_call (record { open_fds = fds; answers = later })).1.open_fds ≡ fds
    by_answers fds [] = refl
    by_answers fds (succeeds ∷ later) = refl
    by_answers fds (interrupted ∷ later) = refl
    by_answers fds (fails ∷ later) = refl

-- Where descriptors `fds` were open: a failure leaves them as they were; a link has one descriptor
-- that was not open, which is open now besides them, and which `close` closes again.
unfoldable pub Opens : List ℕ → Option Connection × Kernel → Type 0
Opens fds (none, k) = k.open_fds ≡ fds
Opens fds (some c, k) =
    (fd : ℕ) × (c.sock ≡ some fd)
    × (contains fd fds ≡ false)
    × (k.open_fds ≡ fd ∷ fds)
    × ((close c k).open_fds ≡ fds)

-- What is left when the new socket `fd` is open.
Opens-some :
    (fds : List ℕ) (fd : ℕ) (c : Connection) (k : Kernel)
    → c.sock ≡ some fd
    → contains fd fds ≡ false
    → k.open_fds ≡ fd ∷ fds
    → Opens fds (some c, k)
unfolding Opens close close_fd
Opens-some fds fd c k e h o = (fd, e, h, o, rw (e, close) (rw (o, close_fd) (remove-cons fd fds h)))

sock_err-Opens :
    (fds : List ℕ) (fd : ℕ) (k : Kernel)
    → contains fd fds ≡ false
    → k.open_fds ≡ fd ∷ fds
    → Opens fds (sock_err (some fd) k)
unfolding Opens sock_err close_fd
sock_err-Opens fds fd k h o = rw o (remove-cons fd fds h)

set_option_same : (k : Kernel) → (set_option k).open_fds ≡ k.open_fds
unfolding set_option
set_option_same k = next_call_same k

module _ ⦃n : Numbering⦄ where
  client_link-Opens :
      (fds : List ℕ) (fd : ℕ) (k : Kernel)
      → contains fd fds ≡ false
      → k.open_fds ≡ fd ∷ fds
      → Opens fds (client_link fd k)
  unfolding client_link
  client_link-Opens fds fd k h o =
      Opens-some fds fd (record (new_connection false) { sock = some fd }) (set_option k) refl h
        (set_option_same k ∙ o)

  after_connect-Opens :
      (fds : List ℕ) (fd : ℕ) (ok : Bool) (k : Kernel)
      → contains fd fds ≡ false
      → k.open_fds ≡ fd ∷ fds
      → Opens fds (after_connect fd (ok, k))
  unfolding after_connect
  after_connect-Opens fds fd true k h o = client_link-Opens fds fd k h o
  after_connect-Opens fds fd false k h o = sock_err-Opens fds fd k h o

  after_listen-Opens :
      (fds : List ℕ) (ip : Bytes) (port : ℤ) (fd : ℕ) (ok : Bool) (k : Kernel)
      → contains fd fds ≡ false
      → k.open_fds ≡ fd ∷ fds
      → Opens fds (after_listen ip port fd (ok, k))
  unfolding after_listen
  after_listen-Opens fds ip port fd true k h o = Opens-some fds fd _ k refl h o
  after_listen-Opens fds ip port fd false k h o = sock_err-Opens fds fd k h o

  next_calls_same : (i : ℕ) (k : Kernel) → (next_calls i k).1.open_fds ≡ k.open_fds
  unfolding next_calls
  next_calls_same zero k = refl
  next_calls_same (suc i) k =
      if_elim (λ (r : Bool × Kernel). r.1.open_fds ≡ k.open_fds) (next_call k).0 _ _
        (λ _. next_calls_same i (next_call k).1 ∙ next_call_same k) (λ _. next_call_same k)

  -- `socket`, and what each operation does with its result.
  after_socket-Opens :
      (go : ℕ × Kernel → Option Connection × Kernel) (fds : List ℕ) (ok : Bool) (k : Kernel)
      → ((fd : ℕ) (k' : Kernel)
          → contains fd fds ≡ false
          → k'.open_fds ≡ fd ∷ fds
          → Opens fds (go (fd, k')))
      → k.open_fds ≡ fds
      → Opens fds (after_socket go (ok, k))
  unfolding after_socket Opens sock_err open_socket
  after_socket-Opens go fds false k next e = e
  after_socket-Opens go fds true k next e =
      next (n.fresh k.open_fds) _
        (ap (contains (n.fresh k.open_fds)) (sym e) ∙ n.fresh_unused k.open_fds)
        (ap (λ t. n.fresh k.open_fds ∷ t) e)

  connect-Opens : (k : Kernel) → Opens k.open_fds (connect k)
  unfolding connect connect_socket
  connect-Opens k =
      after_socket-Opens connect_socket k.open_fds (next_call k).0 (next_call k).1
        (λ fd k' h o.
          after_connect-Opens k.open_fds fd (next_call k').0 (next_call k').1 h
            (next_call_same k' ∙ o))
        (next_call_same k)

  listen-Opens : (ip : Bytes) (port : ℤ) (k : Kernel) → Opens k.open_fds (listen ip port k)
  unfolding listen listen_socket
  listen-Opens ip port k =
      after_socket-Opens (listen_socket ip port) k.open_fds (next_call k).0 (next_call k).1
        (λ fd k' h o.
          after_listen-Opens k.open_fds ip port fd (next_calls 3 k').0 (next_calls 3 k').1 h
            (next_calls_same 3 k' ∙ o))
        (next_call_same k)

  after_accept-Opens :
      (ip : Bytes) (port : ℤ) (fds : List ℕ) (ok : Bool) (later : List Answer)
      → Opens fds (after_accept ip port fds (ok, later))
  unfolding after_accept Opens open_socket accepted with_peer client_link
  after_accept-Opens ip port fds false later = refl
  after_accept-Opens ip port fds true later =
      Opens-some fds (n.fresh fds) _ _ refl (n.fresh_unused fds)
        (set_option_same _ ∙ set_option_same _)

  accept-Opens : (ip : Bytes) (port : ℤ) (k : Kernel) → Opens k.open_fds (accept ip port k)
  unfolding accept
  accept-Opens ip port k =
      after_accept-Opens ip port k.open_fds (accept_call k.answers).0 (accept_call k.answers).1

  -- Whatever the kernel's calls answer, `connect`, `listen` and `accept` either return NULL and
  -- leave the open descriptors as they were, or return a link with one new descriptor, open besides
  -- those, which the link's destructor closes again.
  pub links-Opens :
      (ip : Bytes) (port : ℤ) (k : Kernel)
      → Opens k.open_fds (connect k)
        × Opens k.open_fds (listen ip port k)
        × Opens k.open_fds (accept ip port k)
  links-Opens ip port k = (connect-Opens k, listen-Opens ip port k, accept-Opens ip port k)
