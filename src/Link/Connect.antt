-- ===== src/Link/Connect.antt =====
-- src/net/link.cpp: `Link::connect`, `Link::listen`, `Link::accept`, the destructor, and the
-- settings of a socket. The kernel is the list of the descriptors that are open, and what its next
-- calls answer.
pub mod Descriptors
pub mod Fresh
use dbss.Common.{
  ℕ, zero, suc, ◌≡◌, refl, ap, ◌∙◌, Bool, true, false, ◌&&◌, ◌||◌, Option, none, some, List, [],
  ◌∷◌, Bytes, take, ◌==◌, if◌then◌else◌, arith, Bool-cases, inl, inr, if_elim,
}
use dbss.Text.{ℤ, pos, negsuc}
use dbss.Link.{Link, new_link}

-- A system call succeeds, or returns -1 with EINTR, or with another error.
pub data Answer : Type 0 where
  succeeds interrupted fails : Answer

-- The open descriptors, and the answers to come; behind the last one every call succeeds.
pub record Kernel : Type 0 where
  pub open_fds : List ℕ
  pub answers : List Answer

abbrev pub contains : ℕ → List ℕ → Bool
contains fd [] = false
contains fd (x ∷ xs) = (fd == x) || contains fd xs

abbrev pub remove : ℕ → List ℕ → List ℕ
remove fd [] = []
remove fd (x ∷ xs) = let rest = remove fd xs in if fd == x then rest else x ∷ rest

-- Which descriptor a new socket gets: one that is not open.
pub record Numbering : Type 0 where
  pub fresh : List ℕ → ℕ
  pub fresh_unused : (fds : List ℕ) → contains (fresh fds) fds ≡ false

-- `::setsockopt`, `::fcntl`, `::connect`, `::bind` and `::listen`: whether the call succeeds.
abbrev pub next_call : Kernel → Bool × Kernel
next_call k = elim k.answers [
  | [] ↦ (true, k)
  | succeeds ∷ later ↦ (true, record k { answers = later })
  | a ∷ later ↦ (false, record k { answers = later })
]

-- `::close(fd)`.
unfoldable pub close_fd : ℕ → Kernel → Kernel
close_fd fd k = record k { open_fds = remove fd k.open_fds }

-- The members of a `Link` that are about its socket; `link` has the others. `sock` is `none` for
-- -1, and `link` is `none` where `input` and `output` are NULL.
pub record Connection : Type 0 where
  pub sock : Option ℕ
  pub link : Option Link
  pub remote_ip : Bytes
  pub remote_port : ℤ

-- `Link::Link(is_server)`.
unfoldable pub new_connection : Bool → Connection
unfolding new_link
new_connection is_server = record {
  sock = none;
  link = if is_server then none else some new_link;
  remote_ip = [];
  remote_port = negsuc 0;
}

-- `Link::close`, and so `Link::~Link`.
unfoldable pub close : Connection → Kernel → Kernel
unfolding close_fd
close c k = elim c.sock [ none ↦ k | some fd ↦ close_fd fd k ]

-- `nodelay` and `keepalive` do not look at the result of `setsockopt`.
unfoldable pub set_option : Kernel → Kernel
set_option k = (next_call k).1

-- `noblock(enable)`. The code never looks at `noblock_` of a link that listens.
unfoldable pub set_noblock : Bool → Connection → Kernel → Connection × Kernel
set_noblock enable c k =
    let l : Option Link = elim c.link [
      | none ↦ none
      | some l ↦ some (record l { noblock = enable })
    ] in
    (record c { link = l }, (next_call k).1)

-- `sock_err:`, which closes a socket that was opened.
sock_err : Option ℕ → Kernel → Option Connection × Kernel
unfolding close_fd
sock_err none k = (none, k)
sock_err (some fd) k = (none, close_fd fd k)

module _ ⦃n : Numbering⦄ where
  -- `::socket`, and the end of an `::accept` that succeeds.
  unfoldable pub open_socket : Kernel → ℕ × Kernel
  open_socket k = let fd = n.fresh k.open_fds in (fd, record k { open_fds = fd ∷ k.open_fds })

  -- `link = new Link(); link->sock = sock; link->keepalive(true);`
  client_link : ℕ → Kernel → Option Connection × Kernel
  unfolding new_connection set_option
  client_link fd k = (some (record (new_connection false) { sock = some fd }), set_option k)

  after_connect : ℕ → Bool × Kernel → Option Connection × Kernel
  unfolding client_link sock_err
  after_connect fd (true, k) = client_link fd k
  after_connect fd (false, k) = sock_err (some fd) k

  connect_socket : ℕ × Kernel → Option Connection × Kernel
  unfolding after_connect
  connect_socket (fd, k) = after_connect fd (next_call k)

  after_socket :
      (ℕ × Kernel → Option Connection × Kernel) → Bool × Kernel → Option Connection × Kernel
  unfolding open_socket sock_err
  after_socket go (true, k) = go (open_socket k)
  after_socket go (false, k) = sock_err none k

  -- `Link::connect`.
  unfoldable pub connect : Kernel → Option Connection × Kernel
  unfolding after_socket connect_socket
  connect k = after_socket connect_socket (next_call k)

  -- Calls one after another, up to one that fails.
  next_calls : ℕ → Kernel → Bool × Kernel
  next_calls zero k = (true, k)
  next_calls (suc i) k = let (ok, k') = next_call k in if ok then next_calls i k' else (false, k')

  after_listen : Bytes → ℤ → ℕ → Bool × Kernel → Option Connection × Kernel
  unfolding new_connection sock_err
  after_listen ip port fd (true, k) = (
    some (record (new_connection true) {
      sock = some fd;
      remote_ip = take 15 ip;
      remote_port = port;
    }),
    k,
  )
  after_listen ip port fd (false, k) = sock_err (some fd) k

  -- `setsockopt`, `bind` and `listen` on the new socket.
  listen_socket : Bytes → ℤ → ℕ × Kernel → Option Connection × Kernel
  unfolding after_listen next_calls
  listen_socket ip port (fd, k) = after_listen ip port fd (next_calls 3 k)

  -- `Link::listen`. `remote_ip` is an array of 16 bytes.
  unfoldable pub listen : Bytes → ℤ → Kernel → Option Connection × Kernel
  unfolding after_socket listen_socket
  listen ip port k = after_socket (listen_socket ip port) (next_call k)

  -- `::accept` until it succeeds, or fails other than by EINTR.
  accept_call : List Answer → Bool × List Answer
  accept_call [] = (true, [])
  accept_call (succeeds ∷ later) = (true, later)
  accept_call (fails ∷ later) = (false, later)
  accept_call (interrupted ∷ later) = accept_call later

  with_peer : Bytes → ℤ → Option Connection × Kernel → Option Connection × Kernel
  with_peer ip port (none, k) = (none, k)
  with_peer ip port (some c, k) = (some (record c { remote_ip = ip; remote_port = port }), k)

  accepted : ℕ × Kernel → Option Connection × Kernel
  unfolding set_option client_link
  accepted (fd, k) = client_link fd (set_option k)

  after_accept : Bytes → ℤ → List ℕ → Bool × List Answer → Option Connection × Kernel
  unfolding open_socket accepted with_peer
  after_accept ip port fds (true, later) =
      with_peer ip port (accepted (open_socket (record { open_fds = fds; answers = later })))
  after_accept ip port fds (false, later) = (none, record { open_fds = fds; answers = later })

  -- `Link::accept`, where the peer has the address `ip` and `port`.
  unfoldable pub accept : Bytes → ℤ → Kernel → Option Connection × Kernel
  unfolding accept_call after_accept
  accept ip port k = after_accept ip port k.open_fds (accept_call k.answers)
