-- ===== src/Socket.antt =====
-- tarsx/Socket.cc, and the functions of tarsx/NetworkUtil.cc that it calls. What the system's calls
-- answer is an argument; a fatal log entry, which ends the program, is `none`.
pub mod Owned
mod Tests
use tarsx.Prelude.{
  ℕ, Bool, true, false, Option, none, some, List, [], ◌∷◌, ◌++◌, if◌then◌else◌, ◌>>=◌, ◌>>◌, guard,
}

-- `fd_`, `none` for -1, `owner_`, and whether `domain_` is `AF_INET`; and the descriptors that were
-- given to `::close`, in this order.
pub record Socket : Type 0 where
  pub fd : Option ℕ
  pub owner : Bool
  pub inet : Bool
  pub closed : List ℕ

-- `Socket()`.
unfoldable pub construct : Socket
construct = record { fd = none; owner = true; inet = true; closed = [] }

unfoldable pub close : Socket → Socket
close s = elim s.fd [ none ↦ s | some fd ↦ record s { fd = none; closed = s.closed ++ fd ∷ [] } ]

-- `~Socket()`.
unfoldable pub destruct : Socket → Socket
destruct s = if s.owner then close s else s

unfoldable pub init : Option ℕ → Bool → Bool → Socket → Socket
init fd owner inet s =
    let s' = if s.owner then close s else s in record s' { fd = fd; owner = owner; inet = inet }

-- `NetworkUtil::createSocket`: what `::socket` answers, and whether the two options can be set.
unfoldable pub create : Option ℕ → Bool → Bool → Option ℕ
create answer no_delay keep_alive = do fd ← answer; guard no_delay; guard keep_alive; some fd

-- `createSocket` for a stream or a datagram.
unfoldable pub create_socket : Bool → Option ℕ → Bool → Bool → Socket → Option Socket
create_socket inet answer no_delay keep_alive s = do
  fd ← create answer no_delay keep_alive
  some (record (close s) { fd = some fd; inet = inet })

-- What `::accept` answers: a descriptor, the error `EINTR`, or another one.
pub data Taken : Type 0 where
  took : ℕ → Taken
  interrupted failed : Taken

-- The loop of `accept`. Past the answers' end `::accept` fails.
unfoldable pub accept_loop : List Taken → Option ℕ
accept_loop [] = none
accept_loop (took fd ∷ answers) = some fd
accept_loop (interrupted ∷ answers) = accept_loop answers
accept_loop (failed ∷ answers) = none

-- `accept` of a listening socket: `sock`, and the answer, `none` for -1.
unfoldable pub accept : List Taken → Socket → Socket → Option (Option ℕ × Socket)
accept answers s sock =
    let fd = accept_loop answers in
    elim sock.fd [ none ↦ some (fd, record sock { fd = fd; inet = s.inet }) | some _ ↦ none ]

-- `bind`, `connect` and `set_block`, for what their system call answers: `NetworkUtil` closes the
-- descriptor of a failed one, and ends the program. `connect` may also be in progress.
unfoldable pub bind : Bool → Socket → Option Socket
bind bound s = do guard s.inet; guard bound; some s

pub data Connecting : Type 0 where
  connected in_progress refused : Connecting

unfoldable pub connect : Connecting → Socket → Option (Bool × Socket)
connect connected s = do guard s.inet; some (true, s)
connect in_progress s = do guard s.inet; some (false, s)
connect refused s = none

unfoldable pub set_block : Bool → Socket → Option Socket
set_block done s = do guard done; some s

unfoldable pub set_owner : Bool → Socket → Socket
set_owner owner s = record s { owner = owner }
