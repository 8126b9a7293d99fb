-- ===== src/Reactor/Types.antt =====
-- The types of async_io.hpp, and the operating system and OpenSSL as the reactor calls them.
use trinetra.Prelude.{ℕ, ◌≡◌, ◌≤◌, Bool, List, ◌∷◌, Option, All, length, not, ◌==◌, true}

pub data Proto : Type 0 where
  tcp tls : Proto

pub data OpResult : Type 0 where
  pending success connect_failed tls_failed send_failed timeout cancelled : OpResult

pub data Stage : Type 0 where
  connecting tls_handshake sending recv_first recv_idle finished : Stage

-- A count of seconds or milliseconds below 1 is as 0.
pub record Timeouts : Type 0 where
  pub connect_sec : ℕ
  pub first_byte_sec : ℕ
  pub idle_sec : ℕ
  pub min_connect_ms : ℕ

-- `self` is the address of the object, and `fd` is `none` for -1. A deadline of 0 is not set.
-- `wants_write` is the interest that the event queue has been told.
pub record Operation : Type 0 where
  pub self : ℕ
  pub proto : Proto
  pub send_payload : List ℕ
  pub timeouts : Timeouts
  pub fixed_port : Bool
  pub max_response_bytes : ℕ
  pub result : OpResult
  pub recv_data : List ℕ
  pub last_errno : ℕ
  pub last_ssl_error : ℕ
  pub connect_rtt : ℕ
  pub fd : Option ℕ
  pub stage : Stage
  pub sent : ℕ
  pub epoll_registered : Bool
  pub wants_write : Bool
  pub stage_deadline : ℕ
  pub connect_start : ℕ
  pub is_finished : Bool
  pub cancel_requested : Bool

-- `ops` and `deadlines` hold descriptors with the operation or behind the time. `calls` counts
-- the calls of the system, and `completed` the calls of `on_complete`, the latest first.
pub record EpollShard : Type 0 where
  pub pending : List ℕ
  pub closed : Bool
  pub ops : List (ℕ × ℕ)
  pub deadlines : List (ℕ × ℕ)
  pub rtt_samples_ms : List ℕ
  pub calls : ℕ
  pub completed : List (ℕ × OpResult)

-- A shard, and the operation that one of its handlers works on.
pub record Context : Type 0 where
  pub shard : EpollShard
  pub op : Operation

pub data SocketError : Type 0 where
  no_error : SocketError
  error : ℕ → SocketError
  call_failed : ℕ → SocketError

pub data ConnectResult : Type 0 where
  started : ℕ → Bool → ConnectResult
  refused : ℕ → ℕ → ConnectResult

-- What reads and writes may report. `got` has one byte at least, and `wrote n` is n + 1 bytes.
-- A plain socket that would block wants to write when it sends, and to read when it receives.
-- OpenSSL reports the end of its stream as `failed`, and has no `interrupted` of its own.
pub data WriteResult : Type 0 where
  wrote : ℕ → WriteResult
  interrupted want_read want_write : WriteResult
  failed : ℕ → WriteResult

pub data ReadResult : Type 0 where
  got : ℕ → List ℕ → ReadResult
  end_of_stream interrupted want_read want_write : ReadResult
  failed : ℕ → ReadResult

pub data HandshakeResult : Type 0 where
  connected want_read want_write : HandshakeResult
  failed : ℕ → HandshakeResult

-- A read gives no more than it is asked for.
pub data FitsRead (want : ℕ) : ReadResult → Type 0 where
  got : {b : ℕ} {bs : List ℕ} → length (b ∷ bs) ≤ want → FitsRead want (ReadResult.got b bs)
  end_of_stream : FitsRead want ReadResult.end_of_stream
  interrupted : FitsRead want ReadResult.interrupted
  want_read : FitsRead want ReadResult.want_read
  want_write : FitsRead want ReadResult.want_write
  failed : {e : ℕ} → FitsRead want (ReadResult.failed e)

-- A descriptor that is handed out is not one of those that are open.
pub data FreshFd (taken : List ℕ) : ConnectResult → Type 0 where
  started :
      {fd : ℕ} {in_progress : Bool}
      → All (λ n. not (n == fd) ≡ true) taken
      → FreshFd taken (ConnectResult.started fd in_progress)
  refused : {b c : ℕ} → FreshFd taken (ConnectResult.refused b c)

-- The calls by their number: each may give anything that its interface allows.
pub record System : Type 0 where
  pub now : ℕ → ℕ
  pub connect : ℕ → List ℕ → ConnectResult
  pub socket_error : ℕ → SocketError
  pub epoll_ctl : ℕ → Option ℕ
  pub new_ssl : ℕ → Bool
  pub ssl_connect : ℕ → HandshakeResult
  pub send : ℕ → WriteResult
  pub ssl_write : ℕ → WriteResult
  pub recv : ℕ → ℕ → ReadResult
  pub ssl_read : ℕ → ℕ → ReadResult
  pub connect_fresh : (call : ℕ) (taken : List ℕ) → FreshFd taken (connect call taken)
  pub recv_fits : (call want : ℕ) → FitsRead want (recv call want)
  pub ssl_read_fits : (call want : ℕ) → FitsRead want (ssl_read call want)
