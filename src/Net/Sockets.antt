-- ===== src/Net/Sockets.antt =====
-- ham/net/SocketOps.cc, ham/net/InetAddress.h, ham/net/InetAddress.cc: addresses, and what the wrappers
-- of the system calls make of their outcomes. `inet_ntop` and `inet_pton` are arguments.
use mathlib.Core.Bool.{false≢true}
use ham.Base.Text.{decimal}
use ham.Net.Buffer.Ints.{host_to_network, network_to_host}
use ham.Net.Buffer.Ints.NetworkOrder.{network_to_host-host_to_network}
use ham.Base.{
  ==-self, Bool-cases, critical, ℕ, ◌^◌, ◌<◌, ◌≡◌, refl, inl, inr, Bool, true, false, ◌&&◌, Option,
  none, some, List, ◌++◌, arith, ◌==◌, if◌then◌else◌, bytes, Result, ok, err,
}

-- `sin_addr.s_addr` and `sin_port` of `addr_in_`, as integers of the host; the family is always the same.
pub record InetAddress : Type 0 where
  pub ip : ℕ
  pub port : ℕ

-- `InetAddress::InetAddress(uint16_t)`, for `INADDR_ANY`, which is 0.
unfoldable pub any_address : ℕ → InetAddress
any_address port = record { ip = host_to_network 4 0; port = host_to_network 2 port }

-- `ipPortToAddrin` into zeroes: a text that is no address is only logged.
unfoldable pub address_of : (List ℕ → Option ℕ) → List ℕ → ℕ → InetAddress
address_of inet_pton text port = record {
  ip = elim (inet_pton text) [ none ↦ 0 | some a ↦ a ];
  port = host_to_network 2 port;
}

unfoldable pub get_port : InetAddress → ℕ
get_port a = network_to_host 2 a.port

unfoldable pub get_ip_str : (ℕ → List ℕ) → InetAddress → List ℕ
get_ip_str inet_ntop a = inet_ntop a.ip

unfoldable pub get_port_str : InetAddress → List ℕ
unfolding get_port
get_port_str a = decimal (get_port a)

unfoldable pub get_ip_port_str : (ℕ → List ℕ) → InetAddress → List ℕ
unfolding get_ip_str get_port_str
get_ip_port_str inet_ntop a = get_ip_str inet_ntop a ++ (bytes ":" ++ get_port_str a)

-- `isSelfConnect`, of the two addresses of a socket.
unfoldable pub is_self_connect : InetAddress → InetAddress → Bool
is_self_connect local peer = (local.port == peer.port) && (local.ip == peer.ip)

-- `errno` after `accept4`, and what `accept` makes of it: the descriptor, or no descriptor and the error.
pub data AcceptErrno : Type 0 where
  eagain econnaborted eintr eproto eperm emfile : AcceptErrno
  ebadf efault einval enfile enobufs enomem enotsock eopnotsupp : AcceptErrno
  unknown : ℕ → AcceptErrno

abbrev pub is_expected : AcceptErrno → Bool
is_expected eagain = true
is_expected econnaborted = true
is_expected eintr = true
is_expected eproto = true
is_expected eperm = true
is_expected emfile = true
is_expected _ = false

pub data Accepted : Type 0 where
  got : ℕ → Accepted
  failed : AcceptErrno → Accepted

unfoldable pub accept : Accepted → Result Accepted
accept (got fd) = ok (got fd)
accept (failed e) = if is_expected e then ok (failed e) else err critical

-- `createNonblockingOrDie`.
unfoldable pub create_nonblocking_or_die : Option ℕ → Result ℕ
create_nonblocking_or_die (some fd) = ok fd
create_nonblocking_or_die none = err critical

-- `getSocketError`: the error of the socket, or of the call.
unfoldable pub get_socket_error : Option ℕ → ℕ → ℕ
get_socket_error (some error) errno = error
get_socket_error none errno = errno

same_address : (a b : InetAddress) → (a.port == b.port) ≡ true → (a.ip == b.ip) ≡ true → b ≡ a
same_address a b h k = ground arith

-- A socket is connected to itself exactly when its two addresses are the same.
is_self_connect-eq :
    (a b : InetAddress)
    → (is_self_connect a b ≡ true → b ≡ a) × (b ≡ a → is_self_connect a b ≡ true)
unfolding is_self_connect
is_self_connect-eq a b = (
  (λ (h : ((a.port == b.port) && (a.ip == b.ip)) ≡ true). elim (Bool-cases (a.port == b.port)) [
    | inl k ↦ same_address a b k (rw k at h)
    | inr k ↦ absurd (false≢true (rw k at h))
  ]),
  (λ (e : b ≡ a). rw e (rw (==-self a.port, ==-self a.ip) refl)),
)

-- The text of an address that was made from a text and a port is this text, a colon and the port in
-- decimal, when `inet_pton` reads the text and `inet_ntop` writes it back; and a socket with this address
-- is connected to itself exactly when its peer has the same address.
pub get_ip_port_str-address_of :
    (inet_pton : List ℕ → Option ℕ) (inet_ntop : ℕ → List ℕ) (text : List ℕ) (ip port : ℕ)
    (peer : InetAddress)
    → inet_pton text ≡ some ip
    → inet_ntop ip ≡ text
    → port < 2 ^ 16
    → let a = address_of inet_pton text port in
      (get_ip_port_str inet_ntop a ≡ text ++ (bytes ":" ++ decimal port))
      × (is_self_connect a peer ≡ true → peer ≡ a)
      × (peer ≡ a → is_self_connect a peer ≡ true)
unfolding address_of get_ip_port_str
get_ip_port_str-address_of inet_pton inet_ntop text ip port peer reads writes small =
    let a = address_of inet_pton text port in
    let (one_way, other_way) = is_self_connect-eq a peer in
    (rw (reads, writes, network_to_host-host_to_network 2 port small) refl, one_way, other_way)
