-- ===== src/Transport/Dial.antt =====
-- dial, clientConfig and pinnedHostKey of internal/transport/ix2106/transport.go. The SSH library's
-- handshake is a parameter: it gets the configuration with its two callbacks.
pub mod Pinned
use dhcp_lease_observer.Prelude.{
  Bool, true, false, not, ◌&&◌, Result, ok, err, ◌>>=◌, ◌>>◌, reject_if, ◌==◌, if◌then◌else◌,
}
use dhcp_lease_observer.Text.{Bytes, bytes_eq}
use dhcp_lease_observer.Session
use dhcp_lease_observer.Transport.{
  Config, TransportError, transport_failure, connect_failed, handshake_failed, handshake_timeout,
  authentication_timeout, session_failed,
}

-- What the source's calls return as an error. `nil_failure` is a nil *Failure in an error's place,
-- of a constructor whose own error is not looked at.
pub data CallError : Type 0 where
  session_failure : Session.Failure → CallError
  transport_error : TransportError → CallError
  plain_error : Session.SessionError → CallError
  nil_failure : CallError

-- `failure, _ := …; return failure`
abbrev pub failure_of : Result Session.SessionError Session.Failure → CallError
failure_of (ok f) = session_failure f
failure_of (err e) = nil_failure

abbrev pub transport_fault {ℓ} : {A : Type ℓ} → TransportError → Result CallError A
transport_fault e = err (transport_error e)

-- A host key: its algorithm, and ssh.FingerprintSHA256 of it.
pub record HostKey : Type 0 where
  pub algorithm : Bytes
  pub fingerprint : Bytes

-- `ssh.ClientConfig`, without the names of the algorithms for the exchange; the callbacks say
-- whether the key is accepted, and give the password once the deadline is set.
pub record ClientConfig : Type 0 where
  pub user : Bytes
  pub host_key_algorithm : Bytes
  pub host_key_callback : HostKey → Bool
  pub password_callback : Bool → Result TransportError Bytes

-- How the handshake ends: with a connection, or with an error that wraps errHostKeyMismatch, that
-- is a timeout, or neither.
pub data HandshakeEnd : Type 0 where
  connected key_mismatch timed_out broken : HandshakeEnd

-- The host key that the peer shows, its end, and whether the password callback has run.
pub record Handshake : Type 0 where
  pub key : HostKey
  pub end : HandshakeEnd
  pub auth_started : Bool

-- What dial's other calls give: whether they succeed, and whether the context is over.
pub record DialCalls : Type 0 where
  pub connects : Bool
  pub sets_deadline : Bool
  pub context_over : Bool
  pub clears_deadline : Bool

-- `pinnedHostKey`; `rsa` is ssh.KeyAlgoRSA.
unfoldable pub pinned_host_key : Bytes → Bytes → HostKey → Bool
pinned_host_key rsa expected key =
    if not (key.algorithm == rsa) then false else key.fingerprint == expected

-- The password callback, on whether the deadline could be set.
unfoldable pub give_password : Bytes → Bool → Result TransportError Bytes
give_password password sets_deadline = do
  reject_if (not sets_deadline) (transport_failure authentication_timeout true)
  ok password

-- `clientConfig`
unfoldable pub client_config : Bytes → Config → Bytes → ClientConfig
client_config rsa config password = record {
  user = config.username;
  host_key_algorithm = rsa;
  host_key_callback = pinned_host_key rsa config.host_key_sha256;
  password_callback = give_password password;
}

-- What dial returns after the handshake, but for the deadline.
unfoldable pub handshake_result : HandshakeEnd → Bool → Bool → Result CallError (Unit {0})
handshake_result connected auth_started context_over = ok tt
handshake_result key_mismatch auth_started context_over =
    err (failure_of (Session.connection_failure Session.host_key_mismatch))
handshake_result timed_out auth_started context_over =
    if auth_started
    then transport_fault (transport_failure authentication_timeout true)
    else transport_fault (transport_failure handshake_timeout true)
handshake_result broken auth_started context_over =
    if context_over
    then transport_fault (transport_failure session_failed true)
    else if auth_started
    then err (failure_of (Session.connection_failure Session.authentication))
    else transport_fault (transport_failure handshake_failed true)

module _ (rsa : Bytes) (handshake : ClientConfig → Handshake) where
  -- `dial`
  unfoldable pub dial : DialCalls → Config → Bytes → Result CallError (Unit {0})
  dial calls config password = do
    reject_if (not calls.connects) (transport_error (transport_failure connect_failed true))
    reject_if (not calls.sets_deadline) (transport_error (transport_failure handshake_failed true))
    let h = handshake (client_config rsa config password)
    handshake_result h.end h.auth_started calls.context_over
    reject_if (not calls.clears_deadline) (transport_error (transport_failure session_failed true))
