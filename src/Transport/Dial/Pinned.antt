-- ===== src/Transport/Dial/Pinned.antt =====
-- Whom a connection that dial returns is to.
use dhcp_lease_observer.Prelude.{
  ◌≡◌, refl, Bool, true, ok, arith, not, reject_if, reject-eq-ok, then-eq-ok,
}
use dhcp_lease_observer.Text.{Bytes, bytes_eq, bytes_beq_iff}
use dhcp_lease_observer.Transport.{
  Config, transport_failure, connect_failed, handshake_failed, session_failed,
}
use dhcp_lease_observer.Transport.Dial.{
  ClientConfig, HostKey, Handshake, HandshakeEnd, connected, key_mismatch, timed_out, broken,
  DialCalls, pinned_host_key, client_config, handshake_result, dial, transport_error,
}

-- The key is an RSA key with the fingerprint of the configuration.
pub record IsPinned (rsa : Bytes) (config : Config) (key : HostKey) : Type 0 where
  pub algorithm : key.algorithm ≡ rsa
  pub fingerprint : key.fingerprint ≡ config.host_key_sha256

-- The handshake ends in a connection only if the callback accepts the peer's host key.
abbrev pub VerifiesKeys : (ClientConfig → Handshake) → Type 0
VerifiesKeys handshake =
    (c : ClientConfig)
    → (handshake c).end ≡ connected
    → c.host_key_callback (handshake c).key ≡ true

pinned_host_key-IsPinned :
    (rsa : Bytes) (config : Config) (key : HostKey)
    → pinned_host_key rsa config.host_key_sha256 key ≡ true
    → IsPinned rsa config key
unfolding pinned_host_key
pinned_host_key-IsPinned rsa config key h = record {
  algorithm = ground (arith, bytes_beq_iff key.algorithm rsa);
  fingerprint = ground (arith, bytes_beq_iff key.fingerprint config.host_key_sha256);
}

handshake_result-connected :
    (end : HandshakeEnd) (auth_started context_over : Bool)
    → handshake_result end auth_started context_over ≡ ok tt
    → end ≡ connected
unfolding handshake_result
handshake_result-connected connected a c h = refl
handshake_result-connected key_mismatch a c h = cc
handshake_result-connected timed_out a c h = ground arith
handshake_result-connected broken a c h = ground arith

pub dial-IsPinned :
    (rsa : Bytes) (handshake : ClientConfig → Handshake)
    → VerifiesKeys handshake
    → (calls : DialCalls) (config : Config) (password : Bytes)
    → dial rsa handshake calls config password ≡ ok tt
    → IsPinned rsa config (handshake (client_config rsa config password)).key
unfolding dial client_config
dial-IsPinned rsa handshake v calls config password h =
    let (p, h₁) =
      reject-eq-ok (not calls.connects) (transport_error (transport_failure connect_failed true)) _
        h in
    let (q, h₂) =
      reject-eq-ok (not calls.sets_deadline)
        (transport_error (transport_failure handshake_failed true)) _ h₁ in
    let end = handshake (client_config rsa config password) in
    let (r, h₃) =
      then-eq-ok (handshake_result end.end end.auth_started calls.context_over)
        (reject_if (not calls.clears_deadline)
          (transport_error (transport_failure session_failed true)))
        h₂ in
    pinned_host_key-IsPinned rsa config end.key
      (v (client_config rsa config password) (handshake_result-connected end.end _ _ r))
