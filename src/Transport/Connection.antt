-- ===== src/Transport/Connection.antt =====
-- The connection of one collection: who closes it, in dial, Collect and client.close of
-- internal/transport/ix2106/transport.go, and the deadlines that setDeadline sets.
use dhcp_lease_observer.Prelude.{
  ◌≡◌, refl, sym, inl, inr, Bool, true, false, not, Option, none, some, ℤ, Result, ok, err, ◌>>◌,
  reject_if, Result-cases, Bool-cases, if_rule, if◌then◌else◌,
}
use dhcp_lease_observer.Text.{Bytes}
use dhcp_lease_observer.Clock.{Time, before, add_time}
use dhcp_lease_observer.Transport.{
  Config, transport_failure, connect_failed, handshake_failed, session_failed,
}
use dhcp_lease_observer.Transport.Dial.{
  CallError, transport_error, transport_fault, ClientConfig, Handshake, DialCalls, client_config,
  handshake_result, dial,
}
use dhcp_lease_observer.Transport.Collect.{
  Bodies, SessionCalls, collect_bodies, check_arguments, collect,
}

-- The deadline that `setDeadline` sets: of the timeout, or the context's if that is before.
unfoldable pub deadline_of : Time → Option Time → ℤ → Time
deadline_of now context timeout =
    let deadline = add_time now timeout in
    elim context [ none ↦ deadline | some c ↦ if before c deadline then c else deadline ]

-- A connection that was made: whether it is open, and whether the end of the context closes it.
pub record Network : Type 0 where
  pub is_open : Bool
  pub watched : Bool

abbrev released : Network
released = record { is_open = false; watched = false }

-- `client.close`
unfoldable pub close_client : Network → Network
close_client network = record network { is_open = false; watched = false }

-- What follows the handshake in `dial`. `ssh_closes` tells whether Close of an ssh.Conn closes the
-- connection below it.
unfoldable pub behind_handshake :
    Bool → DialCalls → Result CallError (Unit {0}) → Result CallError (Unit {0}) × Option Network
behind_handshake ssh_closes calls (err e) = (err e, some released)
behind_handshake ssh_closes calls (ok _) =
    if not calls.clears_deadline
    then (
      transport_fault (transport_failure session_failed true),
      some (record { is_open = not ssh_closes; watched = false }),
    )
    else (ok tt, some (record { is_open = true; watched = true }))

-- What `Collect` does behind `dial`.
unfoldable pub behind_dial :
    SessionCalls
    → Result CallError (Unit {0}) × Option Network
    → Result CallError Bodies × Option Network
behind_dial calls (err e, network) = (err e, network)
behind_dial calls (ok _, none) = ((collect_bodies calls).0, none)
behind_dial calls (ok _, some network) = ((collect_bodies calls).0, some (close_client network))

module _ (rsa : Bytes) (handshake : ClientConfig → Handshake) (ssh_closes : Bool)
    (dial_calls : DialCalls) (calls : SessionCalls) (config : Config) (password : Bytes) where
  -- `dial` with its connection, if it makes one.
  unfoldable pub dial_network : Result CallError (Unit {0}) × Option Network
  dial_network =
      if not dial_calls.connects
      then (transport_fault (transport_failure connect_failed true), none)
      else if not dial_calls.sets_deadline
      then (transport_fault (transport_failure handshake_failed true), some released)
      else let h = handshake (client_config rsa config password) in
        behind_handshake ssh_closes dial_calls
          (handshake_result h.end h.auth_started dial_calls.context_over)

  -- `Collect` with its connection.
  unfoldable pub collect_network : Result CallError Bodies × Option Network
  collect_network = elim (check_arguments config password) [
    | err e ↦ (err e, none)
    | ok _ ↦ behind_dial calls dial_network
  ]

  pub data IsReleased : Option Network → Type 0 where
    unmade : IsReleased none
    closed : (n : Network) → n.is_open ≡ false → n.watched ≡ false → IsReleased (some n)

  -- A connection that stands behind `dial` is not left alone by `Collect`.
  record IsDialled (out : Result CallError (Unit {0}) × Option Network) : Type 0 where
    pub same : out.0 ≡ dial rsa handshake dial_calls config password
    pub failed : (e : CallError) → out.0 ≡ err e → IsReleased out.1

  behind_handshake-IsDialled :
      ssh_closes ≡ true
      → (r : Result CallError (Unit {0}))
      → (r
          >> reject_if
              (not dial_calls.clears_deadline)
              (transport_error (transport_failure session_failed true)))
        ≡ dial rsa handshake dial_calls config password
      → IsDialled (behind_handshake ssh_closes dial_calls r)
  unfolding behind_handshake
  behind_handshake-IsDialled c (err e) h = record {
    same = h;
    failed = λ f k. closed released refl refl;
  }
  behind_handshake-IsDialled c (ok tt) h = elim (Bool-cases dial_calls.clears_deadline) [
    | inl t ↦ rw t (record { same = rw t at h; failed = λ f k. absurd (cc) })
    | inr t ↦ rw t (record { same = rw t at h; failed = λ f k. closed _ (rw c refl) refl })
  ]

  dial_network-IsDialled : ssh_closes ≡ true → IsDialled dial_network
  unfolding dial dial_network
  dial_network-IsDialled c =
      let h = handshake (client_config rsa config password) in
      if_rule IsDialled (not dial_calls.connects)
        (λ n. record { same = rw (n, dial) refl; failed = λ e k. unmade })
        (λ n.
          if_rule IsDialled (not dial_calls.sets_deadline)
            (λ d. record { same = rw (n, d, dial) refl; failed = λ e k. closed released refl refl })
            (λ d.
              behind_handshake-IsDialled c
                (handshake_result h.end h.auth_started dial_calls.context_over)
                (rw (n, d, dial) refl)))

  -- The collection is the same, and the connection is released.
  pub record IsClosed (out : Result CallError Bodies × Option Network) : Type 0 where
    pub same : out.0 ≡ (collect rsa handshake dial_calls calls config password).0
    pub released_at_end : IsReleased out.1

  -- If Close of an ssh.Conn closes the connection below it: on every path of Collect, errors
  -- included, the result is that of the collection, and a connection that dial has made is closed
  -- and no longer watched at the end.
  pub collect_network-IsClosed : ssh_closes ≡ true → IsClosed collect_network
  unfolding collect collect_network behind_dial close_client
  collect_network-IsClosed c = elim (Result-cases (check_arguments config password)) [
    | inr (e, h) ↦
        rw (h, collect_network) (record { same = rw (h, collect) refl; released_at_end = unmade })
    | inl (u, h) ↦ rw (h, collect_network) (by_dial u h dial_network (dial_network-IsDialled c))
  ]
    where
      by_dial :
          (u : Unit {0})
          → check_arguments config password ≡ ok u
          → (out : Result CallError (Unit {0}) × Option Network) → IsDialled out
          → IsClosed (behind_dial calls out)
      by_dial u h (err e, n) d = record {
        same = rw (h, sym d.same, collect) refl;
        released_at_end = d.failed e refl;
      }
      by_dial u h (ok v, none) d = record {
        same = rw (h, sym d.same, collect) refl;
        released_at_end = unmade;
      }
      by_dial u h (ok v, some n) d = record {
        same = rw (h, sym d.same, collect) refl;
        released_at_end = closed _ refl refl;
      }
