-- ===== src/Transport/Collect/Script.antt =====
-- What is sent to the device, to whom, and which of its answers are taken.
use dhcp_lease_observer.Prelude.{
  ℕ, suc, ◌≤◌, ◌≡◌, refl, not, some, List, [], ◌∷◌, ◌++◌, take, arith, Result, ok, err, if_rule,
}
use dhcp_lease_observer.Text.{Bytes}
use dhcp_lease_observer.Transport.{Config}
use dhcp_lease_observer.Transport.Dial.{CallError, ClientConfig, Handshake, DialCalls, dial}
use dhcp_lease_observer.Transport.Collect.{
  Bodies, SessionCalls, command_configure, command_pager_off, command_lease, command_arp,
  command_exit, receive, line_of, run_command, and_then, finish_bodies, run_commands, open_shell,
  behind, collect_bodies, check_arguments, collect,
}

-- The lines of a whole collection; both exits are one write.
abbrev pub script : List Bytes
script =
    line_of command_configure
    ∷ line_of command_pager_off
    ∷ line_of command_lease
    ∷ line_of command_arp
    ∷ (line_of command_exit ++ line_of command_exit)
    ∷ []

-- A failed collection stopped in the first three lines; one that gives bodies sent the whole
-- script, or all but the ARP command, and then it has an ARP failure.
pub data IsScripted (sent : List Bytes) : Result CallError Bodies → Type 0 where
  stopped : (e : CallError) (n : ℕ) → n ≤ 3 → sent ≡ take n script → IsScripted sent (err e)
  whole : (b : Bodies) → sent ≡ script → IsScripted sent (ok b)
  without_arp :
      (b : Bodies) (e : CallError)
      → b.arp_failure ≡ some e
      → sent ≡ take 3 script ++ (line_of command_exit ++ line_of command_exit) ∷ []
      → IsScripted sent (ok b)

-- What a command leaves: an answer, or an error with its line sent or not.
data IsRun (calls : SessionCalls) (n : ℕ) (command : Bytes) (sent : List Bytes)
    : Result CallError Bytes × List Bytes → Type 0 where
  answered :
      (body : Bytes)
      → receive command (calls.frames n) ≡ ok body
      → IsRun calls n command sent (ok body, sent ++ line_of command ∷ [])
  failed_behind : (e : CallError) → IsRun calls n command sent (err e, sent ++ line_of command ∷ [])
  failed_before : (e : CallError) → IsRun calls n command sent (err e, sent)

received-IsRun :
    (calls : SessionCalls) (n : ℕ) (command : Bytes) (sent : List Bytes)
    (r : Result CallError Bytes)
    → receive command (calls.frames n) ≡ r
    → IsRun calls n command sent (r, sent ++ line_of command ∷ [])
received-IsRun calls n command sent (ok body) h = answered body h
received-IsRun calls n command sent (err e) h = failed_behind e

run_command-IsRun :
    (calls : SessionCalls) (n : ℕ) (command : Bytes) (sent : List Bytes)
    → IsRun calls n command sent (run_command calls n command sent)
unfolding run_command
run_command-IsRun calls n command sent =
    if_rule (IsRun calls n command sent) (not (calls.sets_deadline n)) (λ _. failed_before _)
      (λ _.
        if_rule (IsRun calls n command sent) (not (calls.writes n)) (λ _. failed_behind _)
          (λ _. received-IsRun calls n command sent _ refl))

finish_bodies-IsScripted :
    (calls : SessionCalls) (lease : Bytes) (out : Result CallError Bytes × List Bytes)
    → IsRun calls 4 command_arp (take 3 script) out
    → IsScripted (finish_bodies calls lease out).1 (finish_bodies calls lease out).0
unfolding finish_bodies
finish_bodies-IsScripted calls lease out (answered body h) = whole _ refl
finish_bodies-IsScripted calls lease out (failed_behind e) = whole _ refl
finish_bodies-IsScripted calls lease out (failed_before e) = without_arp _ e refl refl

and_then-IsScripted :
    (calls : SessionCalls) (n : ℕ) (command : Bytes) (k : ℕ)
    (next : Bytes → List Bytes → Result CallError Bodies × List Bytes)
    → k ≤ 2
    → take k script ++ line_of command ∷ [] ≡ take (suc k) script
    → ((body : Bytes)
        → IsScripted (next body (take (suc k) script)).1 (next body (take (suc k) script)).0)
    → (out : Result CallError Bytes × List Bytes) → IsRun calls n command (take k script) out
    → IsScripted (and_then out next).1 (and_then out next).0
and_then-IsScripted calls n command k next l e f out (answered body h) = rw e (f body)
and_then-IsScripted calls n command k next l e f out (failed_behind x) =
    stopped x (suc k) (omega arith) e
and_then-IsScripted calls n command k next l e f out (failed_before x) =
    stopped x k (omega arith) refl

run_commands-IsScripted :
    (calls : SessionCalls) → IsScripted (run_commands calls).1 (run_commands calls).0
unfolding run_commands
run_commands-IsScripted calls =
    and_then-IsScripted calls 1 command_configure 0 _ (omega arith) refl
      (λ _.
        and_then-IsScripted calls 2 command_pager_off 1 _ (omega arith) refl
          (λ _.
            and_then-IsScripted calls 3 command_lease 2 _ (omega arith) refl
              (λ lease.
                finish_bodies-IsScripted calls lease _ (run_command-IsRun calls 4 command_arp _))
              _ (run_command-IsRun calls 3 command_lease _))
          _ (run_command-IsRun calls 2 command_pager_off _))
      _ (run_command-IsRun calls 1 command_configure [])

behind-IsScripted :
    (r : Result CallError (Unit {0})) (rest : Result CallError Bodies × List Bytes)
    → IsScripted rest.1 rest.0
    → IsScripted (behind r rest).1 (behind r rest).0
behind-IsScripted (ok u) rest s = s
behind-IsScripted (err e) rest s = stopped e 0 (omega arith) refl

-- Whatever the device, the network and the library do, the lines sent to the device are the fixed
-- script (configure, terminal length 0, show ip dhcp lease, show arp entry, and both exits) or a
-- part of it: a collection that fails stopped within the first three lines, one that returns bodies
-- sent the script to its end, and only for an ARP failure perhaps without the ARP command.
pub collect-IsScripted :
    (rsa : Bytes) (handshake : ClientConfig → Handshake) (dial_calls : DialCalls)
    (calls : SessionCalls) (config : Config) (password : Bytes)
    → IsScripted
        (collect rsa handshake dial_calls calls config password).1
        (collect rsa handshake dial_calls calls config password).0
unfolding collect collect_bodies
collect-IsScripted rsa handshake dial_calls calls config password =
    behind-IsScripted (check_arguments config password) _ (
      behind-IsScripted (dial rsa handshake dial_calls config password) _
        (behind-IsScripted (open_shell calls) _ (run_commands-IsScripted calls)))
