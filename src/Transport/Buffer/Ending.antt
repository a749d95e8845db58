-- ===== src/Transport/Buffer/Ending.antt =====
-- Every call of nextFrame ends once nothing more arrives: its rounds are bounded, and it is never stuck.
use dhcp_lease_observer.Prelude.{
  ℕ, suc, ◌+◌, ◌*◌, ◌≤◌, ◌<◌, ◌≡◌, refl, ap, Bool, true, false, arith,
}
use dhcp_lease_observer.Transport.Buffer.{
  Buffer, System, Reader, FrameResult, Step, arrive, close, signal, examine, wake, expire,
  examine_late, empty, again, looking, waiting, expired, taking, returned, look, look_late,
  signal_reader, consume,
}

-- How far the reader is from its return, without the wake-ups.
abbrev rank : Reader → ℕ
rank looking = 4
rank waiting = 3
rank expired = 2
rank (taking r) = 1
rank (returned r) = 0

abbrev token : Bool → ℕ
token true = 3
token false = 0

-- A signal may leave a token, and a token may send the reader round once more.
abbrev rounds_left : System → ℕ
rounds_left s = 4 * s.signals + token s.buffer.notified + rank s.reader

-- A step of the call of nextFrame, or of a writer that has written already.
abbrev pub is_own : {s t : System} → Step s t → Bool
is_own (arrive new) = false
is_own close = false
is_own (signal n e) = true
is_own (examine e) = true
is_own (wake e n) = true
is_own (expire e) = true
is_own (examine_late e) = true
is_own (empty r e) = true
is_own (again r e) = false

pub data OwnRun (s : System) : ℕ → System → Type 0 where
  start : OwnRun s 0 s
  then_own :
      {n : ℕ} {t u : System}
      → OwnRun s n t
      → (step : Step t u) → is_own step ≡ true
      → OwnRun s (suc n) u

rank-look : (b : Buffer) → rank (look b) ≤ 3
unfolding look
rank-look b = ground arith

rank-look_late : (b : Buffer) → rank (look_late b) ≤ 1
unfolding look_late
rank-look_late b = ground arith

rank-eq : {r q : Reader} → r ≡ q → rank r ≡ rank q
rank-eq h = ap rank h

-- Every step brings the end nearer.
Step-lt-rounds_left :
    {s t : System} (step : Step s t) → is_own step ≡ true → rounds_left t < rounds_left s
unfolding signal_reader consume
Step-lt-rounds_left (arrive new) h = absurd (cc)
Step-lt-rounds_left close h = absurd (cc)
Step-lt-rounds_left (signal n e) h = omega (arith, e)
Step-lt-rounds_left {s} (examine e) h = omega (arith, rank-eq e, rank-look s.buffer)
Step-lt-rounds_left (wake e n) h = omega (arith, rank-eq e, ap token n)
Step-lt-rounds_left (expire e) h = omega (arith, rank-eq e)
Step-lt-rounds_left {s} (examine_late e) h = omega (arith, rank-eq e, rank-look_late s.buffer)
Step-lt-rounds_left (empty r e) h = omega (arith, rank-eq e)
Step-lt-rounds_left (again r e) h = absurd (cc)

OwnRun-le-rounds_left : {s t : System} {n : ℕ} → OwnRun s n t → n + rounds_left t ≤ rounds_left s
OwnRun-le-rounds_left start = omega arith
OwnRun-le-rounds_left (then_own r step h) =
    omega (arith, OwnRun-le-rounds_left r, Step-lt-rounds_left step h)

token_bound : (b : Bool) → token b ≤ 3
token_bound true = omega arith
token_bound false = omega arith

rank_bound : (r : Reader) → rank r ≤ 4
rank_bound looking = omega arith
rank_bound waiting = omega arith
rank_bound expired = omega arith
rank_bound (taking r) = omega arith
rank_bound (returned r) = omega arith

-- A reader has returned, or it has a step.
pub data CanGoOn (t : System) : Type 0 where
  is_over : (r : FrameResult) → t.reader ≡ returned r → CanGoOn t
  goes_on : (u : System) (step : Step t u) → is_own step ≡ true → CanGoOn t

reader-CanGoOn : (t : System) (r : Reader) → t.reader ≡ r → CanGoOn t
reader-CanGoOn t looking e = goes_on _ (examine e) refl
reader-CanGoOn t waiting e = goes_on _ (expire e) refl
reader-CanGoOn t expired e = goes_on _ (examine_late e) refl
reader-CanGoOn t (taking r) e = goes_on _ (empty r e) refl
reader-CanGoOn t (returned r) e = is_over r e

-- nextFrame ends: from any state with `signals` writers before their signal, a run in which nothing
-- more arrives and nothing closes has at most `4 * signals + 7` steps of the reader and of those
-- writers, and behind any such run the reader has returned or has a step to make; in the select
-- that is the end of the time, if there is no token.
pub OwnRun-ends : {s t : System} {n : ℕ} → OwnRun s n t → (n ≤ 4 * s.signals + 7) × CanGoOn t
OwnRun-ends {s} {t} r = (
  omega (arith, OwnRun-le-rounds_left r, token_bound s.buffer.notified, rank_bound s.reader),
  reader-CanGoOn t t.reader refl,
)
