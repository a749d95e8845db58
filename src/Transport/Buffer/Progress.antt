-- ===== src/Transport/Buffer/Progress.antt =====
-- The way out of the select without the time being over, and what arrives while nextFrame returns.
use dhcp_lease_observer.Prelude.{
  ℕ, zero, suc, ◌≤◌, ◌<◌, ◌≡◌, refl, ◌⊎◌, inl, inr, Bool, true, false, [], ◌++◌, arith, length,
  if◌then◌else◌,
}
use dhcp_lease_observer.Text.{Bytes}
use dhcp_lease_observer.Transport.Buffer.{
  Buffer, System, Reader, FrameResult, Step, Reach, here, next, arrive, close, signal, examine,
  wake, expire, examine_late, empty, again, looking, waiting, expired, taking, returned, frame,
  ended, limit, write_bytes, consume, signal_reader, new_buffer, complete_frame, is_ready, look,
  initial,
}
use dhcp_lease_observer.Transport.Buffer.Invariant.{IsWoken, Reach-IsInvariant}

-- What the reader has to give: the error on an overflow, then a frame, then what there is at the end.
unfoldable pub answer : Buffer → FrameResult
answer b =
    if b.overflow then limit else if complete_frame b.bytes then frame b.bytes else ended b.bytes

-- Steps in which nothing arrives, nothing closes and the time is not over.
abbrev pub is_quiet : {s t : System} → Step s t → Bool
is_quiet (arrive new) = false
is_quiet close = false
is_quiet (signal n e) = true
is_quiet (examine e) = true
is_quiet (wake e n) = true
is_quiet (expire e) = false
is_quiet (examine_late e) = true
is_quiet (empty r e) = true
is_quiet (again r e) = true

pub data QuietReach (s : System) : System → Type 0 where
  none_yet : QuietReach s s
  then_step :
      {t u : System} → QuietReach s t → (step : Step t u) → is_quiet step ≡ true → QuietReach s u

-- `s` quietly reaches a state whose reader has returned `r`.
abbrev pub Returns : System → FrameResult → Type 0
Returns s r = (t : System) × (QuietReach s t × (t.reader ≡ returned r))

look-answer :
    (b : Buffer) → is_ready b ≡ true → (look b ≡ taking (answer b)) ⊎ (look b ≡ returned (answer b))
unfolding look answer
look-answer b h = ground arith

-- A reader that looks at a buffer that has something returns it.
examine-Returns :
    (s t : System)
    → QuietReach s t
    → t.reader ≡ looking
    → is_ready t.buffer ≡ true
    → Returns s (answer t.buffer)
examine-Returns s t q l h = elim (look-answer t.buffer h) [
  | inl e ↦ (_, (then_step (then_step q (examine l) refl) (empty _ e) refl, refl))
  | inr e ↦ (_, (then_step q (examine l) refl, e))
]

wake-Returns :
    (s t : System)
    → QuietReach s t
    → t.reader ≡ waiting
    → t.buffer.notified ≡ true
    → is_ready t.buffer ≡ true
    → Returns s (answer t.buffer)
unfolding answer
wake-Returns s t q w n h = examine-Returns s _ (then_step q (wake w n) refl) refl h

positive : (n : ℕ) → 0 < n → (k : ℕ) × (n ≡ suc k)
positive zero h = absurd (omega arith)
positive (suc n) h = (n, refl)

IsWoken-waiting :
    (b : Buffer) (n : ℕ) (r : Reader)
    → r ≡ waiting
    → IsWoken b n r
    → is_ready b ≡ true
    → (b.notified ≡ true) ⊎ (0 < n)
IsWoken-waiting b n looking e w h = cc
IsWoken-waiting b n waiting e w h = w h
IsWoken-waiting b n expired e w h = cc
IsWoken-waiting b n (taking r) e w h = cc
IsWoken-waiting b n (returned r) e w h = cc

-- No wake-up is lost: in every reachable state in which the reader waits and the buffer has
-- overflowed, holds a complete frame or is closed, there is a run in which nothing more arrives,
-- nothing closes and the time is not over that leads to the reader's return: of errResponseLimit
-- after an overflow, else of the frame, else of what there is with the end of the channel.
pub waiting-Returns :
    (max : ℕ) {s : System}
    → Reach (initial max) s
    → s.reader ≡ waiting
    → is_ready s.buffer ≡ true
    → Returns s (answer s.buffer)
unfolding answer signal_reader
waiting-Returns max {s} r w h =
    let i = Reach-IsInvariant max r in
    elim (IsWoken-waiting s.buffer s.signals s.reader w i.woken h) [
      | inl n ↦ wake-Returns s s none_yet w n h
      | inr n ↦
          let (k, e) = positive s.signals n in
          wake-Returns s _ (then_step none_yet (signal k e) refl) w refl h
    ]

-- All that the channel's output brought on the way, in order.
abbrev pub arrived : {s t : System} → Reach s t → Bytes
arrived here = []
arrived (next r (arrive new)) = arrived r ++ new
arrived (next r close) = arrived r
arrived (next r (signal n e)) = arrived r
arrived (next r (examine e)) = arrived r
arrived (next r (wake e n)) = arrived r
arrived (next r (expire e)) = arrived r
arrived (next r (examine_late e)) = arrived r
arrived (next r (empty r0 e)) = arrived r
arrived (next r (again r0 e)) = arrived r

look-frame :
    (max : ℕ) (d : Bytes)
    → complete_frame d ≡ true
    → length d ≤ max
    → look (write_bytes d (new_buffer max)) ≡ taking (frame d)
unfolding look write_bytes
look-frame max d h l = ground arith

-- `s` is what a run from a new buffer with the limit `max` leads to, in which `bytes` arrived in
-- all; the reader has the frame `d`, and nothing is held back for the next one.
pub record IsLost (max : ℕ) (d bytes : Bytes) (s : System) : Type 0 where
  pub run : Reach (initial max) s
  pub all : arrived run ≡ bytes
  pub given : s.reader ≡ returned (frame d)
  pub left : s.buffer.bytes ≡ []

-- What arrives between nextFrame's look at the state and its emptying of the buffer can be lost: for
-- every complete frame `d` that fits and every `new`, there is a run in which `d` and then `new`
-- arrived, nextFrame returns `d`, and the buffer is empty.
pub arrived-IsLost :
    (max : ℕ) (d new : Bytes)
    → complete_frame d ≡ true
    → length d ≤ max
    → (s : System) × IsLost max d (d ++ new) s
unfolding consume
arrived-IsLost max d new h l =
    let one = next here (arrive d) in
    let two = next one (examine refl) in
    let three = next two (arrive new) in
    let four = next three (empty (frame d) (look-frame max d h l)) in
    (_, record { run = four; all = refl; given = refl; left = refl })
