-- ===== src/Transport/Buffer/Invariant.antt =====
-- What holds of the buffer and of its reader between any two steps.
use dhcp_lease_observer.Prelude.{
  ℕ, suc, ◌≤◌, ◌<◌, ◌≡◌, ◌∙◌, refl, subst, ◌⊎◌, inl, inr, true, arith, length, length-append,
  if_rule,
}
use dhcp_lease_observer.Text.{Bytes}
use dhcp_lease_observer.Transport.Buffer.{
  Buffer, System, Reader, FrameResult, Step, Reach, here, next, arrive, close, signal, examine,
  wake, expire, examine_late, empty, again, looking, waiting, expired, taking, returned, frame,
  ended, timed_out, limit, write_bytes, consume, close_buffer, signal_reader, complete_frame,
  is_ready, look, look_late, initial,
}

-- A frame is complete and fits; all else that nextFrame gives with an error fits.
abbrev pub IsSound : ℕ → FrameResult → Type 0
IsSound max (frame d) = (complete_frame d ≡ true) × (length d ≤ max)
IsSound max (ended d) = length d ≤ max
IsSound max (timed_out d) = length d ≤ max
IsSound max limit = Unit

abbrev pub IsSoundReader : ℕ → Reader → Type 0
IsSoundReader max looking = Unit
IsSoundReader max waiting = Unit
IsSoundReader max expired = Unit
IsSoundReader max (taking r) = IsSound max r
IsSoundReader max (returned r) = IsSound max r

-- A reader in the select that has something to take is woken: the token is there, or a writer has
-- still to leave it.
abbrev pub IsWoken : Buffer → ℕ → Reader → Type 0
IsWoken b signals looking = Unit
IsWoken b signals waiting = is_ready b ≡ true → (b.notified ≡ true) ⊎ (0 < signals)
IsWoken b signals expired = Unit
IsWoken b signals (taking r) = Unit
IsWoken b signals (returned r) = Unit

pub record IsInvariant (max : ℕ) (s : System) : Type 0 where
  pub same_max : s.buffer.max ≡ max
  pub bounded : length s.buffer.bytes ≤ max
  pub sound : IsSoundReader max s.reader
  pub woken : IsWoken s.buffer s.signals s.reader

IsWoken-signal : (b : Buffer) (n : ℕ) (r : Reader) → IsWoken b (suc n) r
IsWoken-signal b n looking = tt
IsWoken-signal b n waiting = λ h. inr (omega arith)
IsWoken-signal b n expired = tt
IsWoken-signal b n (taking r) = tt
IsWoken-signal b n (returned r) = tt

IsWoken-token : (b : Buffer) (n : ℕ) (r : Reader) → IsWoken (signal_reader b) n r
unfolding signal_reader
IsWoken-token b n looking = tt
IsWoken-token b n waiting = λ h. inl refl
IsWoken-token b n expired = tt
IsWoken-token b n (taking r) = tt
IsWoken-token b n (returned r) = tt

write_bytes-max : (new : Bytes) (b : Buffer) → (write_bytes new b).max ≡ b.max
unfolding write_bytes
write_bytes-max new b = ground arith

write_bytes-bounded :
    (new : Bytes) (b : Buffer) → length b.bytes ≤ b.max → length (write_bytes new b).bytes ≤ b.max
unfolding write_bytes
write_bytes-bounded new b h = ground (arith, length-append b.bytes new)

look-IsSound : (max : ℕ) (b : Buffer) → length b.bytes ≤ max → IsSoundReader max (look b)
unfolding look
look-IsSound max b h =
    if_rule (IsSoundReader max) b.overflow (λ o. tt)
      (λ o.
        if_rule (IsSoundReader max) (complete_frame b.bytes) (λ c. (c, h))
          (λ c. if_rule (IsSoundReader max) b.closed (λ d. h) (λ d. tt)))

look-IsWoken : (b : Buffer) (n : ℕ) → IsWoken b n (look b)
unfolding look
look-IsWoken b n =
    if_rule (IsWoken b n) b.overflow (λ o. tt)
      (λ o.
        if_rule (IsWoken b n) (complete_frame b.bytes) (λ c. tt)
          (λ c.
            if_rule (IsWoken b n) b.closed (λ d. tt)
              (λ d. λ h. absurd (ground (arith, o, c, d, h)))))

look_late-IsSound : (max : ℕ) (b : Buffer) → length b.bytes ≤ max → IsSoundReader max (look_late b)
unfolding look_late
look_late-IsSound max b h =
    if_rule (IsSoundReader max) b.overflow (λ o. tt)
      (λ o. if_rule (IsSoundReader max) (complete_frame b.bytes) (λ c. (c, h)) (λ c. h))

look_late-IsWoken : (b : Buffer) (n : ℕ) → IsWoken b n (look_late b)
unfolding look_late
look_late-IsWoken b n =
    if_rule (IsWoken b n) b.overflow (λ o. tt)
      (λ o. if_rule (IsWoken b n) (complete_frame b.bytes) (λ c. tt) (λ c. tt))

initial-IsInvariant : (max : ℕ) → IsInvariant max (initial max)
initial-IsInvariant max = record { same_max = refl; bounded = omega arith; sound = tt; woken = tt }

Step-IsInvariant : {max : ℕ} {s t : System} → IsInvariant max s → Step s t → IsInvariant max t
unfolding close_buffer signal_reader consume
Step-IsInvariant {max} {s} i (arrive new) = record {
  same_max = write_bytes-max new s.buffer ∙ i.same_max;
  bounded = ground (arith, i.bounded, i.same_max, write_bytes-bounded new s.buffer);
  sound = i.sound;
  woken = IsWoken-signal (write_bytes new s.buffer) s.signals s.reader;
}
Step-IsInvariant {s = s} i close = record {
  same_max = i.same_max;
  bounded = i.bounded;
  sound = i.sound;
  woken = IsWoken-signal (close_buffer s.buffer) s.signals s.reader;
}
Step-IsInvariant {s = s} i (signal n e) = record {
  same_max = i.same_max;
  bounded = i.bounded;
  sound = i.sound;
  woken = IsWoken-token s.buffer n s.reader;
}
Step-IsInvariant {max} {s} i (examine e) = record {
  same_max = i.same_max;
  bounded = i.bounded;
  sound = look-IsSound max s.buffer i.bounded;
  woken = look-IsWoken s.buffer s.signals;
}
Step-IsInvariant i (wake e n) = record {
  same_max = i.same_max;
  bounded = i.bounded;
  sound = tt;
  woken = tt;
}
Step-IsInvariant i (expire e) = record {
  same_max = i.same_max;
  bounded = i.bounded;
  sound = tt;
  woken = tt;
}
Step-IsInvariant {max} {s} i (examine_late e) = record {
  same_max = i.same_max;
  bounded = i.bounded;
  sound = look_late-IsSound max s.buffer i.bounded;
  woken = look_late-IsWoken s.buffer s.signals;
}
Step-IsInvariant {max} i (empty r e) = record {
  same_max = i.same_max;
  bounded = omega arith;
  sound = subst (IsSoundReader max) e i.sound;
  woken = tt;
}
Step-IsInvariant i (again r e) = record {
  same_max = i.same_max;
  bounded = i.bounded;
  sound = tt;
  woken = tt;
}

-- In every state that a new buffer with the limit `max` and its reader reach, whatever arrives,
-- whenever the channel closes or the time is over, and in whatever order the two sides run, what is
-- held back is at most `max` bytes; a frame that nextFrame takes or returns is complete and at most
-- `max` bytes, and so is what it returns with an error; and a reader that waits although the buffer
-- has overflowed, holds a complete frame or is closed has a token to wake it, or a writer has still
-- to leave one.
pub Reach-IsInvariant : (max : ℕ) {s : System} → Reach (initial max) s → IsInvariant max s
Reach-IsInvariant max here = initial-IsInvariant max
Reach-IsInvariant max (next r step) = Step-IsInvariant (Reach-IsInvariant max r) step
