-- ===== src/Transport/Buffer.antt =====
-- The outputBuffer of internal/transport/ix2106/transport.go: its methods, each under its lock, and
-- the two sides that call them at any times: the copying of the channel's output, and nextFrame.
pub mod Invariant
pub mod Progress
pub mod Ending
use dhcp_lease_observer.Prelude.{
  ℕ, suc, ◌+◌, ◌≡◌, Bool, true, false, ◌||◌, none, some, [], ◌++◌, length, ltb, if◌then◌else◌,
}
use dhcp_lease_observer.Text.{Bytes, codes, contains}
use dhcp_lease_observer.Text.Space.{trim_space, split_lines, replace_crlf, to_lower}
use dhcp_lease_observer.Session.Prompt.{is_prompt_like}
use dhcp_lease_observer.Session.Lines.{last_content_line, line_at}

-- `notified` tells whether the channel `notify`, of capacity one, holds its token.
pub record Buffer : Type 0 where
  pub bytes : Bytes
  pub max : ℕ
  pub overflow : Bool
  pub closed : Bool
  pub notified : Bool

abbrev pub new_buffer : ℕ → Buffer
new_buffer max = record {
  bytes = [];
  max = max;
  overflow = false;
  closed = false;
  notified = false;
}

-- `Write` under the lock.
unfoldable pub write_bytes : Bytes → Buffer → Buffer
write_bytes new b =
    if b.overflow
    then b
    else if ltb b.max (length b.bytes + length new)
    then record b { overflow = true }
    else record b { bytes = b.bytes ++ new }

-- `consume`
unfoldable pub consume : Buffer → Buffer
consume b = record b { bytes = []; overflow = false }

-- `close` under the lock.
unfoldable pub close_buffer : Buffer → Buffer
close_buffer b = record b { closed = true }

-- `signal`
unfoldable pub signal_reader : Buffer → Buffer
signal_reader b = record b { notified = true }

-- `lastContent`
unfoldable pub last_content : Bytes → Bytes
last_content output =
    let lines = split_lines (replace_crlf output) in
    elim (last_content_line lines) [ none ↦ [] | some n ↦ trim_space (line_at n lines) ]

-- `completeFrame`
unfoldable pub complete_frame : Bytes → Bool
complete_frame output =
    contains output (codes "--More--")
    || contains (to_lower output) (codes "config process is occupied")
    || is_prompt_like (last_content output)

-- What nextFrame returns: a frame, what there was at the end of the channel or of the time, or
-- errResponseLimit.
pub data FrameResult : Type 0 where
  frame ended timed_out : Bytes → FrameResult
  limit : FrameResult

-- Where nextFrame stands: before it takes the state, before it empties the buffer and returns, in
-- the select, behind ctx.Done, or returned.
pub data Reader : Type 0 where
  looking waiting expired : Reader
  taking returned : FrameResult → Reader

-- A case of the switch of nextFrame, or of its branch behind ctx.Done, holds.
abbrev pub is_ready : Buffer → Bool
is_ready b = b.overflow || complete_frame b.bytes || b.closed

-- The switch of nextFrame on the state of the buffer.
unfoldable pub look : Buffer → Reader
look b =
    if b.overflow
    then returned limit
    else if complete_frame b.bytes
    then taking (frame b.bytes)
    else if b.closed
    then taking (ended b.bytes)
    else waiting

-- The branch of nextFrame behind ctx.Done.
unfoldable pub look_late : Buffer → Reader
look_late b =
    if b.overflow
    then returned limit
    else if complete_frame b.bytes
    then taking (frame b.bytes)
    else returned (timed_out b.bytes)

-- The buffer, the reader, and how many writers are between their lock and their signal.
pub record System : Type 0 where
  pub buffer : Buffer
  pub signals : ℕ
  pub reader : Reader

pub data Step (s : System) : System → Type 0 where
  arrive :
      (new : Bytes)
      → Step s (record s { buffer = write_bytes new s.buffer; signals = suc s.signals })
  close : Step s (record s { buffer = close_buffer s.buffer; signals = suc s.signals })
  signal :
      (n : ℕ)
      → s.signals ≡ suc n
      → Step s (record s { buffer = signal_reader s.buffer; signals = n })
  examine : s.reader ≡ looking → Step s (record s { reader = look s.buffer })
  wake :
      s.reader ≡ waiting
      → s.buffer.notified ≡ true
      → Step s (record s { buffer = record s.buffer { notified = false }; reader = looking })
  expire : s.reader ≡ waiting → Step s (record s { reader = expired })
  examine_late : s.reader ≡ expired → Step s (record s { reader = look_late s.buffer })
  empty :
      (r : FrameResult)
      → s.reader ≡ taking r
      → Step s (record s { buffer = consume s.buffer; reader = returned r })
  again : (r : FrameResult) → s.reader ≡ returned r → Step s (record s { reader = looking })

pub data Reach (s : System) : System → Type 0 where
  here : Reach s s
  next : {t u : System} → Reach s t → Step t u → Reach s u

abbrev pub initial : ℕ → System
initial max = record { buffer = new_buffer max; signals = 0; reader = looking }
