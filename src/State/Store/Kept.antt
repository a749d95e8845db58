-- ===== src/State/Store/Kept.antt =====
-- A state that is saved is loaded again, and a save that fails loses nothing.
use dhcp_lease_observer.Prelude.{
  ℕ, zero, suc, ◌+◌, ◌≤◌, ◌≡◌, ◌≢◌, ◌⊎◌, refl, ap, inl, inr, true, false, none, some, [], ◌∷◌,
  arith, take, length, ok, Result-cases,
}
use mathlib.Core.List.{append-nil}
use dhcp_lease_observer.Text.{Bytes, is_empty}
use dhcp_lease_observer.Files.{Disk}
use dhcp_lease_observer.AtomicFile.{Calls, Exit, done, file_of, write}
use dhcp_lease_observer.AtomicFile.Atomic.{Target, same, whole, write-IsAtomic}
use dhcp_lease_observer.SafeFile.{OpenCalls, open_regular, check_file}
use dhcp_lease_observer.State.{Snapshot, validate}
use dhcp_lease_observer.State.Store.{
  Codec, max_state_bytes, state_callback, written, save, parse_state, load,
}

-- What a save is asked for and meets: a named file, a temporary name of its own, a codec that reads
-- back what it writes of this state, and a system that lets files be opened and read.
pub record IsReadable (codec : Codec) (calls : Calls) (opened : OpenCalls) (path : Bytes)
    (s : Snapshot) (disk : Disk) : Type 0 where
  pub named : is_empty path ≡ false
  pub apart : calls.temporary ≢ path
  pub fresh : disk calls.temporary ≡ none
  pub text : Bytes
  pub rest : Bytes
  pub encoded : codec.encode s ≡ some text
  pub decoded : codec.decode text ≡ some (s, rest)
  pub ended : codec.at_end rest ≡ true
  pub opens : opened.open_fails ≡ false
  pub stats : opened.stat_fails ≡ false
  pub reads : opened.read_fails ≡ false

take-length_le : (n : ℕ) (s : Bytes) → length s ≤ n → take n s ≡ s
take-length_le zero [] h = refl
take-length_le zero (c ∷ s) h = absurd (omega arith)
take-length_le (suc n) [] h = refl
take-length_le (suc n) (c ∷ s) h = ap (◌∷◌ c) (take-length_le n s (omega arith))

module _ (codec : Codec) (calls : Calls) (opened : OpenCalls) (path : Bytes) (s : Snapshot)
    (disk : Disk) (r : IsReadable codec calls opened path s disk) where
  pub load_same :
      (disk' : Disk)
      → disk' path ≡ disk path
      → load codec opened path disk' ≡ load codec opened path disk
  unfolding load open_regular
  load_same disk' h = rw (h, load)

  check_file_ok :
      length r.text ≤ max_state_bytes
      → check_file opened 63 max_state_bytes (file_of 384 r.text) ≡ ok r.text
  unfolding check_file
  check_file_ok l = ground (arith, l, r.stats)

  open_regular_ok :
      (disk' : Disk)
      → disk' path ≡ some (file_of 384 r.text)
      → length r.text ≤ max_state_bytes
      → open_regular opened disk' path 63 max_state_bytes ≡ ok r.text
  unfolding open_regular
  open_regular_ok disk' h l = rw (r.named, r.opens, h, open_regular) (check_file_ok l)

  parse_state_ok :
      length r.text ≤ max_state_bytes → validate s ≡ ok tt → parse_state codec opened r.text ≡ ok s
  unfolding parse_state
  parse_state_ok l v = rw (
    r.reads,
    take-length_le (max_state_bytes + 1) r.text (omega arith),
    r.decoded,
    r.ended,
    v,
    parse_state,
  )

  pub load_whole :
      (disk' : Disk)
      → disk' path ≡ some (file_of 384 r.text)
      → length r.text ≤ max_state_bytes
      → validate s ≡ ok tt
      → load codec opened path disk' ≡ ok s
  unfolding load
  load_whole disk' h l v = rw (open_regular_ok disk' h l, load) (parse_state_ok l v)

  -- The state is loaded, or what was loaded before, and then the write did not succeed.
  abbrev Loads : Exit × Disk → Type 0
  Loads out =
      (load codec opened path out.1 ≡ ok s)
      ⊎ ((load codec opened path out.1 ≡ load codec opened path disk) × (out.0 ≢ done))

  write-Loads :
      validate s ≡ ok tt
      → Loads (write calls path 384 max_state_bytes (state_callback (some r.text)) disk)
  write-Loads v =
      loads _ (write-IsAtomic calls path 384 max_state_bytes _ disk r.apart r.fresh).target
    where
      loads :
          (out : Exit × Disk)
          → Target calls path 384 max_state_bytes (state_callback (some r.text)) disk out
          → Loads out
      loads out (same h n) = inr (load_same out.1 h, n)
      loads out (whole h l w) =
          inl (load_whole out.1 (rw⁻¹ (append-nil r.text) h) (rw (append-nil r.text) at l) v)

  -- With a named path, a temporary name that is free and not the path's, a codec that reads back
  -- what it writes of this state, and a system that lets files be opened and read: after `Save`,
  -- `Load` gives the saved state, or it gives what it gave before and `Save` did not succeed,
  -- whatever calls of the write failed and wherever the process stopped.
  pub load-save :
      (load codec opened path (save codec calls path s disk).1 ≡ ok s)
      ⊎ ((load codec opened path (save codec calls path s disk).1 ≡ load codec opened path disk)
          × ((save codec calls path s disk).0 ≢ written done))
  unfolding save
  load-save = elim (Result-cases (validate s)) [
    | inr (e, h) ↦ rw (h, save) (inr (refl, λ k. cc))
    | inl (u, h) ↦ rw (h, r.encoded, save) (saved _ (write-Loads h))
  ]
    where
      saved :
          (out : Exit × Disk)
          → Loads out
          → (load codec opened path out.1 ≡ ok s)
            ⊎ ((load codec opened path out.1 ≡ load codec opened path disk)
                × (written out.0 ≢ written done))
      saved out (inl h) = inl h
      saved out (inr (h, n)) = inr (h, λ k. n (cc))
