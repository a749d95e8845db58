-- ===== src/AtomicFile/Atomic.antt =====
-- Whatever happens during a write, and wherever the process stops, the target is as it was or whole.
use dhcp_lease_observer.Prelude.{
  ℕ, ◌≤◌, ◌≡◌, ◌≢◌, ◌∙◌, refl, sym, ap, inl, inr, true, ◌||◌, Option, none, some, [], arith, length,
  ltb, nat_beq, Bool-cases,
}
use dhcp_lease_observer.Text.{Bytes, is_empty}
use dhcp_lease_observer.Files.{File, Disk, put, put_self, put_other}
use dhcp_lease_observer.AtomicFile.Limit.{join, IsWritten, write_chunks-IsWritten}
use dhcp_lease_observer.AtomicFile.{
  Outcome, works, fails, stops, Calls, Callback, AtomicError, invalid_options, create_failed,
  chmod_failed, sync_failed, close_failed, rename_failed, open_failed, sync_directory_failed, Exit,
  done, failed, stopped, attempt, keep, remove_temporary, sync_directory, file_of, write_chunks,
  replace, after_callback, write_temporary, write,
}

-- A property of the end of an attempt holds if it holds on each of the three ways.
attempt-cases :
    (P : Exit × Disk → Type 0) (o : Outcome) (e : AtomicError) (clean : Exit × Disk → Exit × Disk)
    (before after : Disk) (next : Disk → Exit × Disk)
    → P (clean (failed e, before))
    → P (stopped, before)
    → P (next after)
    → P (attempt o e clean before after next)
attempt-cases P works e clean before after next f s n = n
attempt-cases P fails e clean before after next f s n = f
attempt-cases P stops e clean before after next f s n = s

module _ (calls : Calls) (path : Bytes) (mode max_bytes : ℕ) (callback : Callback)
    (disk : Disk) where
  -- The target is as before and the write did not succeed, or it is a whole file of all chunks with
  -- the mode asked for, within the limit, and the callback ended well. No file but the two changes.
  -- If the process did not stop and the removal works, no temporary file is left.
  pub data Target (out : Exit × Disk) : Type 0 where
    same : out.1 path ≡ disk path → out.0 ≢ done → Target out
    whole :
        out.1 path ≡ some (file_of mode (join callback.chunks))
        → length (join callback.chunks) ≤ max_bytes
        → callback.ends_well ≡ true
        → Target out

  pub record IsAtomic (out : Exit × Disk) : Type 0 where
    pub target : Target out
    pub others : (p : Bytes) → calls.temporary ≢ p → path ≢ p → out.1 p ≡ disk p
    pub cleaned : out.0 ≢ stopped → calls.remove ≡ works → out.1 calls.temporary ≡ none

module _ (calls : Calls) (path : Bytes) (mode max_bytes : ℕ) (callback : Callback) (disk : Disk)
    (apart : calls.temporary ≢ path) (fresh : disk calls.temporary ≡ none) where
  abbrev Good : Exit × Disk → Type 0
  Good = IsAtomic calls path mode max_bytes callback disk

  -- All but the temporary file is as before.
  abbrev Began : Disk → Type 0
  Began d = (p : Bytes) → calls.temporary ≢ p → d p ≡ disk p

  Began-put : (d : Disk) (f : Option File) → Began d → Began (put calls.temporary f d)
  Began-put d f b p h = put_other calls.temporary p f d h ∙ b p h

  -- The ways of the removal: the temporary file is gone, all is as it was, or the process stops.
  remove_temporary-cases :
      (P : Exit × Disk → Type 0) (out : Exit × Disk)
      → P (out.0, put calls.temporary none out.1)
      → (calls.remove ≢ works → P out)
      → P (stopped, out.1)
      → P (remove_temporary calls out)
  unfolding remove_temporary
  remove_temporary-cases P out gone left halted = by_outcome calls.remove refl
    where
      by_outcome : (o : Outcome) → calls.remove ≡ o → P (remove_temporary calls out)
      by_outcome works e = rw (e, remove_temporary) gone
      by_outcome fails e = rw (e, remove_temporary) (left (λ w. cc))
      by_outcome stops e = rw (e, remove_temporary) halted

  Began-path : (d : Disk) → Began d → d path ≡ disk path
  Began-path d b = b path apart

  stopped-IsAtomic : (d : Disk) → Began d → Good (stopped, d)
  stopped-IsAtomic d b = record {
    target = same (Began-path d b) (λ h. cc);
    others = λ p h k. b p h;
    cleaned = λ h r. absurd (h refl);
  }

  failed-IsAtomic :
      (e : AtomicError) (d : Disk) → Began d → Good (remove_temporary calls (failed e, d))
  failed-IsAtomic e d b =
      remove_temporary-cases Good (failed e, d)
        (record {
          target = same (Began-path _ (Began-put d none b)) (λ h. cc);
          others = λ p h k. Began-put d none b p h;
          cleaned = λ h r. put_self calls.temporary none d;
        })
        (λ n. record {
          target = same (Began-path d b) (λ h. cc);
          others = λ p h k. b p h;
          cleaned = λ h r. absurd (n r);
        })
        (stopped-IsAtomic d b)

  untouched-IsAtomic : (e : AtomicError) → Good (failed e, disk)
  untouched-IsAtomic e = record {
    target = same refl (λ h. cc);
    others = λ p h k. refl;
    cleaned = λ h r. fresh;
  }

  -- The disk behind the rename.
  record IsRenamed (d : Disk) : Type 0 where
    pub holds : d path ≡ some (file_of mode (join callback.chunks))
    pub rest : (p : Bytes) → calls.temporary ≢ p → path ≢ p → d p ≡ disk p
    pub gone : d calls.temporary ≡ none

  module _ (small : length (join callback.chunks) ≤ max_bytes)
      (well : callback.ends_well ≡ true) where
    renamed-IsAtomic : (x : Exit) (d : Disk) → IsRenamed d → Good (x, d)
    renamed-IsAtomic x d r = record {
      target = whole r.holds small well;
      others = r.rest;
      cleaned = λ h k. r.gone;
    }

    sync_directory-IsAtomic : (d : Disk) → IsRenamed d → Good (sync_directory calls d)
    unfolding sync_directory
    sync_directory-IsAtomic d r =
        attempt-cases Good calls.open_directory open_failed keep d d _ (renamed-IsAtomic _ d r)
          (renamed-IsAtomic _ d r)
          (attempt-cases Good calls.sync_directory sync_directory_failed keep d d _
            (renamed-IsAtomic _ d r) (renamed-IsAtomic _ d r) (renamed-IsAtomic _ d r))

    rename-IsRenamed :
        (d : Disk)
        → Began d
        → IsRenamed
            (put path (some (file_of mode (join callback.chunks))) (put calls.temporary none d))
    rename-IsRenamed d b = record {
      holds = put_self path _ _;
      rest = λ p h k. put_other path p _ _ k ∙ put_other calls.temporary p none d h ∙ b p h;
      gone =
          put_other path calls.temporary _ _ (λ e. apart (sym e)) ∙ put_self calls.temporary none d;
    }

    replace-IsAtomic :
        (d : Disk) → Began d → Good (replace calls path (file_of mode (join callback.chunks)) d)
    unfolding replace
    replace-IsAtomic d b =
        attempt-cases Good calls.sync sync_failed _ d d _ (failed-IsAtomic _ d b)
          (stopped-IsAtomic d b)
          (attempt-cases Good calls.close close_failed _ d d _ (failed-IsAtomic _ d b)
            (stopped-IsAtomic d b)
            (attempt-cases Good calls.rename rename_failed _ d _ _ (failed-IsAtomic _ d b)
              (stopped-IsAtomic d b) (sync_directory-IsAtomic _ (rename-IsRenamed d b))))

  after_callback-IsAtomic :
      (out : Bytes × Exit) (d : Disk)
      → IsWritten max_bytes [] callback.chunks callback.ends_well out
      → Began d
      → Good (after_callback calls path (file_of mode out.0) out.1 d)
  unfolding after_callback
  after_callback-IsAtomic (content, done) d w b =
      let e = w.whole refl in
      rw e (replace-IsAtomic (omega (arith, w.bounded, ap length e)) (w.well refl) d b)
  after_callback-IsAtomic (content, failed e) d w b = failed-IsAtomic e d b
  after_callback-IsAtomic (content, stopped) d w b = stopped-IsAtomic d b

  write_temporary-IsAtomic : Good (write_temporary calls path mode max_bytes callback disk)
  unfolding write_temporary
  write_temporary-IsAtomic =
      let b : Began disk = λ p h. refl in
      let out = write_chunks calls.writes 0 max_bytes [] callback.chunks callback.ends_well in
      let made = Began-put disk (some (file_of 384 [])) b in
      attempt-cases Good calls.create create_failed keep disk _ _ (untouched-IsAtomic create_failed)
        (stopped-IsAtomic disk b)
        (attempt-cases Good calls.chmod chmod_failed _ _ _ _ (failed-IsAtomic _ _ made)
          (stopped-IsAtomic _ made)
          (after_callback-IsAtomic out _
            (write_chunks-IsWritten calls.writes 0 max_bytes [] callback.chunks callback.ends_well)
            (Began-put _ (some (file_of mode out.0)) (Began-put _ (some (file_of mode [])) made))))

  -- With a temporary name that is free and not the target's:
  -- whatever each call of the system does, and wherever the process stops, the target is as it was
  -- and the write did not succeed, or it is the whole new file with the mode asked for, no longer
  -- than the limit, of a callback that ended well. No other file changes but the temporary one, and
  -- if the process goes on and the removal works, that one is gone.
  pub write-IsAtomic :
      IsAtomic calls path mode max_bytes callback disk
        (write calls path mode max_bytes callback disk)
  unfolding write
  write-IsAtomic = elim (Bool-cases (is_empty path || ltb 511 mode || nat_beq max_bytes 0)) [
    | inl b ↦ rw (b, write) (untouched-IsAtomic invalid_options)
    | inr b ↦ rw (b, write) write_temporary-IsAtomic
  ]
