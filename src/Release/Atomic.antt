-- ===== src/Release/Atomic.antt =====
-- A file of a release is replaced whole, or stays.
use dhcp_lease_observer.Prelude.{
  ℕ, suc, ◌≡◌, ◌≢◌, ◌⊎◌, ◌∙◌, refl, sym, ap, inl, inr, Bool, true, false, Option, none, some, List,
  [], ◌∷◌, ◌++◌, arith,
}
use mathlib.Core.List.{append-nil, append_assoc}
use dhcp_lease_observer.Text.{Bytes}
use dhcp_lease_observer.Files.{File, Disk, put, put_self, put_other}
use dhcp_lease_observer.AtomicFile.{Outcome, works, fails, stops, WriteCall, Callback, file_of}
use dhcp_lease_observer.AtomicFile.Limit.{join}
use dhcp_lease_observer.Release.Write.{
  End, gives, errs, halts, WriteCalls, write_chunk, next_chunk, write_all, try_call, remove_scratch,
  put_in_place, after_write, write_atomic,
}

-- The file holds all chunks if the callback gets to its end.
record IsAll (content : Bytes) (chunks : List Bytes) (ends_well : Bool)
    (out : Bytes × End (Unit {0})) : Type 0 where
  pub whole : out.1 ≡ gives tt → out.0 ≡ content ++ join chunks
  pub well : out.1 ≡ gives tt → ends_well ≡ true

next_chunk-IsAll :
    {content chunk : Bytes} {chunks : List Bytes} {ends_well : Bool} (w : Bytes × End (Unit {0}))
    (rest : Bytes × End (Unit {0}))
    → (w.1 ≡ gives tt → w.0 ≡ chunk)
    → IsAll (content ++ w.0) chunks ends_well rest
    → IsAll content (chunk ∷ chunks) ends_well (next_chunk w.1 (content ++ w.0) rest)
next_chunk-IsAll {content} {chunks = chunks} (written, gives tt) rest e r = record {
  whole = λ h.
      r.whole h
      ∙ append_assoc content written (join chunks)
      ∙ ap (λ x. content ++ (x ++ join chunks)) (e refl);
  well = r.well;
}
next_chunk-IsAll (written, errs) rest e r = record {
  whole = λ h. absurd (cc);
  well = λ h. absurd (cc);
}
next_chunk-IsAll (written, halts) rest e r = record {
  whole = λ h. absurd (cc);
  well = λ h. absurd (cc);
}

write_chunk-whole :
    (call : WriteCall) (chunk : Bytes)
    → (write_chunk call chunk).1 ≡ gives tt
    → (write_chunk call chunk).0 ≡ chunk
unfolding write_chunk
write_chunk-whole call chunk h = by_outcome call.outcome refl
  where
    by_outcome : (o : Outcome) → call.outcome ≡ o → (write_chunk call chunk).0 ≡ chunk
    by_outcome works e = rw (e, write_chunk) refl
    by_outcome fails e = absurd (ground (arith, e))
    by_outcome stops e = absurd (ground (arith, e))

write_all-IsAll :
    (writes : ℕ → WriteCall) (n : ℕ) (content : Bytes) (chunks : List Bytes) (ends_well : Bool)
    → IsAll content chunks ends_well (write_all writes n content chunks ends_well)
unfolding write_all
write_all-IsAll writes n content [] true = record {
  whole = λ h. sym (append-nil content);
  well = λ h. refl;
}
write_all-IsAll writes n content [] false = record {
  whole = λ h. absurd (cc);
  well = λ h. absurd (cc);
}
write_all-IsAll writes n content (chunk ∷ chunks) ends_well =
    let w = write_chunk (writes n) chunk in
    next_chunk-IsAll w (write_all writes (suc n) (content ++ w.0) chunks ends_well)
      (write_chunk-whole (writes n) chunk)
      (write_all-IsAll writes (suc n) (content ++ w.0) chunks ends_well)

-- A property of the end of a call holds if it holds on each of the three ways.
try_call-cases :
    (P : End (Unit {0}) × Disk → Type 0) (o : Outcome)
    (clean : End (Unit {0}) × Disk → End (Unit {0}) × Disk) (before after : Disk)
    (next : Disk → End (Unit {0}) × Disk)
    → P (clean (errs, before))
    → P (halts, before)
    → P (next after)
    → P (try_call o clean before after next)
try_call-cases P works clean before after next f s n = n
try_call-cases P fails clean before after next f s n = f
try_call-cases P stops clean before after next f s n = s

module _ (calls : WriteCalls) (path : Bytes) (mode : ℕ) (callback : Callback) (disk : Disk) where
  -- The target is as before and the write did not succeed, or the write did not fail, the callback
  -- ended well and the target is a whole file of all chunks with the mode asked for.
  pub data Placed (out : End (Unit {0}) × Disk) : Type 0 where
    same : out.1 path ≡ disk path → out.0 ≢ gives tt → Placed out
    placed :
        out.0 ≢ errs
        → out.1 path ≡ some (file_of mode (join callback.chunks))
        → callback.ends_well ≡ true
        → Placed out

  -- No file but the two changes, and if the process goes on and the removal works, the temporary one
  -- is gone, or as it was if it could not be made.
  pub record IsPlaced (out : End (Unit {0}) × Disk) : Type 0 where
    pub target : Placed out
    pub others : (p : Bytes) → calls.temporary ≢ p → path ≢ p → out.1 p ≡ disk p
    pub cleaned :
        out.0 ≢ halts
        → calls.remove ≡ works
        → (out.1 calls.temporary ≡ none) ⊎ (out.1 calls.temporary ≡ disk calls.temporary)

module _ (calls : WriteCalls) (path : Bytes) (mode : ℕ) (callback : Callback) (disk : Disk)
    (apart : calls.temporary ≢ path) where
  abbrev Good : End (Unit {0}) × Disk → Type 0
  Good = IsPlaced calls path mode callback disk

  -- All but the temporary file is as on another disk.
  abbrev Near : Disk → Disk → Type 0
  Near c d = (p : Bytes) → calls.temporary ≢ p → d p ≡ c p

  Near-put : (c d : Disk) (f : Option File) → Near c d → Near c (put calls.temporary f d)
  Near-put c d f b p h = put_other calls.temporary p f d h ∙ b p h

  -- The ways of the removal: the temporary file is gone, all is as it was, or the process stops.
  remove_scratch-cases :
      (P : End (Unit {0}) × Disk → Type 0) (out : End (Unit {0}) × Disk)
      → P (out.0, put calls.temporary none out.1)
      → (calls.remove ≢ works → P out)
      → P (halts, out.1)
      → P (remove_scratch calls out)
  unfolding remove_scratch
  remove_scratch-cases P out gone left stopped = by_outcome calls.remove refl
    where
      by_outcome : (o : Outcome) → calls.remove ≡ o → P (remove_scratch calls out)
      by_outcome works e = rw (e, remove_scratch) gone
      by_outcome fails e = rw (e, remove_scratch) (left (λ w. cc))
      by_outcome stops e = rw (e, remove_scratch) stopped

  halts-IsPlaced : (d : Disk) → Near disk d → Good (halts, d)
  halts-IsPlaced d b = record {
    target = same (b path apart) (λ h. cc);
    others = λ p h k. b p h;
    cleaned = λ h r. absurd (h refl);
  }

  errs-IsPlaced : (d : Disk) → Near disk d → Good (remove_scratch calls (errs, d))
  errs-IsPlaced d b =
      remove_scratch-cases Good (errs, d)
        (record {
          target = same (Near-put disk d none b path apart) (λ h. cc);
          others = λ p h k. Near-put disk d none b p h;
          cleaned = λ h r. inl (put_self calls.temporary none d);
        })
        (λ n. record {
          target = same (b path apart) (λ h. cc);
          others = λ p h k. b p h;
          cleaned = λ h r. absurd (n r);
        })
        (halts-IsPlaced d b)

  -- The disk behind the rename.
  abbrev renamed : Disk → Disk
  renamed d = put path (some (file_of mode (join callback.chunks))) (put calls.temporary none d)

  -- What stands behind the rename, with an end that is no error.
  renamed-others :
      (d e : Disk)
      → Near disk d
      → Near (renamed d) e
      → (p : Bytes) → calls.temporary ≢ p
      → path ≢ p
      → e p ≡ disk p
  renamed-others d e b n p h k =
      n p h ∙ put_other path p _ _ k ∙ put_other calls.temporary p none d h ∙ b p h

  renamed-Placed :
      (end : End (Unit {0})) (d e : Disk)
      → end ≢ errs
      → callback.ends_well ≡ true
      → Near (renamed d) e
      → Placed calls path mode callback disk (end, e)
  renamed-Placed end d e n w near = placed n (near path apart ∙ put_self path _ _) w

  renamed-IsPlaced :
      (d : Disk)
      → Near disk d
      → callback.ends_well ≡ true
      → Good (remove_scratch calls (gives tt, renamed d))
  renamed-IsPlaced d b w =
      let gone = Near-put (renamed d) (renamed d) none (λ p h. refl) in
      remove_scratch-cases Good (gives tt, renamed d)
        (record {
          target = renamed-Placed (gives tt) d _ (λ h. cc) w gone;
          others = renamed-others d _ b gone;
          cleaned = λ h r. inl (put_self calls.temporary none (renamed d));
        })
        (λ n. record {
          target = renamed-Placed (gives tt) d _ (λ h. cc) w (λ p h. refl);
          others = renamed-others d _ b (λ p h. refl);
          cleaned = λ h r. absurd (n r);
        })
        (record {
          target = renamed-Placed halts d _ (λ h. cc) w (λ p h. refl);
          others = renamed-others d _ b (λ p h. refl);
          cleaned = λ h r. absurd (h refl);
        })

  put_in_place-IsPlaced :
      (d : Disk)
      → Near disk d
      → callback.ends_well ≡ true
      → Good (put_in_place calls path (file_of mode (join callback.chunks)) d)
  unfolding put_in_place
  put_in_place-IsPlaced d b w =
      let f = errs-IsPlaced d b in
      let s = halts-IsPlaced d b in
      let clean = remove_scratch calls in
      try_call-cases Good calls.sync clean d d _ f s (
        try_call-cases Good calls.close clean d d _ f s
          (try_call-cases Good calls.rename clean d (renamed d) _ f s (renamed-IsPlaced d b w)))

  after_write-IsPlaced :
      (out : Bytes × End (Unit {0})) (d : Disk)
      → IsAll [] callback.chunks callback.ends_well out
      → Near disk d
      → Good (after_write calls path (file_of mode out.0) out.1 d)
  unfolding after_write
  after_write-IsPlaced (content, gives tt) d w b =
      rw (w.whole refl) (put_in_place-IsPlaced d b (w.well refl))
  after_write-IsPlaced (content, errs) d w b = errs-IsPlaced d b
  after_write-IsPlaced (content, halts) d w b = halts-IsPlaced d b

  -- With a temporary name that is not the target's: whatever each call of the system does, and
  -- wherever the process stops, the target is as it was and the write did not succeed, or the write
  -- succeeded or stopped and the target is the whole new file, with the mode asked for, of a callback
  -- that ended well. No other file changes but the temporary one, and if the process goes on and the removal
  -- works, that one is gone, or as it was if it could not be made.
  pub write_atomic-IsPlaced : Good (write_atomic calls path mode callback disk)
  unfolding write_atomic
  write_atomic-IsPlaced =
      let near : Near disk disk = λ p h. refl in
      let made = Near-put disk disk (some (file_of 384 [])) near in
      let out = write_all calls.writes 0 [] callback.chunks callback.ends_well in
      try_call-cases Good calls.create (λ out. out) disk _ _
        (record { target = same refl (λ h. cc); others = λ p h k. refl; cleaned = λ h r. inr refl })
        (halts-IsPlaced disk near)
        (try_call-cases Good calls.chmod (remove_scratch calls) _ _ _ (errs-IsPlaced _ made)
          (halts-IsPlaced _ made)
          (after_write-IsPlaced out _
            (write_all-IsAll calls.writes 0 [] callback.chunks callback.ends_well)
            (Near-put disk _ (some (file_of mode out.0))
              (Near-put disk _ (some (file_of mode [])) made))))
