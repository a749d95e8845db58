-- ===== src/AtomicFile/Limit.antt =====
-- What the limitWriter lets through.
use dhcp_lease_observer.Prelude.{
  ℕ, zero, suc, ◌+◌, ◌-◌, ◌≤◌, ◌≡◌, ◌∙◌, refl, sym, ap, Bool, true, false, List, [], ◌∷◌, ◌++◌,
  arith, take, length, length-append, ltb, Bool-cases, inl, inr,
}
use mathlib.Core.List.{append-nil, append_assoc}
use dhcp_lease_observer.Text.{Bytes}
use dhcp_lease_observer.AtomicFile.{
  WriteCall, Outcome, works, fails, stops, Exit, done, failed, stopped, write_end, after_chunk,
  limit_write, write_chunks,
}

abbrev pub join : List Bytes → Bytes
join [] = []
join (chunk ∷ chunks) = chunk ++ join chunks

length-take : (n : ℕ) (s : Bytes) → length (take n s) ≤ length s
length-take zero s = omega arith
length-take (suc n) [] = omega arith
length-take (suc n) (c ∷ s) = omega (arith, length-take n s)

take_all : (n : ℕ) (s : Bytes) → length (take n s) ≡ length s → take n s ≡ s
take_all zero [] h = refl
take_all zero (c ∷ s) h = absurd (omega arith)
take_all (suc n) [] h = refl
take_all (suc n) (c ∷ s) h = ap (◌∷◌ c) (take_all n s (omega arith))

-- A write keeps to what remains, and is whole if it ends without an error.
record IsLimited (remaining : ℕ) (chunk : Bytes) (out : Bytes × Exit) : Type 0 where
  pub fits : length out.0 ≤ remaining
  pub whole : out.1 ≡ done → out.0 ≡ chunk

write_end-done : (o : Outcome) (n k : ℕ) → write_end o n k ≡ done → n ≡ k
write_end-done works n k h = ground arith
write_end-done fails n k h = cc
write_end-done stops n k h = cc

limit_write-IsLimited :
    (remaining : ℕ) (call : WriteCall) (chunk : Bytes)
    → IsLimited remaining chunk (limit_write remaining call chunk)
unfolding limit_write
limit_write-IsLimited remaining call chunk = elim (Bool-cases (ltb remaining (length chunk))) [
  | inl b ↦ rw (b, limit_write) (record { fits = omega arith; whole = λ h. cc })
  | inr b ↦
      rw (b, limit_write)
        (record {
          fits = ground (arith, b, length-take call.accepts chunk);
          whole = λ h. take_all call.accepts chunk (write_end-done call.outcome _ _ h);
        })
]

-- The content never grows past what was there and what remains; if the callback ends well, it is
-- what was there and all chunks.
pub record IsWritten (remaining : ℕ) (content : Bytes) (chunks : List Bytes) (ends_well : Bool)
    (out : Bytes × Exit) : Type 0 where
  pub bounded : length out.0 ≤ length content + remaining
  pub whole : out.1 ≡ done → out.0 ≡ content ++ join chunks
  pub well : out.1 ≡ done → ends_well ≡ true

after_chunk-IsWritten :
    {remaining : ℕ} {content chunk : Bytes} {chunks : List Bytes} {ends_well : Bool}
    (out : Bytes × Exit) (rest : Bytes × Exit)
    → IsLimited remaining chunk out
    → IsWritten (remaining - length out.0) (content ++ out.0) chunks ends_well rest
    → IsWritten remaining content
        (chunk ∷ chunks)
        ends_well
        (after_chunk out.1 (content ++ out.0) rest)
after_chunk-IsWritten {content = content} {chunks = chunks} (written, done) rest l r = record {
  bounded = omega (arith, l.fits, r.bounded, length-append content written);
  whole = λ h.
      r.whole h
      ∙ append_assoc content written (join chunks)
      ∙ ap (λ w. content ++ (w ++ join chunks)) (l.whole refl);
  well = λ h. r.well h;
}
after_chunk-IsWritten {content = content} (written, failed e) rest l r = record {
  bounded = omega (arith, l.fits, length-append content written);
  whole = λ h. cc;
  well = λ h. cc;
}
after_chunk-IsWritten {content = content} (written, stopped) rest l r = record {
  bounded = omega (arith, l.fits, length-append content written);
  whole = λ h. cc;
  well = λ h. cc;
}

pub write_chunks-IsWritten :
    (writes : ℕ → WriteCall) (n remaining : ℕ) (content : Bytes) (chunks : List Bytes)
    (ends_well : Bool)
    → IsWritten remaining content chunks ends_well
        (write_chunks writes n remaining content chunks ends_well)
unfolding write_chunks
write_chunks-IsWritten writes n remaining content [] true = record {
  bounded = omega arith;
  whole = λ h. sym (append-nil content);
  well = λ h. refl;
}
write_chunks-IsWritten writes n remaining content [] false = record {
  bounded = omega arith;
  whole = λ h. cc;
  well = λ h. cc;
}
write_chunks-IsWritten writes n remaining content (chunk ∷ chunks) ends_well =
    let out = limit_write remaining (writes n) chunk in
    after_chunk-IsWritten out _ (limit_write-IsLimited remaining (writes n) chunk) (
      write_chunks-IsWritten writes (suc n) (remaining - length out.0) (content ++ out.0) chunks
        ends_well)
