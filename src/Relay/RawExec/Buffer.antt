-- ===== src/Relay/RawExec/Buffer.antt =====
-- The response buffer of `RawExecRelay` (src/RawExecRelay.cxx): its bounds and its content.
use qrelay.Common.{
  ℕ, ◌+◌, ◌-◌, ◌≤◌, ◌≡◌, refl, sym, ap, ◌∙◌, Bool, [], ◌∷◌, ◌++◌, append_assoc, some, arith, Bytes,
  take, drop, length, length-append, length-drop, length-take-le, append-nil, length-take_lt,
  take-length_append, take-append, ◌==◌, Bool-cases, inl, inr,
}
use qrelay.Relay.RawExec.{RawExecRelay, buffer_size, finds, blit, discard, append, try_read}

-- What the buffer holds of the output.
abbrev pub collected : RawExecRelay → Bytes
collected r = drop 1 (take r.response_fill r.response_buffer)

pub record IsSound (r : RawExecRelay) : Type 0 where
  pub size : length r.response_buffer ≡ buffer_size
  pub first : 1 ≤ r.response_fill
  pub bounded : r.response_fill ≤ buffer_size

length-blit :
    (buffer bytes : Bytes) (offset : ℕ)
    → offset + length bytes ≤ length buffer
    → length (blit buffer offset bytes) ≡ length buffer
length-blit buffer bytes offset h = omega (
  arith,
  length-append (take offset buffer) (bytes ++ drop (offset + length bytes) buffer),
  length-append bytes (drop (offset + length bytes) buffer),
  length-drop (offset + length bytes) buffer,
  length-take_lt offset buffer,
)

take-blit :
    (buffer bytes : Bytes) (offset : ℕ)
    → offset ≤ length buffer
    → take (offset + length bytes) (blit buffer offset bytes) ≡ take offset buffer ++ bytes
take-blit buffer bytes offset h =
    let front = take offset buffer ++ bytes in
    let count : offset + length bytes ≡ length front =
      omega (arith, length-append (take offset buffer) bytes, length-take_lt offset buffer) in
    rw (← append_assoc (take offset buffer) bytes (drop (offset + length bytes) buffer)) (
      ap (λ n. take n (front ++ drop (offset + length bytes) buffer)) count
      ∙ take-length_append front _)

drop_one-append : (xs ys : Bytes) → 1 ≤ length xs → drop 1 (xs ++ ys) ≡ drop 1 xs ++ ys
drop_one-append [] ys h = absurd (omega arith)
drop_one-append (x ∷ xs) ys h = refl

pub length-collected : (r : RawExecRelay) → IsSound r → length (collected r) + 1 ≡ r.response_fill
length-collected r s = omega (
  arith,
  length-drop 1 (take r.response_fill r.response_buffer),
  length-take_lt r.response_fill r.response_buffer,
  s,
)

-- One byte of the 256 is kept for the response code.
abbrev pub output_size : ℕ
output_size = 255

module _ (destroys : Bool) (r : RawExecRelay) (s : IsSound r) (bytes : Bytes) where
  append-IsSound : IsSound (append destroys r (some (take (buffer_size - r.response_fill) bytes))).0
  unfolding append
  append-IsSound =
      let got = take (buffer_size - r.response_fill) bytes in
      let few = length-take-le (buffer_size - r.response_fill) bytes in
      record {
        size = length-blit r.response_buffer got r.response_fill (omega (arith, few, s)) ∙ s.size;
        first = omega (arith, s);
        bounded = omega (arith, few, s);
      }

  collected-append :
      collected (append destroys r (some (take (buffer_size - r.response_fill) bytes))).0
      ≡ take output_size (collected r ++ bytes)
  unfolding append
  collected-append =
      let room : output_size - length (collected r) ≡ buffer_size - r.response_fill =
        omega (arith, length-collected r s) in
      rw (take-blit r.response_buffer _ r.response_fill (omega (arith, s))) (
        drop_one-append (take r.response_fill r.response_buffer) _
          (omega (arith, length-take_lt r.response_fill r.response_buffer, s))
        ∙ sym (
            take-append output_size (collected r) bytes (omega (arith, length-collected r s))
            ∙ ap (λ n. collected r ++ take n bytes) room))

  collected-full :
      buffer_size - r.response_fill ≡ 0 → collected r ≡ take output_size (collected r ++ bytes)
  collected-full full =
      let room : output_size - length (collected r) ≡ 0 = omega (arith, length-collected r s) in
      sym (
        take-append output_size (collected r) bytes (omega (arith, length-collected r s))
        ∙ rw room (append-nil (collected r)))

  -- A read that finds bytes keeps the buffer within its bounds, and the buffer then holds the first
  -- 255 bytes of what it held and what was found.
  pub try_read-finds :
      let r' = (try_read destroys r (finds bytes)).0 in
      IsSound r' × (collected r' ≡ take output_size (collected r ++ bytes))
  unfolding try_read discard
  try_read-finds = elim (Bool-cases (buffer_size - r.response_fill == 0)) [
    | inl full ↦ rw full (s, collected-full (ground arith))
    | inr room ↦ rw room (append-IsSound, collected-append)
  ]

-- A read without an error leaves the rest of the object alone.
pub try_read-kept :
    (destroys : Bool) (r : RawExecRelay) (bytes : Bytes)
    → let q = (try_read destroys r (finds bytes)).0 in
      (q.pidfd ≡ r.pidfd)
      × (q.response_pipe ≡ r.response_pipe)
      × (q.deleted ≡ r.deleted)
      × (q.calls ≡ r.calls)
      × (q.status ≡ r.status)
unfolding try_read discard append
try_read-kept destroys r bytes = ground arith
