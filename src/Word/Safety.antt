-- ===== src/Word/Safety.antt =====
-- The readers of a frame fail with an error or read inside the frame: none of them panics.
use ethabi.Base.{
  ℕ, ◌+◌, ◌-◌, ◌^◌, ◌<◌, ◌≤◌, ◌≡◌, refl, Bool, true, false, ◌&&◌, ltb, leb, inl, inr, Bool-cases,
  length, take, drop, all, Bytes, AreBytes, take-AreBytes, drop-AreBytes, get_or-lt, arith, Ensures,
  holds, fails, Ensures-bind, Ensures-weaken, length-take_bytes, length-drop_bytes, guard, Error,
}
use ethabi.Word.{
  slice, slice_from, check_zeroes, as_usize, as_bool, peek_32_bytes, take_bytes, is_zero,
}
use ethabi.Word.Segments.{pad_len, round_up-pad_len, usize_small}

pub Ensures-guard : (b : Bool) (e : Error) → Ensures (λ _. b ≡ true) (guard b e)
Ensures-guard true e = holds refl
Ensures-guard false e = fails

pub check_zeroes-Ensures : (bs : Bytes) → Ensures (λ _. Unit {0}) (check_zeroes bs)
unfolding check_zeroes
check_zeroes-Ensures bs = elim (Bool-cases (all is_zero bs)) [
  | inl h ↦ rw h (holds tt)
  | inr h ↦ rw h fails
]

-- A slice inside the frame.
pub slice-Ensures :
    (frame : Bytes) (lo hi : ℕ)
    → AreBytes frame
    → lo ≤ hi
    → hi ≤ length frame
    → Ensures (λ r. (length r ≡ hi - lo) × AreBytes r) (slice frame lo hi)
unfolding slice
slice-Ensures frame lo hi bytes h k =
    let inside : (leb lo hi && leb hi (length frame)) ≡ true = ground arith in
    rw inside (
      holds (
        omega (arith, length-take_bytes (hi - lo) (drop lo frame), length-drop_bytes lo frame),
        take-AreBytes (hi - lo) (drop lo frame) (drop-AreBytes lo frame bytes),
      ))

pub slice_from-Ensures :
    (frame : Bytes) (lo : ℕ)
    → AreBytes frame
    → lo ≤ length frame
    → Ensures (λ r. (length r ≤ length frame) × AreBytes r) (slice_from frame lo)
unfolding slice_from
slice_from-Ensures frame lo bytes h =
    let inside : leb lo (length frame) ≡ true = ground arith in
    rw inside (holds (omega (arith, length-drop_bytes lo frame), drop-AreBytes lo frame bytes))

pub peek_32_bytes-Ensures :
    (frame : Bytes) (pos : ℕ)
    → AreBytes frame
    → pos < 2 ^ 63
    → Ensures
        (λ r. (length r ≡ 32) × AreBytes r × (pos + 32 ≤ length frame))
        (peek_32_bytes frame pos)
unfolding peek_32_bytes
peek_32_bytes-Ensures frame pos bytes h =
    rw (usize_small (pos + 32) (omega arith)) (elim (Bool-cases (ltb (length frame) (pos + 32))) [
      | inl out ↦ rw out fails
      | inr inside ↦
          let fits : pos + 32 ≤ length frame = ground arith in
          rw inside (
            Ensures-weaken (slice-Ensures frame pos (pos + 32) bytes (omega arith) fits)
              λ r k. (omega arith, k.1, fits))
    ])

pub as_usize-Ensures : (word : Bytes) → AreBytes word → Ensures (λ v. v < 2 ^ 32) (as_usize word)
unfolding as_usize
as_usize-Ensures word bytes =
    let a = get_or-lt word 28 bytes in
    let b = get_or-lt word 29 bytes in
    let c = get_or-lt word 30 bytes in
    let d = get_or-lt word 31 bytes in
    elim (Bool-cases (all is_zero (take 28 word))) [
      | inl h ↦ rw h (holds (omega arith))
      | inr h ↦ rw h fails
    ]

-- The bytes at an offset.
pub take_bytes-Ensures :
    (frame : Bytes) (pos len : ℕ) (validate : Bool)
    → AreBytes frame
    → pos < 2 ^ 63
    → len < 2 ^ 62
    → Ensures
        (λ r. (length r ≡ len) × (pos + len ≤ length frame))
        (take_bytes frame pos len validate)
unfolding take_bytes
take_bytes-Ensures frame pos len true bytes h k =
    rw
      (
        round_up-pad_len len (omega arith),
        usize_small (pos + (len + pad_len len)) (omega arith),
        usize_small (pos + len) (omega arith),
      )
      (elim (Bool-cases (ltb (length frame) (pos + (len + pad_len len)))) [
        | inl out ↦ rw out fails
        | inr inside ↦
            let fits : pos + (len + pad_len len) ≤ length frame = ground arith in
            rw inside (
              Ensures-bind
                (slice-Ensures frame (pos + len) (pos + (len + pad_len len)) bytes (omega arith)
                  fits)
                λ padding _. Ensures-bind (check_zeroes-Ensures padding) λ _ _.
                  Ensures-weaken
                    (slice-Ensures frame pos (pos + len) bytes (omega arith) (omega arith))
                    λ r e. (omega arith, omega arith))
      ])
take_bytes-Ensures frame pos len false bytes h k =
    rw (usize_small (pos + len) (omega arith)) (elim (Bool-cases (ltb (length frame) (pos + len))) [
      | inl out ↦ rw out fails
      | inr inside ↦
          let fits : pos + len ≤ length frame = ground arith in
          rw inside (
            Ensures-weaken (slice-Ensures frame pos (pos + len) bytes (omega arith) fits)
              λ r e. (omega arith, fits))
    ])

pub as_bool-Ensures : (word : Bytes) → Ensures (λ _. Unit {0}) (as_bool word)
unfolding as_bool
as_bool-Ensures word = Ensures-bind (check_zeroes-Ensures (take 31 word)) λ _ _. holds tt
