-- ===== src/Word/Segments.antt =====
-- A stretch of bytes that stands at a position of a frame, and what the readers return there.
use ethabi.Base.{
  ℕ, zero, suc, ◌+◌, ◌-◌, ◌*◌, ◌/◌, ◌^◌, ◌≤◌, ◌<◌, ◌≡◌, refl, sym, ap, ◌∙◌, Bool, true, false, [],
  ◌∷◌, ◌++◌, length, take, drop, replicate, Bytes, ok, arith, lengths, take-append, drop-append,
  append_assoc, append-nil,
}
use mathlib.Core.List.{tail-eq_of_cons-eq}
use ethabi.Word.{slice, slice_from, peek_32_bytes, take_bytes, round_up_nearest_multiple, usize}
use ethabi.Word.Laws.{check_zeroes-replicate}

-- `bs` stands at `pos` in `frame`.
abbrev pub Segment : Bytes → ℕ → Bytes → Type 0
Segment frame pos bs =
    (front : Bytes) × (back : Bytes) × (length front ≡ pos) × (frame ≡ front ++ (bs ++ back))

pub Segment-whole : (bs : Bytes) → Segment bs 0 bs
Segment-whole bs = ([], [], refl, sym (append-nil bs))

pub Segment-left :
    (frame : Bytes) (pos : ℕ) (xs bs : Bytes) → Segment frame pos (xs ++ bs) → Segment frame pos xs
Segment-left frame pos xs bs (front, back, e, d) =
    (front, bs ++ back, e, d ∙ ap (λ t. front ++ t) (append_assoc xs bs back))

pub Segment-right :
    (frame : Bytes) (pos : ℕ) (xs bs : Bytes)
    → Segment frame pos (xs ++ bs)
    → Segment frame (pos + length xs) bs
Segment-right frame pos xs bs (front, back, e, d) =
    (front ++ xs, back, omega (lengths, e), d ∙ simp append_assoc)

pub Segment-le :
    (frame : Bytes) (pos : ℕ) (bs : Bytes) → Segment frame pos bs → pos + length bs ≤ length frame
Segment-le frame pos bs (front, back, e, d) = omega (lengths, e, ap length d)

-- The frame of what stands from `start` on.
pub Segment-drop :
    (frame : Bytes) (start pos : ℕ) (bs : Bytes)
    → start ≤ length frame
    → Segment frame (start + pos) bs
    → Segment (drop start frame) pos bs
Segment-drop frame zero pos bs h (front, back, e, d) = (front, back, omega arith, d)
Segment-drop [] (suc start) pos bs h s = absurd (omega arith)
Segment-drop (x ∷ frame) (suc start) pos bs h ([], back, e, d) = absurd (omega arith)
Segment-drop (x ∷ frame) (suc start) pos bs h (y ∷ front, back, e, d) =
    Segment-drop frame start pos bs (omega arith) (front, back, omega arith, tail-eq_of_cons-eq d)

drop-Segment :
    (frame : Bytes) (pos : ℕ) (bs : Bytes)
    → Segment frame pos bs
    → take (length bs) (drop pos frame) ≡ bs
drop-Segment frame pos bs (front, back, e, d) =
    rw (d, ← e, drop-append front (bs ++ back)) (take-append bs back)

pub slice-Segment :
    (frame : Bytes) (pos : ℕ) (bs : Bytes)
    → Segment frame pos bs
    → slice frame pos (pos + length bs) ≡ ok bs
unfolding slice
slice-Segment frame pos bs s =
    let width : pos + length bs - pos ≡ length bs = omega arith in
    ground (arith, width, drop-Segment frame pos bs s, Segment-le frame pos bs s)

pub slice_from-le :
    (frame : Bytes) (pos : ℕ) → pos ≤ length frame → slice_from frame pos ≡ ok (drop pos frame)
unfolding slice_from
slice_from-le frame pos h = ground arith

-- A word that stands in a frame is read there.
pub peek-Segment :
    (frame : Bytes) (pos : ℕ) (word : Bytes)
    → length frame < 2 ^ 63
    → length word ≡ 32
    → Segment frame pos word
    → peek_32_bytes frame pos ≡ ok word
unfolding peek_32_bytes
peek-Segment frame pos word small w s =
    ground (arith, slice-Segment frame pos word s, Segment-le frame pos word s)

-- The zeros behind `n` bytes, up to a multiple of 32.
abbrev pub pad_len : ℕ → ℕ
pad_len n = (n + 31) / 32 * 32 - n

abbrev pub padded : Bytes → Bytes
padded bs = bs ++ replicate (pad_len (length bs)) 0

pub length-padded : (bs : Bytes) → length (padded bs) ≡ (length bs + 31) / 32 * 32
length-padded bs = omega lengths

pub round_up-pad_len : (n : ℕ) → n < 2 ^ 63 → round_up_nearest_multiple n 32 ≡ n + pad_len n
unfolding round_up_nearest_multiple
round_up-pad_len n h = omega arith

pub usize_small : (a : ℕ) → a < 2 ^ 64 → usize a ≡ a
usize_small a h = omega arith

length-padded_split : (bs : Bytes) → length (padded bs) ≡ length bs + pad_len (length bs)
length-padded_split bs = omega lengths

-- The padding behind bytes that stand in a frame.
padding-Segment :
    (frame : Bytes) (pos : ℕ) (bs : Bytes)
    → Segment frame pos (padded bs)
    → slice frame (pos + length bs) (pos + (length bs + pad_len (length bs)))
      ≡ ok (replicate (pad_len (length bs)) 0)
padding-Segment frame pos bs s =
    let zeros : Bytes = replicate (pad_len (length bs)) 0 in
    let ends : pos + (length bs + pad_len (length bs)) ≡ pos + length bs + length zeros =
      omega lengths in
    rw ends (slice-Segment frame (pos + length bs) zeros (Segment-right frame pos bs zeros s))

-- Padded bytes that stand in a frame are read there, with their padding checked or not.
pub take_bytes-Segment :
    (frame : Bytes) (pos : ℕ) (bs : Bytes) (validate : Bool)
    → length frame < 2 ^ 62
    → Segment frame pos (padded bs)
    → take_bytes frame pos (length bs) validate ≡ ok bs
unfolding take_bytes
take_bytes-Segment frame pos bs true small s =
    let fits = Segment-le frame pos (padded bs) s in
    let size = length-padded_split bs in
    rw
      (
        round_up-pad_len (length bs) (omega arith),
        usize_small (pos + (length bs + pad_len (length bs))) (omega arith),
        usize_small (pos + length bs) (omega arith),
        padding-Segment frame pos bs s,
        check_zeroes-replicate,
        slice-Segment frame pos bs (Segment-left frame pos bs _ s),
      )
      (ground arith)
take_bytes-Segment frame pos bs false small s =
    let fits = Segment-le frame pos (padded bs) s in
    let size = length-padded_split bs in
    rw
      (
        usize_small (pos + length bs) (omega arith),
        slice-Segment frame pos bs (Segment-left frame pos bs _ s),
      )
      (ground arith)
