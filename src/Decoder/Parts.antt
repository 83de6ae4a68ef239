-- ===== src/Decoder/Parts.antt =====
-- What the decoder's readers return where the parts of an encoding stand in a frame.
use ethabi.Base.{
  ℕ, ◌+◌, ◌^◌, ◌<◌, ◌≡◌, refl, subst, Bool, true, false, ◌++◌, length, drop, Bytes, ok, ◌>>=◌,
  arith, length-append_bytes, replicate,
}
use ethabi.Word.{pad_u32, usize, as_usize, peek_32_bytes}
use ethabi.Word.Laws.{length-pad_u32, as_usize-pad_u32}
use ethabi.Word.Segments.{
  Segment, Segment-left, Segment-right, Segment-le, Segment-drop, peek-Segment, slice_from-le,
  padded, length-padded, take_bytes-Segment, usize_small,
}
use ethabi.Decoder.{check_address, decode_dynamic_bytes, enter_frame, enter_array}

-- A u32 that stands in a frame.
pub read_number :
    (frame : Bytes) (pos v : ℕ)
    → length frame < 2 ^ 32
    → v < 2 ^ 32
    → Segment frame pos (pad_u32 v)
    → (peek_32_bytes frame pos >>= as_usize) ≡ ok v
read_number frame pos v small h s =
    rw (peek-Segment frame pos (pad_u32 v) (omega arith) (length-pad_u32 v) s)
      (as_usize-pad_u32 v h)

pub check_address-padded :
    (validate : Bool) (a : Bytes) → check_address validate (replicate 12 0 ++ a) ≡ ok tt
unfolding check_address
check_address-padded true a = refl
check_address-padded false a = refl

-- The position behind a word.
pub word_end :
    (frame : Bytes) (pos : ℕ) (word : Bytes)
    → length frame < 2 ^ 32
    → length word ≡ 32
    → Segment frame pos word
    → usize (pos + 32) ≡ pos + 32
word_end frame pos word small w s = omega (arith, Segment-le frame pos word s)

pub behind_number :
    (frame : Bytes) (pos n : ℕ) (block : Bytes)
    → Segment frame pos (pad_u32 n ++ block)
    → Segment frame (pos + 32) block
behind_number frame pos n block s =
    subst (λ k. Segment frame (pos + k) block) (length-pad_u32 n)
      (Segment-right frame pos (pad_u32 n) block s)

pub decode_dynamic_bytes-Segment :
    (frame : Bytes) (pos offset : ℕ) (bs : Bytes) (validate : Bool)
    → length frame < 2 ^ 32
    → Segment frame pos (pad_u32 offset)
    → Segment frame offset (pad_u32 (length bs) ++ padded bs)
    → decode_dynamic_bytes frame pos validate ≡ ok bs
unfolding decode_dynamic_bytes
decode_dynamic_bytes-Segment frame pos offset bs validate small s t =
    let number = Segment-left frame offset (pad_u32 (length bs)) (padded bs) t in
    let there = behind_number frame offset (length bs) (padded bs) t in
    let fits = Segment-le frame (offset + 32) (padded bs) there in
    let size = length-padded bs in
    rw
      (
        peek-Segment frame pos (pad_u32 offset) (omega arith) (length-pad_u32 offset) s,
        as_usize-pad_u32 offset (omega arith),
        peek-Segment frame offset (pad_u32 (length bs)) (omega arith) (length-pad_u32 (length bs))
            number,
        as_usize-pad_u32 (length bs) (omega arith),
        usize_small (offset + 32) (omega arith),
      )
      (take_bytes-Segment frame (offset + 32) bs validate (omega arith) there)

-- A dynamic fixed array or tuple is entered at its offset.
pub enter_frame-Segment :
    (frame : Bytes) (pos offset : ℕ) (block : Bytes)
    → length frame < 2 ^ 32
    → Segment frame pos (pad_u32 offset)
    → Segment frame offset block
    → enter_frame true frame pos ≡ ok (drop offset frame, 0)
unfolding enter_frame
enter_frame-Segment frame pos offset block small s t =
    let fits = Segment-le frame offset block t in
    rw
      (
        peek-Segment frame pos (pad_u32 offset) (omega arith) (length-pad_u32 offset) s,
        as_usize-pad_u32 offset (omega arith),
        slice_from-le frame offset (omega arith),
      )
      (ground arith)

-- A dynamic array is entered behind its length.
pub enter_array-Segment :
    (frame : Bytes) (pos offset n : ℕ) (block : Bytes)
    → length frame < 2 ^ 32
    → n < 2 ^ 32
    → Segment frame pos (pad_u32 offset)
    → Segment frame offset (pad_u32 n ++ block)
    → enter_array frame pos ≡ ok (n, drop (offset + 32) frame)
unfolding enter_array
enter_array-Segment frame pos offset n block small h s t =
    let number = Segment-left frame offset (pad_u32 n) block t in
    let there = behind_number frame offset n block t in
    let fits = Segment-le frame (offset + 32) block there in
    rw (
      peek-Segment frame pos (pad_u32 offset) (omega arith) (length-pad_u32 offset) s,
      as_usize-pad_u32 offset (omega arith),
      peek-Segment frame offset (pad_u32 n) (omega arith) (length-pad_u32 n) number,
      as_usize-pad_u32 n h,
      usize_small (offset + 32) (omega arith),
      slice_from-le frame (offset + 32) (omega arith),
    )

-- What stands at `start` in a frame stands at the front of the frame that begins there.
pub Segment-enter :
    (frame : Bytes) (start : ℕ) (heads tails : Bytes)
    → Segment frame start (heads ++ tails)
    → Segment (drop start frame) 0 heads × Segment (drop start frame) (length heads) tails
Segment-enter frame start heads tails s =
    let fits = Segment-le frame start (heads ++ tails) s in
    let size = length-append_bytes heads tails in
    let front : Segment (drop start frame) 0 (heads ++ tails) =
      Segment-drop frame start 0 (heads ++ tails) (omega arith)
        (subst (λ n. Segment frame n (heads ++ tails)) (omega arith) s) in
    (
      Segment-left _ 0 heads tails front,
      subst (λ n. Segment (drop start frame) n tails) (omega arith)
          (Segment-right _ 0 heads tails front),
    )
