-- ===== src/Encoder/FixedBytes.antt =====
-- `fixed_bytes_append` writes the bytes in chunks of 32, the last one padded with zeros.
use ethabi.Base.{
  ℕ, zero, suc, ◌+◌, ◌-◌, ◌*◌, ◌/◌, ◌<◌, ◌≡◌, refl, ap, ◌∙◌, sym, [], ◌∷◌, ◌++◌, flatten, length,
  take, drop, replicate, Bytes, arith, lengths, append_assoc, append-nil, take-append-drop,
  drop-drop, take_all,
}
use ethabi.Word.Segments.{padded, pad_len}
use ethabi.Encoder.{Words, to_copy, fixed_bytes_loop, fixed_bytes_append}

pub flatten-append : (ws vs : Words) → flatten (ws ++ vs) ≡ flatten ws ++ flatten vs
unfolding flatten
flatten-append [] vs = refl
flatten-append (w ∷ ws) vs =
    rw (flatten-append ws vs) (sym (append_assoc w (flatten ws) (flatten vs)))

pub flatten-push : (ws : Words) (w : Bytes) → flatten (ws ++ (w ∷ [])) ≡ flatten ws ++ w
unfolding flatten
flatten-push ws w = flatten-append ws (w ∷ []) ∙ ap (λ t. flatten ws ++ t) (append-nil w)

last_copy :
    (bs : Bytes) (i : ℕ)
    → i + 1 ≡ (length bs + 31) / 32
    → (32 * i + to_copy bs ((length bs + 31) / 32) i ≡ length bs)
      × (32 - to_copy bs ((length bs + 31) / 32) i ≡ pad_len (length bs))
unfolding to_copy
last_copy bs i h = ground arith

-- The last round copies what is left, and fills up.
last_chunk :
    (bs : Bytes) (i : ℕ)
    → i + 1 ≡ (length bs + 31) / 32
    → let n = to_copy bs ((length bs + 31) / 32) i in
      take n (drop (32 * i) bs) ++ replicate (32 - n) 0
      ≡ drop (32 * i) bs ++ replicate (pad_len (length bs)) 0
last_chunk bs i h =
    let (whole, fill) = last_copy bs i h in
    rw (
      take_all (to_copy bs ((length bs + 31) / 32) i) (drop (32 * i) bs) (omega (lengths, whole)),
      fill,
    )

full_chunk :
    (bs : Bytes) (len i : ℕ)
    → i + 1 < len
    → let n = to_copy bs len i in
      take n (drop (32 * i) bs) ++ replicate (32 - n) 0 ≡ take 32 (drop (32 * i) bs)
full_chunk bs len i h =
    let full : to_copy bs len i ≡ 32 = unfold to_copy in ground arith in
    rw full (append-nil (take 32 (drop (32 * i) bs)))

loop-padded :
    (bs : Bytes) (rounds i : ℕ) (result : Words)
    → i + suc rounds ≡ (length bs + 31) / 32
    → flatten (fixed_bytes_loop bs ((length bs + 31) / 32) (suc rounds) i result)
      ≡ flatten result ++ (drop (32 * i) bs ++ replicate (pad_len (length bs)) 0)
unfolding fixed_bytes_loop
loop-padded bs zero i result h = flatten-push result _ ∙ rw (last_chunk bs i (omega arith))
loop-padded bs (suc rounds) i result h =
    let left : Bytes = drop (32 * i) bs in
    let rest : drop (32 * (i + 1)) bs ≡ drop 32 left =
      rw (drop-drop 32 (32 * i) bs) (ap (λ n. drop n bs) (omega arith)) in
    loop-padded bs rounds (i + 1) _ (omega arith)
    ∙ rw (flatten-push, full_chunk bs ((length bs + 31) / 32) i (omega arith), rest)
        (append_assoc (flatten result) (take 32 left) _
          ∙ ap (λ t. flatten result ++ t)
              (sym (append_assoc (take 32 left) (drop 32 left) _) ∙ rw (take-append-drop 32 left)))

no_rounds : (bs : Bytes) → (length bs + 31) / 32 ≡ 0 → padded bs ≡ []
no_rounds [] h = refl
no_rounds (b ∷ bs) h = absurd (omega arith)

pub flatten-fixed_bytes_append :
    (acc : Words) (bs : Bytes) → flatten (fixed_bytes_append acc bs) ≡ flatten acc ++ padded bs
unfolding fixed_bytes_append
flatten-fixed_bytes_append acc bs = go _ refl
  where
    go :
        (n : ℕ)
        → (length bs + 31) / 32 ≡ n
        → flatten (fixed_bytes_loop bs ((length bs + 31) / 32) n 0 acc) ≡ flatten acc ++ padded bs
    go zero e = rw (no_rounds bs e) (sym (append-nil (flatten acc)))
    go (suc n) e = loop-padded bs n 0 acc (omega arith)
