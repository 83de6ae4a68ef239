-- ===== src/Decoder/Safety.antt =====
-- On any input the decoder returns tokens that fit the types, or an error; it does not panic.
use ethabi.Base.{
  ℕ, suc, ◌+◌, ◌^◌, ◌<◌, ◌≤◌, ◌≡◌, refl, sym, ◌∙◌, ap, Bool, true, false, not, ◌&&◌, ◌||◌, ◌==◌,
  leb, length, Bytes, AreBytes, ok, invalid_data, arith, Ensures, holds, Ensures-bind,
  Ensures-weaken,
}
use ethabi.Externs.{Externs}
use ethabi.Word.Safety.{Ensures-guard, peek_32_bytes-Ensures, take_bytes-Ensures, as_bool-Ensures}
use ethabi.ParamType
use ethabi.ParamType.{
  ParamType, ParamTypes, address, bytes, int, uint, bool, string, array, fixed_bytes, fixed_array,
  tuple, nil, cons,
}
use ethabi.Token.{Tokens, push, type_check, types_check}
use ethabi.Token.Dynamic.{append-nil, append-push}
use ethabi.Decoder.{decode_param, decode_each, decode_impl, decode, decode_validate, empty_input}
use ethabi.Decoder.Fits.{
  AreSmall, FieldsFit, Fits, IsSmall, after-le, check_address-Ensures, decode_dynamic_bytes-Ensures,
  decode_times-Ensures, enter_array-Ensures, enter_frame-Ensures, fixed_array-Fits,
  types_check-fields,
}

module _ (x : Externs) (validate : Bool) where
  mutual
    unfolding decode_param type_check

    decode_param-Ensures :
        (p : ParamType) (frame : Bytes) (pos : ℕ)
        → AreBytes frame
        → length frame < 2 ^ 62
        → IsSmall p
        → pos ≤ length frame + 32
        → Ensures (Fits p (length frame + 32)) (decode_param x p frame pos validate)
    decode_param-Ensures address frame pos b small s h =
        Ensures-bind (peek_32_bytes-Ensures frame pos b (omega arith)) λ word k.
          Ensures-bind (check_address-Ensures validate word) λ _ _. holds (omega arith, refl)
    decode_param-Ensures (int n) frame pos b small s h =
        Ensures-bind (peek_32_bytes-Ensures frame pos b (omega arith))
          λ word k. holds (omega arith, refl)
    decode_param-Ensures (uint n) frame pos b small s h =
        Ensures-bind (peek_32_bytes-Ensures frame pos b (omega arith))
          λ word k. holds (omega arith, refl)
    decode_param-Ensures bool frame pos b small s h =
        Ensures-bind (peek_32_bytes-Ensures frame pos b (omega arith))
          λ word k. Ensures-bind (as_bool-Ensures word) λ _ _. holds (omega arith, refl)
    decode_param-Ensures (fixed_bytes n) frame pos b small s h =
        Ensures-bind (take_bytes-Ensures frame pos n validate b (omega arith) s)
          λ bs k. let fits : leb (length bs) n ≡ true = ground arith in holds (omega arith, rw fits)
    decode_param-Ensures bytes frame pos b small s h =
        Ensures-bind (decode_dynamic_bytes-Ensures frame b small pos validate (omega arith))
          λ bs k. holds (omega arith, refl)
    decode_param-Ensures string frame pos b small s h =
        Ensures-bind (decode_dynamic_bytes-Ensures frame b small pos validate (omega arith))
          λ bs k. holds (omega arith, refl)
    decode_param-Ensures (array p) frame pos b small s h =
        Ensures-bind (enter_array-Ensures frame b small pos h) λ f k.
          Ensures-bind (Ensures-guard (x.can_reserve f.0) invalid_data) λ _ _.
            Ensures-bind
              (decode_times-Ensures p (length f.1 + 32) (λ o. decode_param x p f.1 o validate)
                (λ o l. decode_param-Ensures p f.1 o k.0 (omega arith) s l) f.0 0 Tokens.nil
                (omega arith))
              λ r l. holds (omega arith, rw l.1.1 l.1.3)
    decode_param-Ensures (fixed_array p n) frame pos b small s h =
        Ensures-bind (enter_frame-Ensures frame b small (ParamType.is_dynamic p) pos h) λ f k.
          Ensures-bind (Ensures-guard (x.can_reserve n) invalid_data) λ _ _.
            Ensures-bind
              (decode_times-Ensures p (length f.0 + 32) (λ o. decode_param x p f.0 o validate)
                (λ o l. decode_param-Ensures p f.0 o k.0 (omega arith) s l) n f.1 Tokens.nil k.2)
              λ r l. holds (
                after-le (ParamType.is_dynamic p) pos r.1 (length frame) small k.3 (omega arith),
                fixed_array-Fits p n _ r l,
              )
    decode_param-Ensures (tuple ps) frame pos b small s h =
        Ensures-bind (enter_frame-Ensures frame b small (ParamType.any_dynamic ps) pos h) λ f k.
          Ensures-bind (decode_each-Ensures ps f.0 f.1 Tokens.nil k.0 (omega arith) s k.2) λ r l.
            holds (
              after-le (ParamType.any_dynamic ps) pos r.1 (length frame) small k.3 (omega arith),
              rw l.1.1 l.1.3,
            )

    decode_each-Ensures :
        (ps : ParamTypes) (frame : Bytes) (pos : ℕ) (acc : Tokens)
        → AreBytes frame
        → length frame < 2 ^ 62
        → AreSmall ps
        → pos ≤ length frame + 32
        → Ensures (FieldsFit ps (length frame + 32) acc) (decode_each x ps frame pos validate acc)
    decode_each-Ensures nil frame pos acc b small s h =
        holds (h, (Tokens.nil, sym (append-nil acc), refl, refl))
    decode_each-Ensures (cons p ps) frame pos acc b small s h =
        Ensures-bind (decode_param-Ensures p frame pos b small s.0 h) λ r k.
          Ensures-weaken
            (decode_each-Ensures ps frame r.new_offset (push acc r.token) b small s.1 k.0)
            λ q l. (
              l.0,
              (
                Tokens.cons r.token l.1.0,
                l.1.1 ∙ append-push acc r.token l.1.0,
                ap suc l.1.2,
                rw (k.1, l.1.3),
              ),
            )

  pub decode_impl-Ensures :
      (ps : ParamTypes) (bs : Bytes)
      → AreBytes bs
      → length bs < 2 ^ 62
      → AreSmall ps
      → Ensures (λ r. types_check r.0 ps ≡ ok true) (decode_impl x ps bs validate)
  unfolding decode_impl
  decode_impl-Ensures ps bs b small s =
      Ensures-bind
        (Ensures-guard (ParamType.all_empty_valid ps || not (length bs == 0)) empty_input)
        λ _ _. Ensures-bind (Ensures-guard (x.can_reserve (ParamType.count ps)) invalid_data) λ _ _.
          Ensures-bind (decode_each-Ensures ps bs 0 Tokens.nil b small s (omega arith)) λ r k.
            Ensures-bind (Ensures-guard (not (validate && not (r.1 == length bs))) invalid_data)
              λ _ _. holds (rw k.1.1 (types_check-fields k.1.0 ps k.1.2 k.1.3))

-- On bytes fewer than 2 ^ 62, and types whose `bytesN` sizes are below 2 ^ 62, neither `decode` nor
-- `decode_validate` panics, and whatever tokens they return pass `types_check` for the types.
pub decode-Ensures :
    (x : Externs) (ps : ParamTypes) (bs : Bytes)
    → AreBytes bs
    → length bs < 2 ^ 62
    → AreSmall ps
    → Ensures (λ ts. types_check ts ps ≡ ok true) (decode x ps bs)
      × Ensures (λ ts. types_check ts ps ≡ ok true) (decode_validate x ps bs)
unfolding decode decode_validate
decode-Ensures x ps bs b small s = (
  Ensures-bind (decode_impl-Ensures x false ps bs b small s) λ r k. holds k,
  Ensures-bind (decode_impl-Ensures x true ps bs b small s) λ r k. holds k,
)
