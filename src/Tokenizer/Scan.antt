-- ===== src/Tokenizer/Scan.antt =====
-- Arrays from text (`tokenize_array` in ethabi/src/token/mod.rs) whose items are plain words.
use native.Mathlib.Nat.{add-zero}
use ethabi.Base.{
  ℕ, suc, ◌+◌, ◌≤◌, ◌<◌, ◌≡◌, refl, ap, sym, ◌∙◌, Bool, true, false, not, ◌&&◌, ◌||◌, ◌==◌, ltb,
  leb, if◌then◌else◌, List, [], ◌∷◌, ◌++◌, append_assoc, length, All, All-append, Bytes, Result, ok,
  err, panic, invalid_data, ◌>>=◌, text, join, ℤ, pos, arith, length-append_bytes,
}
use ethabi.Token
use ethabi.Token.{Token, Tokens, push, nil, cons}
use ethabi.Token.Dynamic.{append-push}
use ethabi.Token.Dynamic
use ethabi.Tokenizer.{
  count_chars, str_slice, ends_with, ArrayScan, array_scan, end_item, array_step, array_loop,
  tokenize_array,
}
use ethabi.Tokenizer.Slices.{IsAscii, str_slice-append, count_chars-ascii, ends_with-append}

-- A byte of ASCII that is no bracket, quote or comma.
abbrev pub plain : ℕ → Bool
plain b =
    ltb b 128
    && not (
        (b == b'(')
        || ((b == b')') || ((b == b'[') || ((b == b']') || ((b == b'"') || (b == b','))))))

abbrev pub IsPlain : Bytes → Type 0
IsPlain bs = All (λ b. plain b ≡ true) bs

-- The items' tokens, up to the first that fails.
abbrev pub tokens_of : (Bytes → Result Token) → List Bytes → Result Tokens
tokens_of item [] = ok nil
tokens_of item (sub ∷ subs) = item sub >>= λ t. tokens_of item subs >>= λ ts. ok (cons t ts)

module _ (item : Bytes → Result Token) (value : Bytes) where
  -- In an array of plain words, outside quotes and tuples.
  abbrev scanning : Tokens → ℕ → ArrayScan
  scanning acc last_item = record array_scan { result = acc; nested = pos 1; last_item = last_item }

  array_step-plain :
      (acc : Tokens) (last_item i b : ℕ)
      → plain b ≡ true
      → array_step item value (scanning acc last_item) i b ≡ ok (scanning acc last_item)
  unfolding array_step
  array_step-plain acc last_item i b h =
      let e₁ : (b == b'(') ≡ false = ground arith in
      let e₂ : (b == b')') ≡ false = ground arith in
      let e₃ : (b == b'[') ≡ false = ground arith in
      let e₄ : (b == b']') ≡ false = ground arith in
      let e₅ : (b == b'"') ≡ false = ground arith in
      let e₆ : (b == b',') ≡ false = ground arith in rw (e₁, e₂, e₃, e₄, e₅, e₆)

  array_loop-plain :
      (acc : Tokens) (last_item i : ℕ) (sub rest : Bytes)
      → IsPlain sub
      → array_loop item value (scanning acc last_item) i (sub ++ rest)
        ≡ array_loop item value (scanning acc last_item) (i + length sub) rest
  unfolding array_loop
  array_loop-plain acc last_item i [] rest h = rw (add-zero)
  array_loop-plain acc last_item i (b ∷ sub) rest h =
      let whole : (ltb b 128 || leb 192 b) ≡ true = ground arith in
      let next : i + 1 + length sub ≡ i + suc (length sub) = omega arith in
      rw (whole, array_step-plain acc last_item i b h.0, ← next)
        (array_loop-plain acc last_item (i + 1) sub rest h.1)

  abbrev finish : Result ArrayScan → Result Tokens
  finish scanned = scanned >>= λ s. if s.ignore then err invalid_data else ok s.result

  -- The item that ends at position `i`, with what the loop does after it.
  end_item-slice :
      (acc : Tokens) (front sub back : Bytes) (nested : ℤ)
      → value ≡ front ++ (sub ++ back)
      → IsAscii value
      → end_item item value (scanning acc (length front)) (length front + length sub) nested ≡ (
          item sub >>= λ t. ok (record (scanning acc (length front)) {
            result = push acc t;
            nested = nested;
            last_item = length front + length sub + 1;
          }))
  unfolding end_item
  end_item-slice acc front sub back nested whole ascii =
      let cut : str_slice value (length front) (length front + length sub) ≡ ok sub =
        rw whole (str_slice-append front sub back (rw whole at ascii)) in
      rw cut

  -- One item, and then what `later` gives for the rest.
  after_item :
      (acc : Tokens) (last_item : ℕ) (nested : ℤ) (r : Result Token)
      (loop : ArrayScan → Result ArrayScan) (later : Result Tokens)
      → ((t : Token)
          → finish (
              loop (record (scanning acc last_item) {
                result = push acc t;
                nested = nested;
                last_item = last_item;
              }))
            ≡ (later >>= λ ts. ok (Token.append (push acc t) ts)))
      → finish (
          (r >>= λ t. ok (record (scanning acc last_item) {
            result = push acc t;
            nested = nested;
            last_item = last_item;
          }))
          >>= loop)
        ≡ ((r >>= λ t. later >>= λ ts. ok (cons t ts)) >>= λ ts. ok (Token.append acc ts))
  after_item acc last_item nested panic loop later h = refl
  after_item acc last_item nested (err e) loop later h = refl
  after_item acc last_item nested (ok t) loop later h = h t ∙ moved later
    where
      moved :
          (later : Result Tokens)
          → (later >>= λ ts. ok (Token.append (push acc t) ts))
            ≡ ((later >>= λ ts. ok (cons t ts)) >>= λ ts. ok (Token.append acc ts))
      moved panic = refl
      moved (err e) = refl
      moved (ok ts) = ap ok (append-push acc t ts)

  array_loop-items :
      (acc : Tokens) (front sub : Bytes) (subs : List Bytes)
      → value ≡ front ++ (join (text ",") (sub ∷ subs) ++ (b']' ∷ []))
      → IsAscii value
      → All IsPlain (sub ∷ subs)
      → finish (
          array_loop item value
            (scanning acc (length front))
            (length front)
            (join (text ",") (sub ∷ subs) ++ (b']' ∷ [])))
        ≡ (tokens_of item (sub ∷ subs) >>= λ ts. ok (Token.append acc ts))
  unfolding join array_loop array_step
  array_loop-items acc front sub [] whole ascii h =
      rw
        (
          array_loop-plain acc (length front) (length front) sub (b']' ∷ []) h.0,
          end_item-slice acc front sub (b']' ∷ []) (pos 0) whole ascii,
        )
        (after_item acc (length front + length sub + 1) (pos 0) (item sub) (λ s. ok s) (ok nil)
          λ t. ap ok (sym (Dynamic.append-nil (push acc t))))
  array_loop-items acc front sub (u ∷ us) whole ascii h =
      let rest = join (text ",") (u ∷ us) ++ (b']' ∷ []) in
      let split : join (text ",") (sub ∷ u ∷ us) ++ (b']' ∷ []) ≡ sub ++ (b',' ∷ rest) =
        append_assoc sub (b',' ∷ join (text ",") (u ∷ us)) (b']' ∷ []) in
      let front' = front ++ (sub ++ (b',' ∷ [])) in
      let whole' : value ≡ front' ++ rest =
        whole
        ∙ ap (λ t. front ++ t) (split ∙ sym (append_assoc sub (b',' ∷ []) rest))
        ∙ sym (append_assoc front (sub ++ (b',' ∷ [])) rest) in
      let size : length front' ≡ length front + length sub + 1 = omega (
        arith,
        length-append_bytes front (sub ++ (b',' ∷ [])),
        length-append_bytes sub (b',' ∷ []),
      ) in
      rw
        (
          split,
          array_loop-plain acc (length front) (length front) sub (b',' ∷ rest) h.0,
          end_item-slice acc front sub (b',' ∷ rest) (pos 1) (whole ∙ ap (λ t. front ++ t) split)
              ascii,
        )
        (after_item acc (length front + length sub + 1) (pos 1) (item sub)
          (λ s. array_loop item value s (length front + length sub + 1) rest)
          (tokens_of item (u ∷ us))
          λ t. rw (← size) (array_loop-items (push acc t) front' u us whole' ascii h.1))

IsPlain-IsAscii : (bs : Bytes) → IsPlain bs → IsAscii bs
IsPlain-IsAscii [] h = tt
IsPlain-IsAscii (b ∷ bs) h = (ground arith, IsPlain-IsAscii bs h.1)

join-IsAscii : (subs : List Bytes) → All IsPlain subs → IsAscii (join (text ",") subs)
unfolding join
join-IsAscii [] h = tt
join-IsAscii (sub ∷ []) h = IsPlain-IsAscii sub h.0
join-IsAscii (sub ∷ u ∷ us) h =
    All-append (λ b. b < 128) sub (b',' ∷ join (text ",") (u ∷ us)) (IsPlain-IsAscii sub h.0)
      (omega arith, join-IsAscii (u ∷ us) h.1)

length-join : (sub : Bytes) (subs : List Bytes) → length sub ≤ length (join (text ",") (sub ∷ subs))
unfolding join
length-join sub [] = omega arith
length-join sub (u ∷ us) = omega (arith, length-append_bytes sub (b',' ∷ join (text ",") (u ∷ us)))

-- A bracketed list of words, separated by commas, of which the first is not empty and none has a
-- bracket, a quote, a comma or a byte outside ASCII, is read by `tokenize_array` word by word: the
-- result is the words' tokens in their order, or the error of the first word that has one.
pub tokenize_array-join :
    (item : Bytes → Result Token) (sub : Bytes) (subs : List Bytes)
    → All IsPlain (sub ∷ subs)
    → 1 ≤ length sub
    → tokenize_array item (b'[' ∷ (join (text ",") (sub ∷ subs) ++ (b']' ∷ [])))
      ≡ tokens_of item (sub ∷ subs)
unfolding tokenize_array
tokenize_array-join item sub subs h some =
    let body = join (text ",") (sub ∷ subs) in
    let value = b'[' ∷ (body ++ (b']' ∷ [])) in
    let ascii : IsAscii value = (
      omega arith,
      All-append (λ b. b < 128) body (b']' ∷ []) (join-IsAscii (sub ∷ subs) h) (omega arith, tt),
    ) in
    let long : (count_chars value == 2) ≡ false =
      let number = count_chars-ascii value ascii in
      let size = length-append_bytes body (b']' ∷ []) in
      let least = length-join sub subs in rw number (ground arith) in
    let closed : ends_with value b']' ≡ true = ends_with-append (b'[' ∷ body) b']' in
    rw (closed, long)
      (array_loop-items item value nil (b'[' ∷ []) sub subs refl ascii h
        ∙ same (tokens_of item (sub ∷ subs)))
  where
    same : (r : Result Tokens) → (r >>= λ ts. ok ts) ≡ r
    same panic = refl
    same (err e) = refl
    same (ok ts) = refl
