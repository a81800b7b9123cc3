-- ===== src/Api/Events/Cursor.antt =====
-- videos.py, `_encode_event_cursor` and `_decode_event_cursor`: that a cursor is read back.
use nextballup.Prelude.{
  ℕ, zero, suc, ◌+◌, ◌*◌, ◌<◌, ◌≡◌, refl, sym, ap, ◌∙◌, Bool, true, false, ◌&&◌, some, [], ◌∷◌,
  ◌++◌, arith, ◌==◌, All, length,
}
use nextballup.Core.Text.{Text, decimal, IsDigit, decimal-IsDigit, is_empty}
use nextballup.Api.Result.{ok}
use nextballup.Api.Events.Listing.{
  Position, CursorCodec, encode_event_cursor, split_colon, decode_event_cursor, position_at,
  strip_padding, equals_signs, missing_mod_four,
}

-- The form of padded base64: a text without `=`, and `=` up to a multiple of four.
pub record Padded (t : Text) : Type 0 where
  pub body : Text
  pub padding : ℕ
  pub groups : ℕ
  pub whole : t ≡ (body ++ equals_signs padding)
  pub plain : All (λ c. (c == b'=') ≡ false) body
  pub short : padding < 4
  pub even : length body + padding ≡ groups * 4

-- What the codec's parts promise: base64, the hex form of a UUID and the decimal form of a number are
-- read back, and base64 has its padded form and is not empty for a text that is not empty.
pub record CodecLaws (codec : CursorCodec) : Type 0 where
  pub b64 : (t : Text) → codec.b64decode (codec.b64encode t) ≡ some t
  pub b64_form : (t : Text) → Padded (codec.b64encode t)
  pub b64_empty : (t : Text) → is_empty t ≡ false → is_empty (codec.b64encode t) ≡ false
  pub hexed : (id : ℕ) → codec.parse_hex (codec.hex id) ≡ some id
  pub printed : (n : ℕ) → codec.parse_int (decimal n) ≡ some n

and_false : (b : Bool) → (b && false) ≡ false
and_false true = refl
and_false false = refl

strip_padding-equals_signs : (n : ℕ) → strip_padding (equals_signs n) ≡ []
unfolding strip_padding equals_signs
strip_padding-equals_signs zero = refl
strip_padding-equals_signs (suc n) = rw (strip_padding-equals_signs n) refl

-- The padding goes, and the text before it stays.
strip_padding-append :
    (body : Text) (n : ℕ)
    → All (λ c. (c == b'=') ≡ false) body
    → strip_padding (body ++ equals_signs n) ≡ body
unfolding strip_padding
strip_padding-append [] n h = strip_padding-equals_signs n
strip_padding-append (c ∷ body) n h =
    rw (strip_padding-append body n h.1, h.0, and_false (is_empty body)) refl

missing_mod_four-padding : (n k g : ℕ) → k < 4 → n + k ≡ g * 4 → missing_mod_four n ≡ k
missing_mod_four-padding n k g h e = omega arith

-- What was stripped is put back.
pub strip_padding-restored :
    (t : Text)
    → Padded t
    → (strip_padding t ++ equals_signs (missing_mod_four (length (strip_padding t)))) ≡ t
strip_padding-restored t p =
    let stripped : strip_padding t ≡ p.body =
      ap strip_padding p.whole ∙ strip_padding-append p.body p.padding p.plain in
    let missing = missing_mod_four-padding (length p.body) p.padding p.groups p.short p.even in
    ap (λ s. s ++ equals_signs (missing_mod_four (length s))) stripped
    ∙ ap (λ k. p.body ++ equals_signs k) missing
    ∙ sym p.whole

split_colon-append : (s r : Text) → All IsDigit s → split_colon (s ++ (b':' ∷ r)) ≡ some (s, r)
unfolding split_colon
split_colon-append [] r h = refl
split_colon-append (c ∷ s) r h =
    let other : (c == b':') ≡ false = ground arith in rw (other, split_colon-append s r h.1) refl

-- A cursor is read back as the place that it was made of, its padding stripped and put back, for a base64
-- of the padded form that reads its own texts back.
pub decode-encode_event_cursor :
    (codec : CursorCodec) (laws : CodecLaws codec) (position : Position)
    → decode_event_cursor codec (encode_event_cursor codec position) ≡ some position
unfolding encode_event_cursor decode_event_cursor
decode-encode_event_cursor codec laws (time, id) =
    rw
      (
        decode_event_cursor,
        strip_padding-restored (codec.b64encode (decimal time ++ (b':' ∷ codec.hex id)))
            (laws.b64_form (decimal time ++ (b':' ∷ codec.hex id))),
        laws.b64 (decimal time ++ (b':' ∷ codec.hex id)),
        split_colon-append (decimal time) (codec.hex id) (decimal-IsDigit time),
        laws.printed time,
        laws.hexed id,
      )
      refl

append-is_empty : (s : Text) (c : ℕ) (r : Text) → is_empty (s ++ (c ∷ r)) ≡ false
append-is_empty [] c r = refl
append-is_empty (d ∷ s) c r = refl

equals_signs-short : (n g : ℕ) → n < 4 → n ≡ g * 4 → is_empty (equals_signs n) ≡ true
unfolding equals_signs
equals_signs-short zero g h e = refl
equals_signs-short (suc n) g h e = absurd (omega arith)

-- A text that is not empty is not only padding.
strip_padding-is_empty :
    (t : Text) → Padded t → is_empty t ≡ false → is_empty (strip_padding t) ≡ false
strip_padding-is_empty t p full =
    let stripped : strip_padding t ≡ p.body =
      ap strip_padding p.whole ∙ strip_padding-append p.body p.padding p.plain in
    rw stripped (body_full p.body p.padding p.groups p.short p.even (rw p.whole at full))
  where
    body_full :
        (body : Text) (n g : ℕ)
        → n < 4
        → length body + n ≡ g * 4
        → is_empty (body ++ equals_signs n) ≡ false
        → is_empty body ≡ false
    body_full [] n g h e full = absurd (cc (equals_signs-short n g h (omega arith), full))
    body_full (c ∷ body) n g h e full = refl

position_at-cons :
    (codec : CursorCodec) (t : Text) (p : Position)
    → is_empty t ≡ false
    → decode_event_cursor codec t ≡ some p
    → position_at codec (some t) ≡ ok (some p)
unfolding position_at
position_at-cons codec [] p n d = absurd (cc n)
position_at-cons codec (c ∷ s) p n d = rw d refl

pub position_at-encode :
    (codec : CursorCodec) (laws : CodecLaws codec) (p : Position)
    → position_at codec (some (encode_event_cursor codec p)) ≡ ok (some p)
unfolding encode_event_cursor
position_at-encode codec laws (time, id) =
    position_at-cons codec (encode_event_cursor codec (time, id)) (time, id)
      (strip_padding-is_empty (codec.b64encode (decimal time ++ (b':' ∷ codec.hex id)))
        (laws.b64_form (decimal time ++ (b':' ∷ codec.hex id)))
        (laws.b64_empty (decimal time ++ (b':' ∷ codec.hex id))
          (append-is_empty (decimal time) b':' (codec.hex id))))
      (decode-encode_event_cursor codec laws (time, id))
