-- ===== src/Gateway/Detection.antt =====
-- FrameCodec::decode on bytes of which one was changed on the way.
use savantix_dali_edge_contr.Prelude.{
  ℕ, zero, suc, ◌+◌, ◌-◌, ◌^◌, ◌<◌, ◌≤◌, ◌≡◌, ◌≢◌, refl, sym, ap, subst, ◌∙◌, List, [], ◌∷◌, ◌++◌,
  none, some, arith, ltb, inl, inr, Option-cases, Bool-cases, length, length-set, length-append,
  get_or, get_or-set_self, set, drop, low_byte, All, All-set,
}
use savantix_dali_edge_contr.Gateway.{Frame, crc16, body, trailer, wire, byte_at, decode_bytes}
use savantix_dali_edge_contr.Gateway.Bytes.{crc16-lt, get_or-append_right}
use savantix_dali_edge_contr.Gateway.Acceptance.{IsByte}
use savantix_dali_edge_contr.Gateway.Canonical.{accepted-wire}
use savantix_dali_edge_contr.Gateway.Checksum.{crc16-set}

All-append_left : (xs ys : List ℕ) → All IsByte (xs ++ ys) → All IsByte xs
All-append_left [] ys h = tt
All-append_left (x ∷ xs) ys h = (h.0, All-append_left xs ys h.1)

set-append_left : (xs ys : List ℕ) (i v : ℕ) → i < length xs → set (xs ++ ys) i v ≡ set xs i v ++ ys
set-append_left [] ys i v h = absurd (omega arith)
set-append_left (x ∷ xs) ys zero v h = refl
set-append_left (x ∷ xs) ys (suc i) v h = ap (λ t. x ∷ t) (set-append_left xs ys i v (omega arith))

set-append_right :
    (xs ys : List ℕ) (n i v : ℕ) → n ≡ length xs + i → set (xs ++ ys) n v ≡ xs ++ set ys i v
set-append_right [] ys n i v e = let same : n ≡ i = omega arith in rw same refl
set-append_right (x ∷ xs) ys zero i v e = absurd (omega arith)
set-append_right (x ∷ xs) ys (suc n) i v e =
    ap (λ t. x ∷ t) (set-append_right xs ys n i v (omega arith))

get_or-append_left :
    (xs ys : List ℕ) (i d : ℕ) → i < length xs → get_or (xs ++ ys) i d ≡ get_or xs i d
get_or-append_left [] ys i d h = absurd (omega arith)
get_or-append_left (x ∷ xs) ys zero d h = refl
get_or-append_left (x ∷ xs) ys (suc i) d h = get_or-append_left xs ys i d (omega arith)

split_append :
    (xs ys s t : List ℕ) → length xs ≡ length ys → xs ++ s ≡ ys ++ t → (xs ≡ ys) × (s ≡ t)
split_append [] [] s t h e = (refl, e)
split_append [] (y ∷ ys) s t h e = absurd (omega arith)
split_append (x ∷ xs) [] s t h e = absurd (omega arith)
split_append (x ∷ xs) (y ∷ ys) s t h e =
    let rest : xs ++ s ≡ ys ++ t = cc in
    let head : x ≡ y = cc in
    let (front, back) = split_append xs ys s t (omega arith) rest in (cc, back)

-- Where a write changed nothing, its value stood there.
set-same : (xs : List ℕ) (i v : ℕ) → i < length xs → set xs i v ≡ xs → v ≡ get_or xs i 0
set-same xs i v h e = sym (get_or-set_self xs i v 0 h) ∙ ap (λ t. get_or t i 0) e

trailer-injective : (c d : ℕ) → c < 2 ^ 16 → d < 2 ^ 16 → trailer c ≡ trailer d → c ≡ d
trailer-injective c d p q e =
    omega (arith, low_byte c, low_byte d, ap (λ t. get_or t 0 0) e, ap (λ t. get_or t 1 0) e)

-- A body with its trailer, of which one byte was changed, is no body with its trailer.
changed_tail :
    (xs ys : List ℕ) (i v : ℕ)
    → All IsByte xs
    → IsByte v
    → length xs ≡ length ys
    → i < length xs + 3
    → v ≢ get_or (xs ++ trailer (crc16 xs)) i 0
    → set (xs ++ trailer (crc16 xs)) i v ≢ ys ++ trailer (crc16 ys)
changed_tail xs ys i v h b sized inside other e = elim (Bool-cases (ltb i (length xs))) [
  | inl front ↦
      let low : i < length xs = ground arith in
      let (same, sums) =
        split_append (set xs i v) ys _ _ (length-set xs i v ∙ sized)
          (sym (set-append_left xs (trailer (crc16 xs)) i v low) ∙ e) in
      let sum = trailer-injective _ _ (crc16-lt xs) (crc16-lt ys) sums in
      crc16-set xs i v h b low
        (λ w. other (w ∙ sym (get_or-append_left xs (trailer (crc16 xs)) i 0 low)))
        (sum ∙ ap crc16 (sym same))
  | inr back ↦
      let high : length xs ≤ i = ground arith in
      let at : i ≡ length xs + (i - length xs) = omega arith in
      let (same, sums) =
        split_append xs ys _ _ sized
          (sym (set-append_right xs (trailer (crc16 xs)) i (i - length xs) v at) ∙ e) in
      other (
        set-same (trailer (crc16 xs)) (i - length xs) v (omega arith)
          (sums ∙ ap (λ t. trailer (crc16 t)) (sym same))
        ∙ sym (get_or-append_right xs (trailer (crc16 xs)) i (i - length xs) 0 at))
]

changed_wire :
    (f g : Frame) (i v : ℕ)
    → All IsByte (body f)
    → IsByte v
    → i < length (wire f)
    → v ≢ byte_at (wire f) i
    → set (wire f) i v ≢ wire g
changed_wire f g zero v h b inside other e = other (ap (λ t. get_or t 0 0) e)
changed_wire f g (suc i) v h b inside other e =
    let long = length-append (body f) (trailer (crc16 (body f))) in
    let long' = length-append (body g) (trailer (crc16 (body g))) in
    let rest = ap (drop 1) e in
    let sizes = length-set (body f ++ trailer (crc16 (body f))) i v in
    changed_tail (body f) (body g) i v h b (omega (arith, long, long', sizes, ap length rest))
      (omega (arith, long)) other rest

module _ (bytes : List ℕ) (old : Frame) where
  -- Bytes that decode accepts are refused once any one of them is changed to another byte.
  pub one_changed_byte :
      (frame : Frame) (i v : ℕ)
      → All IsByte bytes
      → decode_bytes bytes old ≡ some frame
      → i < length bytes
      → IsByte v
      → v ≢ byte_at bytes i
      → decode_bytes (set bytes i v) old ≡ none
  one_changed_byte frame i v h e inside b other =
      elim (Option-cases (decode_bytes (set bytes i v) old)) [
        | inl refused ↦ refused
        | inr (g, taken) ↦
            let was = accepted-wire bytes old frame h e in
            let is = accepted-wire (set bytes i v) old g (All-set IsByte bytes i v h b) taken in
            let whole : All IsByte (wire frame) = subst (All IsByte) (sym was) h in
            absurd (
              changed_wire frame g i v
                (All-append_left (body frame) (trailer (crc16 (body frame))) whole.1) b
                (subst (λ t. i < length t) (sym was) inside)
                (subst (λ t. v ≢ byte_at t i) (sym was) other) (ap (λ t. set t i v) was ∙ sym is))
      ]
