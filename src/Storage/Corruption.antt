-- ===== src/Storage/Corruption.antt =====
-- What EventHistory gives back after its newest record was corrupted.
use savantix_dali_edge_contr.Prelude.{
  keep_if, last_of, drop-append, length-append, append_nil, ℕ, zero, suc, ◌+◌, ◌-◌, ◌%◌, ◌^◌, ◌<◌,
  ◌≡◌, refl, sym, ap, ap₂, subst, ◌∙◌, Bool, true, false, List, [], ◌∷◌, ◌++◌, map, arith, length,
  get_or, set, drop, u16, bit_xor, ==_iff, ◌==◌, inl, inr, Bool-cases, FloatOps, All, bit_xor-odd,
  bit_xor-lt,
}
use savantix_dali_edge_contr.Gateway.{crc_from}
use savantix_dali_edge_contr.Gateway.Bytes.{crc_from-lt}
use savantix_dali_edge_contr.Storage.{
  StoredEvent, EventHistory, history_capacity, default_stored, empty_history, checksum, recover,
  corrupt_newest_for_test,
}
use savantix_dali_edge_contr.Storage.Window.{
  window, contents, IsValid, empty-IsValid, window-set, length-window, is_intact, recover_lem,
}
use savantix_dali_edge_contr.Storage.Recovery.{
  latest, seal, append_all, append_all-contents, keep_if-All, All-drop, All-seal, IgnoresCrc,
  recover-latest,
}

module _ {A : Type 0} where
  keep_if-append :
      (p : A → Bool) (xs ys : List A) → keep_if p (xs ++ ys) ≡ keep_if p xs ++ keep_if p ys
  keep_if-append p [] ys = refl
  keep_if-append p (x ∷ xs) ys = elim (Bool-cases (p x)) [
    | inl kept ↦ rw kept (ap (λ t. x ∷ t) (keep_if-append p xs ys))
    | inr gone ↦ rw gone (keep_if-append p xs ys)
  ]

  append-injective : (xs ys : List A) (a b : A) → xs ++ a ∷ [] ≡ ys ++ b ∷ [] → (xs ≡ ys) × (a ≡ b)
  append-injective [] [] a b e = (refl, ap (λ t. get_or t 0 a) e)
  append-injective [] (y ∷ ys) a b e =
      absurd (omega (arith, ap length e, length-append ys (b ∷ [])))
  append-injective (x ∷ xs) [] a b e =
      absurd (omega (arith, ap length e, length-append xs (a ∷ [])))
  append-injective (x ∷ xs) (y ∷ ys) a b e =
      let (front, back) = append-injective xs ys a b (ap (drop 1) e) in
      let head : x ≡ y = ap (λ t. get_or t 0 x) e in (rw (head, front) refl, back)

  All-snoc : (P : A → Type 0) (xs : List A) (x : A) → All P (xs ++ x ∷ []) → All P xs × P x
  All-snoc P [] x h = (tt, h.0)
  All-snoc P (y ∷ xs) x h = let (front, last) = All-snoc P xs x h.1 in ((h.0, front), last)

  map-append : {B : Type 0} (f : A → B) (xs ys : List A) → map f (xs ++ ys) ≡ map f xs ++ map f ys
  map-append f [] ys = refl
  map-append f (x ∷ xs) ys = ap (λ t. f x ∷ t) (map-append f xs ys)

  last_of-append :
      (k : ℕ) (xs : List A) (x : A) → last_of (suc k) (xs ++ x ∷ []) ≡ last_of k xs ++ x ∷ []
  last_of-append k xs x =
      let same : length (xs ++ x ∷ []) - suc k ≡ length xs - k =
        omega (arith, length-append xs (x ∷ [])) in
      rw same (drop-append (length xs - k) xs (x ∷ []) (omega arith))

module _ {F : Type 0} (fl : FloatOps F) where
  window-snoc :
      (rs : List (StoredEvent F)) (h n : ℕ)
      → h < history_capacity
      → window fl rs h (suc n)
        ≡ window fl rs h n ++ get_or rs ((h + n) % history_capacity) (default_stored fl) ∷ []
  window-snoc rs h zero inside =
      let same : (h + 0) % history_capacity ≡ h = omega arith in rw same refl
  window-snoc rs h (suc n) inside =
      let next = (h + 1) % history_capacity in
      let same : (h + suc n) % history_capacity ≡ (next + n) % history_capacity = omega arith in
      rw same (ap (λ t. get_or rs h (default_stored fl) ∷ t) (window-snoc rs next n (omega arith)))

  module _ (bytes_of : StoredEvent F → List ℕ) where
    abbrev pub spoiled : StoredEvent F → StoredEvent F
    spoiled e = record e { crc = u16 (bit_xor e.crc 0xffff) }

    spoiled-is_intact :
        (e : StoredEvent F)
        → IgnoresCrc fl bytes_of
        → is_intact fl bytes_of e ≡ true
        → is_intact fl bytes_of (spoiled e) ≡ false
    spoiled-is_intact e layout whole =
        let fits : checksum fl bytes_of e ≡ e.crc = sym ((==_iff _ _).0 whole) in
        let same : checksum fl bytes_of (spoiled e) ≡ checksum fl bytes_of e =
          ap (crc_from 0xffff) (layout e _) in
        let small : e.crc < 2 ^ 16 =
          omega (arith, crc_from-lt (bytes_of e) 0xffff (omega arith), fits) in
        elim (Bool-cases (is_intact fl bytes_of (spoiled e))) [
          | inl still ↦
              let unchanged : bit_xor e.crc 0xffff ≡ e.crc = omega (
                arith,
                (==_iff _ _).0 still,
                same,
                fits,
                bit_xor-lt 16 e.crc 0xffff small (omega arith),
              ) in
              absurd (bit_xor-odd e.crc 0xffff refl unchanged)
          | inr broken ↦ broken
        ]

    corrupt_lem :
        (h : EventHistory F) (n : ℕ)
        → h.size ≡ suc n
        → corrupt_newest_for_test fl h ≡ (
            let at = (h.head + n) % history_capacity in
            record h {
              records = set h.records at (spoiled (get_or h.records at (default_stored fl)));
            })
    unfolding corrupt_newest_for_test
    corrupt_lem h n more =
        let some_held : (h.size == 0) ≡ false = ground (arith, more) in
        let there : (h.head + h.size - 1) % history_capacity ≡ (h.head + n) % history_capacity =
          omega (arith, more) in
        rw (some_held, there) refl

    -- What is read after the newest of the records was spoiled.
    corrupt-recover :
        (h : EventHistory F) (xs : List (StoredEvent F)) (x : StoredEvent F)
        → IgnoresCrc fl bytes_of
        → IsValid fl h
        → contents fl h ≡ xs ++ x ∷ []
        → All (λ e. is_intact fl bytes_of e ≡ true) (xs ++ x ∷ [])
        → recover fl bytes_of (corrupt_newest_for_test fl h) ≡ xs
    corrupt-recover h xs x layout v held whole =
        let n = h.size - 1 in
        let at = (h.head + n) % history_capacity in
        let newest = get_or h.records at (default_stored fl) in
        let more : h.size ≡ suc n = omega (
          arith,
          ap (λ t. length t) held,
          length-append xs (x ∷ []),
          length-window fl h.records h.head h.size,
        ) in
        let (front, last) = append-injective (window fl h.records h.head n) xs newest x (
          sym (window-snoc h.records h.head n v.head_in)
          ∙ (ap (window fl h.records h.head) (sym more) ∙ held)) in
        let (front_whole, last_whole) = All-snoc _ xs x whole in
        let h' : EventHistory F = record h { records = set h.records at (spoiled newest) } in
        let after : contents fl h' ≡ xs ++ spoiled x ∷ [] =
          ap (window fl h'.records h.head) more
          ∙ (window-set fl h.records (spoiled newest) n h.head at v.sized v.head_in
                (omega (arith, more, v.fits)) refl
              ∙ ap₂ (λ ys y. ys ++ spoiled y ∷ []) front last) in
        ap (recover fl bytes_of) (corrupt_lem h n more)
        ∙ (recover_lem fl bytes_of h' v.head_in
            ∙ (ap (keep_if (is_intact fl bytes_of)) after
                ∙ (keep_if-append (is_intact fl bytes_of) xs (spoiled x ∷ [])
                    ∙ rw (spoiled-is_intact x layout last_whole) (
                        append_nil _
                        ∙ keep_if-All fl bytes_of (is_intact fl bytes_of) xs front_whole))))

    -- If the object layout puts the checksum behind the bytes it is of: of one or more events appended to an
    -- empty history, `recover` gives back the last 128, in their order, sealed with their checksums and
    -- otherwise as they were. Once the checksum of the newest was corrupted, it gives back the up to 127
    -- before it, and not that one.
    pub recover-append_all :
        (es : List (StoredEvent F)) (e : StoredEvent F)
        → IgnoresCrc fl bytes_of
        → let history = append_all fl bytes_of (es ++ e ∷ []) (empty_history fl) in
          (recover fl bytes_of history ≡ latest (map (seal fl bytes_of) (es ++ e ∷ [])))
          × (recover fl bytes_of (corrupt_newest_for_test fl history)
              ≡ last_of 127 (map (seal fl bytes_of) es))
    recover-append_all es e layout =
        let s = seal fl bytes_of in
        let (all, v) =
          append_all-contents fl bytes_of (es ++ e ∷ []) [] (empty_history fl) (empty-IsValid fl)
            refl in
        let split : latest (map s (es ++ e ∷ [])) ≡ last_of 127 (map s es) ++ s e ∷ [] =
          ap latest (map-append s es (e ∷ [])) ∙ last_of-append 127 (map s es) (s e) in
        let whole = subst (All (λ x. is_intact fl bytes_of x ≡ true)) split (
          All-drop fl bytes_of (is_intact fl bytes_of) _ (map s (es ++ e ∷ []))
            (All-seal fl bytes_of layout (es ++ e ∷ []))) in
        (
          recover-latest fl bytes_of (es ++ e ∷ []) layout,
          corrupt-recover (append_all fl bytes_of (es ++ e ∷ []) (empty_history fl))
              (last_of 127 (map s es)) (s e) layout v (all ∙ split) whole,
        )
