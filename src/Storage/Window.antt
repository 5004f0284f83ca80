-- ===== src/Storage/Window.antt =====
-- The ring of EventHistory as the list of its events, oldest first.
use savantix_dali_edge_contr.Prelude.{
  keep_if, push_within, ℕ, zero, suc, ◌+◌, ◌%◌, ◌≤◌, ◌<◌, ◌≡◌, refl, Bool, true, false, List, [],
  ◌∷◌, ◌++◌, arith, ltb, ◌==◌, ap, ap₂, sym, ◌∙◌, if◌then◌else◌, length, get_or, set, drop,
  length-set, get_or-set_self, get_or-set_ne, length-replicate, inl, inr, Bool-cases, FloatOps,
}
use savantix_dali_edge_contr.Storage.{
  StoredEvent, EventHistory, history_capacity, default_stored, empty_history, checksum, sealed,
  append, recover_rounds, recover,
}

-- A full list drops its oldest event for the new one.
abbrev pub push : {A : Type 0} → List A → A → List A
push xs x = push_within history_capacity xs x

module _ {F : Type 0} (fl : FloatOps F) where
  abbrev pub window : List (StoredEvent F) → ℕ → ℕ → List (StoredEvent F)
  window rs h zero = []
  window rs h (suc n) = get_or rs h (default_stored fl) ∷ window rs ((h + 1) % history_capacity) n

  abbrev pub contents : EventHistory F → List (StoredEvent F)
  contents h = window h.records h.head h.size

  pub record IsValid (h : EventHistory F) : Type 0 where
    pub sized : length h.records ≡ history_capacity
    pub head_in : h.head < history_capacity
    pub fits : h.size ≤ history_capacity

  pub empty-IsValid : IsValid (empty_history fl)
  empty-IsValid = record {
    sized = length-replicate history_capacity (default_stored fl);
    head_in = omega arith;
    fits = omega arith;
  }

  pub length-window : (rs : List (StoredEvent F)) (h n : ℕ) → length (window rs h n) ≡ n
  length-window rs h zero = refl
  length-window rs h (suc n) = ap suc (length-window rs ((h + 1) % history_capacity) n)

  -- Writing behind a window that leaves a slot free.
  pub window-set :
      (rs : List (StoredEvent F)) (e : StoredEvent F) (n h i : ℕ)
      → length rs ≡ history_capacity
      → h < history_capacity
      → n < history_capacity
      → i ≡ (h + n) % history_capacity
      → window (set rs i e) h (suc n) ≡ window rs h n ++ e ∷ []
  window-set rs e zero h i s hh hn at =
      let at' : i ≡ h = omega arith in
      rw at' (ap (λ x. x ∷ []) (get_or-set_self rs h e (default_stored fl) (omega arith)))
  window-set rs e (suc n) h i s hh hn at =
      ap₂ ◌∷◌ (get_or-set_ne rs {i = i} {j = h} e (default_stored fl) (omega arith)) (
        window-set rs e n ((h + 1) % history_capacity) i s (omega arith) (omega arith)
          (omega arith))

  window-full :
      (rs : List (StoredEvent F)) (h n : ℕ)
      → n ≡ history_capacity
      → drop 1 (window rs h n) ≡ window rs ((h + 1) % history_capacity) 127
  window-full rs h n e = rw e refl

  grown :
      (h : EventHistory F) (e : StoredEvent F)
      → IsValid h
      → ltb h.size history_capacity ≡ true
      → window (set h.records ((h.head + h.size) % history_capacity) e) h.head (h.size + 1) ≡ (
          if ltb h.size history_capacity
          then contents h ++ e ∷ []
          else drop 1 (contents h) ++ e ∷ [])
  grown h e v room =
      let next : h.size + 1 ≡ suc h.size = omega arith in
      rw (next, room) (window-set h.records e h.size h.head _ v.sized v.head_in (ground arith) refl)

  turned :
      (h : EventHistory F) (e : StoredEvent F)
      → IsValid h
      → ltb h.size history_capacity ≡ false
      → window
          (set h.records ((h.head + h.size) % history_capacity) e)
          ((h.head + 1) % history_capacity)
          h.size
        ≡ (if ltb h.size history_capacity
            then contents h ++ e ∷ []
            else drop 1 (contents h) ++ e ∷ [])
  turned h e v full =
      let all : h.size ≡ history_capacity = ground (arith, v.fits) in
      let start = (h.head + 1) % history_capacity in
      ap (window (set h.records ((h.head + h.size) % history_capacity) e) start) all
      ∙ (window-set h.records e 127 start _ v.sized (omega arith) (omega arith)
            (omega (arith, all, v.head_in))
          ∙ (ap (λ xs. xs ++ e ∷ []) (sym (window-full h.records h.head h.size all))
              ∙ sym (rw full refl)))

  module _ (bytes_of : StoredEvent F → List ℕ) where
    -- `append` stores the event sealed with its checksum, behind the others; once there are 128 the oldest
    -- one gives way.
    pub append_refines :
        (h : EventHistory F) (e : StoredEvent F)
        → IsValid h
        → let (done, h') = append fl bytes_of h e in
          IsValid h' × (done ≡ true) × (contents h' ≡ push (contents h) (sealed fl bytes_of e))
    unfolding append
    append_refines h e v =
        let n : length (contents h) ≡ h.size = length-window h.records h.head h.size in
        let i = (h.head + h.size) % history_capacity in
        elim (Bool-cases (ltb h.size history_capacity)) [
          | inl room ↦
              rw (append, room, n)
                (
                  record {
                    sized = omega (arith, v.sized, length-set h.records i (sealed fl bytes_of e));
                    head_in = v.head_in;
                    fits = ground arith;
                  },
                  refl,
                  grown h (sealed fl bytes_of e) v room,
                )
          | inr full ↦
              rw (append, full, n)
                (
                  record {
                    sized = omega (arith, v.sized, length-set h.records i (sealed fl bytes_of e));
                    head_in = omega arith;
                    fits = v.fits;
                  },
                  refl,
                  turned h (sealed fl bytes_of e) v full,
                )
        ]

    abbrev pub is_intact : StoredEvent F → Bool
    is_intact e = e.crc == checksum fl bytes_of e

    recover_rounds_lem :
        (h : EventHistory F) (n i at : ℕ)
        → at ≡ (h.head + i) % history_capacity
        → recover_rounds fl bytes_of h n i ≡ keep_if is_intact (window h.records at n)
    recover_rounds_lem h zero i at e = refl
    recover_rounds_lem h (suc n) i at e =
        let later = recover_rounds_lem h n (i + 1) ((at + 1) % history_capacity) (omega arith) in
        rw (sym e) (
          ap
            (λ xs.
              if is_intact (get_or h.records at (default_stored fl))
              then get_or h.records at (default_stored fl) ∷ xs
              else xs)
            later)

    -- `recover` reads the events whose checksum still fits.
    pub recover_lem :
        (h : EventHistory F)
        → h.head < history_capacity
        → recover fl bytes_of h ≡ keep_if is_intact (contents h)
    recover_lem h head_in = recover_rounds_lem h h.size 0 h.head (omega arith)
