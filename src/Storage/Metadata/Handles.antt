-- ===== src/Storage/Metadata/Handles.antt =====
-- The handles that NvsMetadataStore opens, uses and closes.
use savantix_dali_edge_contr.Prelude.{
  ℕ, ◌≡◌, refl, ap, ◌∙◌, Bool, true, false, not, ◌&&◌, ◌||◌, ◌==◌, ==_iff, inl, inr, Bool-cases,
}
use savantix_dali_edge_contr.Storage.Metadata.{is_ok, NvsApi, save_uint32, load_uint32}

-- What the documentation of NVS says of handles, where `is_open s h` tells whether `h` is open: an open that
-- succeeds gives a handle of its own, which stays open until it is closed; an open that fails gives none; a
-- close takes away the handle that it is given and no other; no other call opens or closes any.
pub record IsNvs {S K : Type 0} (api : NvsApi S K) (is_open : S → ℕ → Bool) : Type 0 where
  pub fresh :
      (s : S) (writable : Bool)
      → is_ok (api.open_namespace s writable).0 ≡ true
      → is_open s (api.open_namespace s writable).1 ≡ false
  pub opens :
      (s : S) (writable : Bool) (g : ℕ)
      → is_open (api.open_namespace s writable).2 g ≡ (
          is_open s g
          || (is_ok (api.open_namespace s writable).0 && g == (api.open_namespace s writable).1))
  pub set_apart :
      (s : S) (h : ℕ) (key : K) (v g : ℕ) → is_open (api.set_u32 s h key v).1 g ≡ is_open s g
  pub commit_apart : (s : S) (h g : ℕ) → is_open (api.commit s h).1 g ≡ is_open s g
  pub get_apart :
      (s : S) (h : ℕ) (key : K) (v g : ℕ) → is_open (api.get_u32 s h key v).2 g ≡ is_open s g
  pub closes : (s : S) (h g : ℕ) → is_open (api.close s h) g ≡ (is_open s g && not (g == h))

-- The library with a record of its use: whether every handle that it was called with was open then.
abbrev pub watched : {S K : Type 0} → NvsApi S K → (S → ℕ → Bool) → NvsApi (S × Bool) K
watched api is_open = record {
  flash_init = λ (s, fine). let (e, s') = api.flash_init s in (e, (s', fine));
  flash_erase = λ (s, fine). let (e, s') = api.flash_erase s in (e, (s', fine));
  open_namespace =
      λ (s, fine) writable. let (e, h, s') = api.open_namespace s writable in (e, h, (s', fine));
  set_u32 =
      λ (s, fine) h key v. let (e, s') = api.set_u32 s h key v in (e, (s', fine && is_open s h));
  commit = λ (s, fine) h. let (e, s') = api.commit s h in (e, (s', fine && is_open s h));
  get_u32 = λ (s, fine) h key v.
      let (e, v', s') = api.get_u32 s h key v in (e, v', (s', fine && is_open s h));
  close = λ (s, fine) h. (api.close s h, fine && is_open s h);
}

or_true : (b : Bool) → (b || true) ≡ true
or_true true = refl
or_true false = refl

or_false : (b : Bool) → (b || false) ≡ b
or_false true = refl
or_false false = refl

and_false : (b : Bool) → (b && false) ≡ false
and_false true = refl
and_false false = refl

-- Adding what was not there and taking it away again.
removed : (a b : Bool) → (a && b) ≡ false → ((a || b) && not b) ≡ a
removed true true e = cc e
removed true false e = refl
removed false true e = refl
removed false false e = refl

module _ {S K : Type 0} (api : NvsApi S K) (is_open : S → ℕ → Bool) (nvs : IsNvs api is_open) where
  -- After an open that succeeded its handle is open.
  own_open :
      (s : S) (writable : Bool)
      → is_ok (api.open_namespace s writable).0 ≡ true
      → is_open (api.open_namespace s writable).2 (api.open_namespace s writable).1 ≡ true
  own_open s writable opened =
      let h = (api.open_namespace s writable).1 in
      let same : (h == h) ≡ true = (==_iff h h).1 refl in
      nvs.opens s writable h ∙ rw (opened, same) (or_true (is_open s h))

  -- After an open that failed no other handle is.
  unopened :
      (s : S) (writable : Bool) (g : ℕ)
      → is_ok (api.open_namespace s writable).0 ≡ false
      → is_open (api.open_namespace s writable).2 g ≡ is_open s g
  unopened s writable g failed = nvs.opens s writable g ∙ rw failed (or_false (is_open s g))

  -- Closing the handle of an open that succeeded leaves those that were open before it.
  closed :
      (s s' : S) (writable : Bool) (g : ℕ)
      → is_ok (api.open_namespace s writable).0 ≡ true
      → is_open s' g ≡ is_open (api.open_namespace s writable).2 g
      → is_open (api.close s' (api.open_namespace s writable).1) g ≡ is_open s g
  closed s s' writable g opened same =
      let h = (api.open_namespace s writable).1 in
      let now : is_open s' g ≡ (is_open s g || g == h) =
        same ∙ (nvs.opens s writable g ∙ rw opened refl) in
      let new : (is_open s g && g == h) ≡ false = elim (Bool-cases (g == h)) [
        | inl own ↦
            let at : g ≡ h = (==_iff g h).0 own in
            rw (ap (is_open s) at ∙ nvs.fresh s writable opened) refl
        | inr other ↦ rw other (and_false (is_open s g))
      ] in
      nvs.closes s' h g ∙ (ap (λ b. b && not (g == h)) now ∙ removed (is_open s g) (g == h) new)

  save_watched :
      (s : S) (key : K) (value : ℕ)
      → let (answer, s') = save_uint32 api s key value in
        save_uint32 (watched api is_open) (s, true) key value ≡ (answer, (s', true))
  unfolding save_uint32
  save_watched s key value =
      let (_, h, s1) = api.open_namespace s true in
      let s2 = (api.set_u32 s1 h key value).1 in
      let s3 = (api.commit s2 h).1 in
      elim (Bool-cases (is_ok (api.open_namespace s true).0)) [
        | inr failed ↦ rw failed refl
        | inl opened ↦
            let open1 = own_open s true opened in
            let open2 = nvs.set_apart s1 h key value h ∙ open1 in
            let open3 = nvs.commit_apart s2 h h ∙ open2 in
            elim (Bool-cases (is_ok (api.set_u32 s1 h key value).0)) [
              | inl stored ↦ rw (opened, stored, open1, open2, open3) refl
              | inr refused ↦ rw (opened, refused, open1, open2) refl
            ]
      ]

  load_watched :
      (s : S) (key : K) (old : ℕ)
      → let (answer, value, s') = load_uint32 api s key old in
        load_uint32 (watched api is_open) (s, true) key old ≡ (answer, value, (s', true))
  unfolding load_uint32
  load_watched s key old =
      let (_, h, s1) = api.open_namespace s false in
      elim (Bool-cases (is_ok (api.open_namespace s false).0)) [
        | inr failed ↦ rw failed refl
        | inl opened ↦
            let open1 = own_open s false opened in
            let open2 = nvs.get_apart s1 h key old h ∙ open1 in rw (opened, open1, open2) refl
      ]

  save_leaves :
      (s : S) (key : K) (value g : ℕ) → is_open (save_uint32 api s key value).1 g ≡ is_open s g
  unfolding save_uint32
  save_leaves s key value g =
      let (_, h, s1) = api.open_namespace s true in
      let s2 = (api.set_u32 s1 h key value).1 in
      elim (Bool-cases (is_ok (api.open_namespace s true).0)) [
        | inr failed ↦ rw failed (unopened s true g failed)
        | inl opened ↦ elim (Bool-cases (is_ok (api.set_u32 s1 h key value).0)) [
          | inl stored ↦
              rw (opened, stored)
                (closed s (api.commit s2 h).1 true g opened
                  (nvs.commit_apart s2 h g ∙ nvs.set_apart s1 h key value g))
          | inr refused ↦
              rw (opened, refused) (closed s s2 true g opened (nvs.set_apart s1 h key value g))
        ]
      ]

  load_leaves :
      (s : S) (key : K) (old g : ℕ) → is_open (load_uint32 api s key old).2 g ≡ is_open s g
  unfolding load_uint32
  load_leaves s key old g =
      let (_, h, s1) = api.open_namespace s false in
      elim (Bool-cases (is_ok (api.open_namespace s false).0)) [
        | inr failed ↦ rw failed (unopened s false g failed)
        | inl opened ↦
            rw opened
              (closed s (api.get_u32 s1 h key old).2 false g opened (nvs.get_apart s1 h key old g))
      ]

  -- If the library keeps to `IsNvs`, then whichever of their steps fails, saveUint32 and loadUint32 call it
  -- only with handles that are open at that time, and afterwards just those handles are open that were open
  -- before.
  pub no_handle_left :
      (s : S) (key : K) (value g : ℕ)
      → let (saved, s') = save_uint32 api s key value in
        let (loaded, found, s'') = load_uint32 api s key value in
        (save_uint32 (watched api is_open) (s, true) key value ≡ (saved, (s', true)))
        × (is_open s' g ≡ is_open s g)
        × (load_uint32 (watched api is_open) (s, true) key value ≡ (loaded, found, (s'', true)))
        × (is_open s'' g ≡ is_open s g)
  no_handle_left s key value g = (
    save_watched s key value,
    save_leaves s key value g,
    load_watched s key value,
    load_leaves s key value g,
  )
