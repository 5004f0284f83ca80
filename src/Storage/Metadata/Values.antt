-- ===== src/Storage/Metadata/Values.antt =====
-- The values that NvsMetadataStore saves and loads.
use savantix_dali_edge_contr.Prelude.{
  ℕ, ◌≡◌, sym, ◌∙◌, Bool, true, false, Option, some, inl, inr, Bool-cases,
}
use savantix_dali_edge_contr.Storage.Metadata.{is_ok, NvsApi, save_uint32, load_uint32}

-- What the documentation of NVS says of the values of a namespace: a set and a commit that succeed leave the
-- value in it, where opening and closing leave it; and a get that succeeds gives the value that is there.
pub record KeepsValues {S K : Type 0} (api : NvsApi S K) (value_of : S → K → Option ℕ)
    : Type 0 where
  pub commit_keeps :
      (s : S) (h : ℕ) (key : K) (v : ℕ)
      → is_ok (api.set_u32 s h key v).0 ≡ true
      → is_ok (api.commit (api.set_u32 s h key v).1 h).0 ≡ true
      → value_of (api.commit (api.set_u32 s h key v).1 h).1 key ≡ some v
  pub close_keeps : (s : S) (h : ℕ) (key : K) → value_of (api.close s h) key ≡ value_of s key
  pub open_keeps :
      (s : S) (writable : Bool) (key : K)
      → value_of (api.open_namespace s writable).2 key ≡ value_of s key
  pub get_reads :
      (s : S) (h : ℕ) (key : K) (old : ℕ)
      → is_ok (api.get_u32 s h key old).0 ≡ true
      → value_of s key ≡ some (api.get_u32 s h key old).1

module _ {S K : Type 0} (api : NvsApi S K) (value_of : S → K → Option ℕ)
    (nvs : KeepsValues api value_of) where
  saved_value :
      (s : S) (key : K) (value : ℕ)
      → is_ok (save_uint32 api s key value).0 ≡ true
      → value_of (save_uint32 api s key value).1 key ≡ some value
  unfolding save_uint32
  saved_value s key value saved =
      let (_, h, s1) = api.open_namespace s true in
      let s2 = (api.set_u32 s1 h key value).1 in
      elim (Bool-cases (is_ok (api.open_namespace s true).0)) [
        | inr failed ↦
            let answer : is_ok (api.open_namespace s true).0 ≡ true = rw failed at saved in
            cc (answer, failed)
        | inl opened ↦ elim (Bool-cases (is_ok (api.set_u32 s1 h key value).0)) [
          | inr refused ↦
              let answer : is_ok (api.set_u32 s1 h key value).0 ≡ true =
                rw (opened, refused) at saved in
              cc (answer, refused)
          | inl stored ↦
              let answer : is_ok (api.commit s2 h).0 ≡ true = rw (opened, stored) at saved in
              rw (opened, stored)
                (nvs.close_keeps (api.commit s2 h).1 h key
                  ∙ nvs.commit_keeps s1 h key value stored answer)
        ]
      ]

  loaded_value :
      (s : S) (key : K) (old : ℕ)
      → is_ok (load_uint32 api s key old).0 ≡ true
      → value_of s key ≡ some (load_uint32 api s key old).1
  unfolding load_uint32
  loaded_value s key old loaded = elim (Bool-cases (is_ok (api.open_namespace s false).0)) [
    | inr failed ↦
        let answer : is_ok (api.open_namespace s false).0 ≡ true = rw failed at loaded in
        cc (answer, failed)
    | inl opened ↦
        let (_, h, s1) = api.open_namespace s false in
        let answer : is_ok (api.get_u32 s1 h key old).0 ≡ true = rw opened at loaded in
        rw opened (sym (nvs.open_keeps s false key) ∙ nvs.get_reads s1 h key old answer)
  ]

  -- A load that answers ok after a save of the same key that did gives the value saved.
  pub load-save :
      (s : S) (key : K) (value old : ℕ)
      → let s' = (save_uint32 api s key value).1 in
        is_ok (save_uint32 api s key value).0 ≡ true
        → is_ok (load_uint32 api s' key old).0 ≡ true
        → some (load_uint32 api s' key old).1 ≡ some value
  load-save s key value old saved loaded =
      let s' = (save_uint32 api s key value).1 in
      sym (loaded_value s' key old loaded) ∙ saved_value s key value saved
