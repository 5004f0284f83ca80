-- ===== src/Storage/Metadata.antt =====
-- NvsMetadataStore, of components/local_storage/include/dali/storage/nvs_metadata_store.h and
-- nvs_metadata_store.cpp. The NVS library of the platform is behind an interface: its state `S`, with one
-- function for each call.
use savantix_dali_edge_contr.Prelude.{ℕ, Bool, true, false, not, ◌||◌, if◌then◌else◌}
pub mod Handles
pub mod Values

-- esp_err_t: the values that the code tells apart, and all others.
pub data EspErr : Type 0 where
  ok no_free_pages new_version_found : EspErr
  other : ℕ → EspErr

abbrev pub is_ok : EspErr → Bool
is_ok EspErr.ok = true
is_ok _ = false

abbrev pub wants_erase : EspErr → Bool
wants_erase EspErr.no_free_pages = true
wants_erase EspErr.new_version_found = true
wants_erase _ = false

-- NVS_READWRITE is `true`. `open` gives the error and the handle; `get_u32` the error and what the caller's
-- variable holds afterwards, given what it held.
pub record NvsApi (S K : Type 0) : Type 0 where
  pub flash_init : S → EspErr × S
  pub flash_erase : S → EspErr × S
  pub open_namespace : S → Bool → EspErr × ℕ × S
  pub set_u32 : S → ℕ → K → ℕ → EspErr × S
  pub commit : S → ℕ → EspErr × S
  pub get_u32 : S → ℕ → K → ℕ → EspErr × ℕ × S
  pub close : S → ℕ → S

module _ {S K : Type 0} (api : NvsApi S K) where
  unfoldable pub init : S → EspErr × S
  init s =
      let (result, s1) = api.flash_init s in
      let (erased, s2) = api.flash_erase s1 in
      if wants_erase result
      then (if not (is_ok erased) then (erased, s2) else api.flash_init s2)
      else (result, s1)

  unfoldable pub save_uint32 : S → K → ℕ → EspErr × S
  save_uint32 s key value =
      let (opened, handle, s1) = api.open_namespace s true in
      let (stored, s2) = api.set_u32 s1 handle key value in
      let (committed, s3) = api.commit s2 handle in
      if not (is_ok opened)
      then (opened, s1)
      else if is_ok stored
      then (committed, api.close s3 handle)
      else (stored, api.close s2 handle)

  -- The last value is what `value` holds afterwards.
  unfoldable pub load_uint32 : S → K → ℕ → EspErr × ℕ × S
  load_uint32 s key value =
      let (opened, handle, s1) = api.open_namespace s false in
      let (found, value', s2) = api.get_u32 s1 handle key value in
      if not (is_ok opened) then (opened, value, s1) else (found, value', api.close s2 handle)
