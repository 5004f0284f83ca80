-- ===== src/Storage/Recovery.antt =====
-- What EventHistory gives back of all the events that were appended to it.
use savantix_dali_edge_contr.Prelude.{
  keep_if, last_of, push_within-last_of, append_assoc, append_nil, ℕ, zero, suc, ◌≡◌, refl, Bool,
  true, List, [], ◌∷◌, ◌++◌, map, arith, ==_iff, ap, sym, ◌∙◌, drop, FloatOps, All,
}
use savantix_dali_edge_contr.Storage.{
  StoredEvent, EventHistory, history_capacity, empty_history, checksum, sealed, append, recover,
}
use savantix_dali_edge_contr.Gateway.{crc_from}
use savantix_dali_edge_contr.Storage.Window.{
  push, contents, IsValid, empty-IsValid, append_refines, is_intact, recover_lem,
}

-- The last 128 of a list.
abbrev pub latest : {A : Type 0} → List A → List A
latest xs = last_of history_capacity xs

module _ {F : Type 0} (fl : FloatOps F) (bytes_of : StoredEvent F → List ℕ) where
  abbrev pub append_all : List (StoredEvent F) → EventHistory F → EventHistory F
  append_all [] h = h
  append_all (e ∷ es) h = append_all es (append fl bytes_of h e).1

  abbrev pub seal : StoredEvent F → StoredEvent F
  seal = sealed fl bytes_of

  pub append_all-contents :
      (es past : List (StoredEvent F)) (h : EventHistory F)
      → IsValid fl h
      → contents fl h ≡ latest past
      → (contents fl (append_all es h) ≡ latest (past ++ map seal es))
        × IsValid fl (append_all es h)
  append_all-contents [] past h v e = (e ∙ ap latest (sym (append_nil past)), v)
  append_all-contents (x ∷ es) past h v e =
      let (v', _, pushed) = append_refines fl bytes_of h x v in
      let held =
        pushed
        ∙ (ap (λ t. push t (seal x)) e
            ∙ push_within-last_of history_capacity past (seal x) (omega arith)) in
      let (all, v'') =
        append_all-contents es (past ++ seal x ∷ []) (append fl bytes_of h x).1 v' held in
      (all ∙ ap latest (append_assoc past (seal x ∷ []) (map seal es)), v'')

  pub keep_if-All :
      (p : StoredEvent F → Bool) (xs : List (StoredEvent F))
      → All (λ x. p x ≡ true) xs
      → keep_if p xs ≡ xs
  keep_if-All p [] h = refl
  keep_if-All p (x ∷ xs) h = rw (h.0) (ap (λ t. x ∷ t) (keep_if-All p xs h.1))

  pub All-drop :
      (p : StoredEvent F → Bool) (n : ℕ) (xs : List (StoredEvent F))
      → All (λ x. p x ≡ true) xs
      → All (λ x. p x ≡ true) (drop n xs)
  All-drop p zero xs h = h
  All-drop p (suc n) [] h = h
  All-drop p (suc n) (x ∷ xs) h = All-drop p n xs h.1

  -- The layout puts `crc` behind the bytes that the checksum is of.
  abbrev pub IgnoresCrc : Type 0
  IgnoresCrc = (e : StoredEvent F) (c : ℕ) → bytes_of (record e { crc = c }) ≡ bytes_of e

  pub sealed-is_intact : IgnoresCrc → (e : StoredEvent F) → is_intact fl bytes_of (seal e) ≡ true
  sealed-is_intact layout e =
      let same : checksum fl bytes_of (record e { crc = 0 }) ≡ checksum fl bytes_of (seal e) =
        ap (crc_from 0xffff) (layout e 0 ∙ sym (layout e _)) in
      (==_iff _ _).1 same

  pub All-seal :
      IgnoresCrc
      → (es : List (StoredEvent F)) → All (λ e. is_intact fl bytes_of e ≡ true) (map seal es)
  All-seal layout [] = tt
  All-seal layout (e ∷ es) = (sealed-is_intact layout e, All-seal layout es)

  -- Of any number of events appended to an empty history, `recover` gives back the last 128, in their
  -- order, sealed with their checksums and otherwise as they were.
  pub recover-latest :
      (es : List (StoredEvent F))
      → IgnoresCrc
      → recover fl bytes_of (append_all es (empty_history fl)) ≡ latest (map seal es)
  recover-latest es layout =
      let (all, v) = append_all-contents es [] (empty_history fl) (empty-IsValid fl) refl in
      recover_lem fl bytes_of (append_all es (empty_history fl)) v.head_in
      ∙ (ap (keep_if (is_intact fl bytes_of)) all
          ∙ keep_if-All (is_intact fl bytes_of) (latest (map seal es))
              (All-drop (is_intact fl bytes_of) _ (map seal es) (All-seal layout es)))
