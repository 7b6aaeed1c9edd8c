-- ===== src/Api/Missing/Hashes.antt =====
-- The hashes that the loop over the messages of a page keeps.
use go_waku.Base.{
  ℕ, ◌≡◌, sym, ap, ◌∙◌, Bool, true, false, Option, none, some, List, [], ◌∷◌, ◌++◌, arith,
  append-nil, append_assoc, Option-cases, Bool-cases, inl, inr, some-injective,
}
use go_waku.Base.Text.{Text}
use go_waku.Base.Result.{Result, ok, err}
use go_waku.Protocol.Store.{StoreQueryRequest, StoreQueryResponse, WakuMessageKeyValue}
use go_waku.Api.Missing.{MissingError, exists_failed, keep_missing}

module _ (exchange : Text → StoreQueryRequest → Option StoreQueryResponse)
    (exists : Text → Option Bool) (ids : ℕ → Text) (max_attempts : ℕ) where
  -- The hashes of the messages that do not exist, if `MessageExists` has no error for any.
  abbrev pub missing_of : List WakuMessageKeyValue → Option (List Text)
  missing_of [] = some []
  missing_of (m ∷ ms) = elim (exists m.message_hash) [
    | none ↦ none
    | some true ↦ missing_of ms
    | some false ↦ elim (missing_of ms) [ none ↦ none | some l ↦ some (m.message_hash ∷ l) ]
  ]

  -- The hashes put after those before, or the error of `MessageExists`.
  abbrev pub outcome : List Text → Option (List Text) → Result MissingError (List Text)
  outcome hashes none = err exists_failed
  outcome hashes (some l) = ok (hashes ++ l)

  pub keep_missing_lem :
      (ms : List WakuMessageKeyValue) (hashes : List Text)
      → keep_missing exchange exists ids max_attempts ms hashes ≡ outcome hashes (missing_of ms)
  unfolding keep_missing
  keep_missing_lem [] hashes = ap ok (sym (append-nil hashes))
  keep_missing_lem (m ∷ ms) hashes = elim (Option-cases (exists m.message_hash)) [
    | inl e ↦ ground arith
    | inr (found, e) ↦ elim (Bool-cases found) [
      | inl f ↦ ground (arith, keep_missing_lem ms hashes)
      | inr f ↦
          let ih = keep_missing_lem ms (hashes ++ m.message_hash ∷ []) in
          elim (Option-cases (missing_of ms)) [
            | inl g ↦ ground arith
            | inr (l, g) ↦ let a = append_assoc hashes (m.message_hash ∷ []) l in ground arith
          ]
    ]
  ]

  pub missing_of-append :
      (a b : List WakuMessageKeyValue) (hashes l : List Text)
      → missing_of a ≡ some l
      → outcome hashes (missing_of (a ++ b)) ≡ outcome (hashes ++ l) (missing_of b)
  missing_of-append [] b hashes l h =
      let e : [] ≡ l = some-injective h in
      ap (λ x. outcome x (missing_of b)) (sym (append-nil hashes) ∙ ap (λ x. hashes ++ x) e)
  missing_of-append (m ∷ a) b hashes l h = elim (Option-cases (exists m.message_hash)) [
    | inl e ↦ absurd (ground arith)
    | inr (found, e) ↦ elim (Bool-cases found) [
      | inl f ↦ ground (arith, missing_of-append a b hashes l)
      | inr f ↦ elim (Option-cases (missing_of a)) [
        | inl g ↦ absurd (ground arith)
        | inr (l', g) ↦
            let whole : m.message_hash ∷ l' ≡ l = some-injective (ground arith) in
            let ih = missing_of-append a b (hashes ++ m.message_hash ∷ []) l' g in
            let s = append_assoc hashes (m.message_hash ∷ []) l' in
            elim (Option-cases (missing_of (a ++ b))) [
              | inl z ↦ ground (arith, ih, s)
              | inr (z', z) ↦
                  let s' = append_assoc hashes (m.message_hash ∷ []) z' in ground (arith, ih, s, s')
            ]
      ]
    ]
  ]

  pub missing_of-fails :
      (a b : List WakuMessageKeyValue) → missing_of a ≡ none → missing_of (a ++ b) ≡ none
  missing_of-fails [] b h = absurd (cc)
  missing_of-fails (m ∷ a) b h = elim (Option-cases (exists m.message_hash)) [
    | inl e ↦ ground arith
    | inr (found, e) ↦ elim (Bool-cases found) [
      | inl f ↦ ground (arith, missing_of-fails a b)
      | inr f ↦ elim (Option-cases (missing_of a)) [
        | inl g ↦ ground (arith, missing_of-fails a b)
        | inr (l', g) ↦ absurd (ground arith)
      ]
    ]
  ]
