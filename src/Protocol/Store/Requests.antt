-- ===== src/Protocol/Store/Requests.antt =====
-- What stands behind a result of `Request`.
use go_waku.Base.{
  ◌⊎◌, ℕ, ◌≤◌, ◌<◌, ◌≡◌, refl, ap, subst, ◌∙◌, Bool, true, false, Option, none, some, List, [], ◌∷◌,
  arith, ◌==◌, if◌then◌else◌, length, All, Bool-cases, Option-cases, inl, inr, not, ◌&&◌,
}
use go_waku.Base.Text.{text_dec, Text, same, codes}
use go_waku.Base.Result.{ok, err, panic, ◌>>=◌, >>=-eq-ok, ok-injective}
use go_waku.Protocol.Store.{
  ◌and_then◌, StoreError, StoreQueryRequest, StoreQueryResponse, Criteria, validate,
  validate_response, WakuMessageKeyValue, validate_key_value, validate_messages,
  populate_store_request, filter_criteria, message_hash_criteria, is_missing, Checked, status,
  request_id_mismatch, missing_status_code, text_or_empty,
}
use go_waku.Protocol.Store.Client.{
  Parameters, StoreResult, max_page_size, page_limit_of, make_request, query_from, send, request,
  choose_peer, require_peer, checked_response, ok_code, code_or_zero, result_of, select_for,
  Fallible,
}
use go_waku.Protocol.Store.Validation.{IsValid, validate_iff, IsFilled}

abbrev pub InLimits : Option ℕ → Type 0
InLimits none = ⊥
InLimits (some n) = (0 < n) × (n ≤ max_page_size)

abbrev pub ChecksOut : WakuMessageKeyValue → Type 0
ChecksOut m = validate_key_value m ≡ ok tt

-- The response is one to the request: it has its ID, or none, or "N/A".
abbrev pub IsFor : Text → StoreQueryResponse → Type 0
IsFor id x = (x.request_id ≡ []) ⊎ ((x.request_id ≡ codes "N/A") ⊎ (x.request_id ≡ id))

-- A result that came from a valid request for a page within the limits, by a response to this request
-- with the status 200 whose messages all validate, and what it says of the response.
pub record IsSound (exchange : Text → StoreQueryRequest → Option StoreQueryResponse)
    (r : StoreResult) : Type 0 where
  pub asked : IsValid r.store_request
  pub limited : InLimits r.store_request.pagination_limit
  pub peer : IsFilled r.peer_id
  pub answered : exchange r.peer_id r.store_request ≡ some r.store_response
  pub went_well : code_or_zero r.store_response.status_code ≡ ok_code
  pub own : IsFor r.store_request.request_id r.store_response
  pub checked : All ChecksOut r.messages
  pub given : r.messages ≡ r.store_response.messages
  pub turned : r.cursor ≡ r.store_response.pagination_cursor

split_checks :
    (c : Checked) {later : Checked} → (c and_then later) ≡ ok tt → (c ≡ ok tt) × (later ≡ ok tt)
split_checks (ok u) h = (refl, h)
split_checks (err e) h = absurd (cc)
split_checks panic h = absurd (cc)

validate_messages-All :
    (ms : List WakuMessageKeyValue) → validate_messages ms ≡ ok tt → All ChecksOut ms
unfolding validate_messages
validate_messages-All [] h = tt
validate_messages-All (m ∷ ms) h =
    let (first, later) = split_checks (validate_key_value m) {later = validate_messages ms} h in
    (first, validate_messages-All ms later)

last_branch :
    (e f : StoreError) (a b : Bool) {c : Checked}
    → (if a then err e else if b then err f else c) ≡ ok tt
    → c ≡ ok tt
last_branch e f true b h = absurd (cc)
last_branch e f false true h = absurd (cc)
last_branch e f false false h = h

validate_response-All :
    (id : Text) (x : StoreQueryResponse) → validate_response id x ≡ ok tt → All ChecksOut x.messages
unfolding validate_response
validate_response-All id x h = validate_messages-All x.messages (
    last_branch request_id_mismatch missing_status_code
      (not (length x.request_id == 0)
        && (not (same x.request_id (codes "N/A")) && not (same x.request_id id)))
      (is_missing x.status_code) h)

no_text : (s : Text) → (length s == 0) ≡ true → s ≡ []
no_text [] h = refl
no_text (c ∷ s) h = absurd (ground arith)

first_check :
    (e f : StoreError) (a b : Bool) (c : Checked)
    → (if a then err e else if b then err f else c) ≡ ok tt
    → a ≡ false
first_check e f true b c h = absurd (cc)
first_check e f false b c h = refl

validate_response-IsFor :
    (id : Text) (x : StoreQueryResponse) → validate_response id x ≡ ok tt → IsFor id x
unfolding validate_response
validate_response-IsFor id x h =
    let passed =
      first_check request_id_mismatch missing_status_code
        (not (length x.request_id == 0)
          && (not (same x.request_id (codes "N/A")) && not (same x.request_id id)))
        (is_missing x.status_code) (validate_messages x.messages) h in
    elim (Bool-cases (length x.request_id == 0)) [
      | inl empty ↦ inl (no_text x.request_id empty)
      | inr filled ↦ elim (text_dec x.request_id (codes "N/A")) [
        | yes e ↦ inr (inl e)
        | no ne ↦ elim (text_dec x.request_id id) [
          | yes e ↦ inr (inr e)
          | no ne' ↦ absurd (ground arith)
        ]
      ]
    ]

require_peer_inv : (p peer : Text) → require_peer p ≡ ok peer → IsFilled peer
unfolding require_peer
require_peer_inv p peer h = ground arith

choose_peer_inv :
    (pm : Option (Text → Option (List Text))) (criteria : Criteria) (selected peer : Text)
    → choose_peer pm criteria selected ≡ ok peer
    → IsFilled peer
unfolding choose_peer
choose_peer_inv none criteria selected peer h = require_peer_inv selected peer h
choose_peer_inv (some select_peers) criteria selected peer h =
    elim (Bool-cases (length selected == 0)) [
      | inl empty ↦
          let (p, e, f) =
            >>=-eq-ok (select_for select_peers criteria) require_peer (ground arith) in
          require_peer_inv p peer f
      | inr given ↦ require_peer_inv selected peer (ground arith)
    ]

page_limit_of_bounds : (n : ℕ) → (0 < page_limit_of n) × (page_limit_of n ≤ max_page_size)
unfolding page_limit_of
page_limit_of_bounds n = ground arith

make_request-InLimits :
    (params : Parameters) (criteria : Criteria)
    → InLimits (make_request params criteria).pagination_limit
unfolding make_request populate_store_request
make_request-InLimits params (filter_criteria cf start end) = page_limit_of_bounds params.page_limit
make_request-InLimits params (message_hash_criteria hashes) = page_limit_of_bounds params.page_limit

abbrev after_checks : StoreQueryResponse → Unit {0} → Fallible StoreQueryResponse
after_checks x u =
    if not (code_or_zero x.status_code == ok_code)
    then err (status (code_or_zero x.status_code) (text_or_empty x.status_desc))
    else ok x

checked_response_inv :
    (q : StoreQueryRequest) (x y : StoreQueryResponse)
    → checked_response q x ≡ ok y
    → (x ≡ y)
      × (code_or_zero y.status_code ≡ ok_code)
      × IsFor q.request_id y
      × All ChecksOut y.messages
unfolding checked_response
checked_response_inv q x y h =
    let code = code_or_zero x.status_code in
    let (u, valid, h') = >>=-eq-ok (validate_response q.request_id x) (after_checks x) h in
    elim (Bool-cases (code == ok_code)) [
      | inr other ↦ absurd (ground arith)
      | inl good ↦
          let e : x ≡ y = ok-injective {E = StoreError} (ground arith) in
          subst
            (λ (z : StoreQueryResponse).
              (x ≡ z)
              × (code_or_zero z.status_code ≡ ok_code)
              × IsFor q.request_id z
              × All ChecksOut z.messages)
            e
            (
              refl,
              ground arith,
              validate_response-IsFor q.request_id x valid,
              validate_response-All q.request_id x valid,
            )
    ]

module _ (exchange : Text → StoreQueryRequest → Option StoreQueryResponse) where
  query_from_inv :
      (peer : Text) (q : StoreQueryRequest) (x : StoreQueryResponse)
      → query_from exchange peer q ≡ ok x
      → (exchange peer q ≡ some x)
        × (code_or_zero x.status_code ≡ ok_code)
        × IsFor q.request_id x
        × All ChecksOut x.messages
  unfolding query_from
  query_from_inv peer q x h = elim (Option-cases (exchange peer q)) [
    | inl nothing ↦ absurd (ground arith)
    | inr (y, e) ↦
        let (same_response, code, own, checked) = checked_response_inv q y x (ground arith) in
        (e ∙ ap some same_response, code, own, checked)
  ]

  -- A `Request` that gives a result sent a valid request, for one to a hundred messages, to a peer
  -- that is not empty, and the peer's response has the request's ID (or none, or "N/A"), the status 200
  -- and only valid messages; the result has the response's messages and its cursor.
  pub request-IsSound :
      (pm : Option (Text → Option (List Text))) (params : Parameters) (criteria : Criteria)
      (r : StoreResult)
      → request exchange pm params criteria ≡ ok r
      → IsSound exchange r
  unfolding request send
  request-IsSound pm params criteria r h =
      let q = make_request params criteria in
      let (peer, chosen, h1) =
        >>=-eq-ok (choose_peer pm criteria params.selected_peer) (λ peer. send exchange peer q) h in
      let (u, valid, h2) =
        >>=-eq-ok (validate q)
          (λ (v : Unit {0}). query_from exchange peer q >>= λ x. ok (result_of exchange peer q x))
          h1 in
      let (x, got, h3) =
        >>=-eq-ok (query_from exchange peer q) (λ x. ok (result_of exchange peer q x)) h2 in
      let (answered, code, own, checked) = query_from_inv peer q x got in
      let made = ok-injective h3 in
      subst (IsSound exchange) made (record {
        asked = (validate_iff q).0 valid;
        limited = make_request-InLimits params criteria;
        peer = choose_peer_inv pm criteria params.selected_peer peer chosen;
        answered = answered;
        went_well = code;
        own = own;
        checked = checked;
        given = refl;
        turned = refl;
      })
