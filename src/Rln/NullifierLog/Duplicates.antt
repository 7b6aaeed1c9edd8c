-- ===== src/Rln/NullifierLog/Duplicates.antt =====
-- A duplicate is a stored proof of the same epoch and nullifier.
use go_waku.Base.{
  ℕ, suc, ◌+◌, ◌==◌, ◌≡◌, ◌↔◌, refl, ap, Bool, true, false, not, ◌&&◌, ◌||◌, Option, none, some,
  List, [], ◌∷◌, ◌++◌, arith, if◌then◌else◌, Bool-cases, inl, inr, ite,
}
use go_waku.Base.Lists.{All, All-append}
use go_waku.Base.Text.{same, Text, text_dec}
use go_waku.Base.Dict.{Every, lookup, insert, lookup-insert, Every-insert, Every-lookup}
use go_waku.Base.Result.{Result, ok, err, panic}
use go_waku.Rln.NullifierLog.{
  ProofMetadata, NullifierLog, NullifierError, proofs_of, matches, has_equal, insert_proof,
  has_duplicate,
}

-- Every proof is stored under its external nullifier.
abbrev IsFiled : Text → List ProofMetadata → Type 0
IsFiled e proofs = All (λ p. p.external_nullifier ≡ e) proofs

abbrev pub AreFiled : NullifierLog → Type 0
AreFiled n = Every text_dec IsFiled n.nullifier_log

-- How many proofs of a list have a nullifier.
unfoldable pub uses : Text → List ProofMetadata → ℕ
uses nullifier [] = 0
uses nullifier (p ∷ rest) =
    if same p.nullifier nullifier then suc (uses nullifier rest) else uses nullifier rest

-- How many proofs of an epoch have a nullifier.
unfoldable pub stored : NullifierLog → Text → Text → ℕ
stored n epoch nullifier = uses nullifier (proofs_of n epoch)

proofs_of-IsFiled : (n : NullifierLog) (e : Text) → AreFiled n → IsFiled e (proofs_of n e)
unfolding proofs_of
proofs_of-IsFiled n e h = go (lookup text_dec e n.nullifier_log) refl
  where
    go :
        (o : Option (List ProofMetadata))
        → lookup text_dec e n.nullifier_log ≡ o
        → IsFiled e (elim o [ none ↦ [] | some proofs ↦ proofs ])
    go none found = tt
    go (some proofs) found = Every-lookup text_dec IsFiled e proofs n.nullifier_log h found

uses-append : (x : Text) (ps qs : List ProofMetadata) → uses x (ps ++ qs) ≡ uses x ps + uses x qs
unfolding uses
uses-append x [] qs = omega arith
uses-append x (p ∷ ps) qs = ground (arith, uses-append x ps qs)

proofs_of-insert :
    (k e : Text) (l : List ProofMetadata) (n : NullifierLog) (queue : List Text)
    → proofs_of
        (record { nullifier_log = insert text_dec k l n.nullifier_log; nullifier_queue = queue })
        e
      ≡ ite (text_dec k e) l (proofs_of n e)
unfolding proofs_of
proofs_of-insert k e l n queue = ground (arith, lookup-insert text_dec k e l n.nullifier_log)

proof-eta :
    (p q : ProofMetadata)
    → p.nullifier ≡ q.nullifier
    → p.share_x ≡ q.share_x
    → p.share_y ≡ q.share_y
    → p.external_nullifier ≡ q.external_nullifier
    → p ≡ q
proof-eta p q a b c d = cc

module _ (equals : ProofMetadata → ProofMetadata → Bool) where
  -- What is no duplicate can be inserted.
  pub not-has_equal :
      (p : ProofMetadata) (n : NullifierLog)
      → has_duplicate equals p n ≡ false
      → (n' : NullifierLog) × (insert_proof equals p n ≡ ok n')
  not-has_equal p n h = go (insert_proof equals p n) refl
    where
      go :
          (r : Result NullifierError NullifierLog)
          → insert_proof equals p n ≡ r
          → (n' : NullifierLog) × (insert_proof equals p n ≡ ok n')
      go (ok n') e = (n', e)
      go (err x) e = absurd (unfold has_duplicate insert_proof in ground arith)
      go panic e = absurd (unfold has_duplicate insert_proof in ground arith)

-- `equals` compares all of a proof's metadata.
module _ (equals : ProofMetadata → ProofMetadata → Bool)
    (decides : (p q : ProofMetadata) → (equals p q ≡ true) ↔ (p ≡ q)) where
  -- At a proof of the same epoch, one of the two loops stops exactly when the nullifiers agree.
  differs :
      (p q : ProofMetadata)
      → q.external_nullifier ≡ p.external_nullifier
      → equals q p ≡ false
      → same q.nullifier p.nullifier ≡ (
          same q.nullifier p.nullifier
          && (not (same q.share_x p.share_x) || not (same q.share_y p.share_y)))
  differs p q e h = elim (text_dec q.nullifier p.nullifier) [
    | no n ↦ ground arith
    | yes n ↦ elim (text_dec q.share_x p.share_x) [
      | no x ↦ ground arith
      | yes x ↦ elim (text_dec q.share_y p.share_y) [
        | no y ↦ ground arith
        | yes y ↦ absurd (ground (arith, h, (decides q p).1 (proof-eta q p n x y e)))
      ]
    ]
  ]

  found-uses :
      (p : ProofMetadata) (proofs : List ProofMetadata)
      → IsFiled p.external_nullifier proofs
      → (if has_equal equals p proofs then true else matches p proofs)
        ≡ (if uses p.nullifier proofs == 0 then false else true)
  unfolding has_equal matches uses
  found-uses p [] h = refl
  found-uses p (q ∷ rest) h = elim (Bool-cases (equals q p)) [
    | inl e ↦
        let same_proof : q ≡ p = (decides q p).0 e in
        ground (arith, ap (λ (r : ProofMetadata). r.nullifier) same_proof)
    | inr e ↦ ground (arith, differs p q h.0 e, found-uses p rest h.1)
  ]

  -- On a log whose proofs are filed under their epochs, `HasDuplicate` decides whether a proof of
  -- the same epoch and nullifier is stored.
  pub has_duplicate-stored :
      (p : ProofMetadata) (n : NullifierLog)
      → AreFiled n
      → has_duplicate equals p n
        ≡ (if stored n p.external_nullifier p.nullifier == 0 then false else true)
  unfolding has_duplicate stored
  has_duplicate-stored p n h =
      found-uses p (proofs_of n p.external_nullifier) (proofs_of-IsFiled n p.external_nullifier h)

  insert_inv :
      (p : ProofMetadata) (n n' : NullifierLog)
      → insert_proof equals p n ≡ ok n'
      → n' ≡ record {
        nullifier_log =
            insert text_dec p.external_nullifier
              (proofs_of n p.external_nullifier ++ p ∷ [])
              n.nullifier_log;
        nullifier_queue = n.nullifier_queue ++ p.external_nullifier ∷ [];
      }
  unfolding insert_proof
  insert_inv p n n' h = ground arith

  pub insert_proof-AreFiled :
      (p : ProofMetadata) (n n' : NullifierLog)
      → insert_proof equals p n ≡ ok n'
      → AreFiled n
      → AreFiled n'
  insert_proof-AreFiled p n n' made h = rw (insert_inv p n n' made) (
      Every-insert text_dec IsFiled p.external_nullifier _ n.nullifier_log
        (All-append _ (proofs_of n p.external_nullifier) (p ∷ [])
          (proofs_of-IsFiled n p.external_nullifier h) (refl, tt))
        h)

  -- `Insert` stores the proof it is given and changes no other count.
  pub stored-insert_proof :
      (p : ProofMetadata) (n n' : NullifierLog) (e x : Text)
      → insert_proof equals p n ≡ ok n'
      → stored n' e x ≡ (
          if same p.external_nullifier e && same p.nullifier x
          then suc (stored n e x)
          else stored n e x)
  unfolding stored uses
  stored-insert_proof p n n' e x made =
      let old = proofs_of n p.external_nullifier in
      rw
        (
          insert_inv p n n' made,
          proofs_of-insert p.external_nullifier e (old ++ p ∷ []) n
              (n.nullifier_queue ++ p.external_nullifier ∷ []),
        )
        (elim (text_dec p.external_nullifier e) [
          | yes f ↦ rw (← f) (ground (arith, uses-append x old (p ∷ [])))
          | no f ↦ ground arith
        ])
