-- ===== src/Protocol/Shard/BitVector.antt =====
-- `BitVector` and `FromBitVector`: two bytes of the cluster and 128 bytes with a bit for each shard.
-- Bit `i % 8` of byte `i / 8`, counted from the first byte, stands for shard `i`.
use go_waku.Base.{
  ℕ, zero, suc, ◌+◌, ◌-◌, ◌*◌, ◌/◌, ◌%◌, ◌≤◌, ◌<◌, ◌≡◌, ◌↔◌, refl, ◌∙◌, Bool, true, false, ◌||◌,
  ◌&&◌, List, [], ◌∷◌, ◌++◌, arith, length, ltb, leb, if◌then◌else◌, ◌==◌, dec_le, ℕ_discrete,
  get_or, set, length-set, replicate, length-replicate, get_or-set_self, get_or-set_ne,
}
use go_waku.Base.Lists.{All}
use go_waku.Base.Bits.{bit-bit_or, bit_or-lt, bit-zero}
use go_waku.Base.Keys.{contains, contains-append}
use go_waku.Base.Result.{ok, panic}
use go_waku.Protocol.PubsubTopic.{max_uint16}
use go_waku.Protocol.Shard.{
  RelayShards, uint16_bytes, set_bit, has_bit, set_shards, bit_vector, byte_shards, vector_shards,
  from_bit_vector, max_shard_index,
}
use go_waku.Protocol.Shard.Sets.{AreIndexes, SameShards}

abbrev AreBytes : List ℕ → Type 0
AreBytes = All (λ b. b < 256)

-- The bit of a vector that stands for shard `i`.
abbrev bit_at : List ℕ → ℕ → Bool
bit_at vec i = has_bit (get_or vec (i / 8) 0) (i % 8)

get_or-lt : (vec : List ℕ) (k : ℕ) → AreBytes vec → get_or vec k 0 < 256
get_or-lt [] k h = omega arith
get_or-lt (b ∷ vec) zero h = h.0
get_or-lt (b ∷ vec) (suc k) h = get_or-lt vec k h.1

set-AreBytes : (vec : List ℕ) (k v : ℕ) → AreBytes vec → v < 256 → AreBytes (set vec k v)
set-AreBytes [] k v h hv = h
set-AreBytes (b ∷ vec) zero v h hv = (hv, h.1)
set-AreBytes (b ∷ vec) (suc k) v h hv = (h.0, set-AreBytes vec k v h.1 hv)

-- Writing one shard's bit.
abbrev mark : List ℕ → ℕ → List ℕ
mark vec i = set vec (i / 8) (set_bit (get_or vec (i / 8) 0) (i % 8))

mark-AreBytes : (vec : List ℕ) (i : ℕ) → AreBytes vec → AreBytes (mark vec i)
unfolding set_bit
mark-AreBytes vec i h =
    set-AreBytes vec (i / 8) _ h (bit_or-lt _ (i % 8) (get_or-lt vec (i / 8) h) (omega arith))

bit_at-mark :
    (vec : List ℕ) (i j : ℕ)
    → AreBytes vec
    → i / 8 < length vec
    → bit_at (mark vec i) j ≡ (if i == j then true else bit_at vec j)
unfolding set_bit has_bit
bit_at-mark vec i j h fits = elim (ℕ_discrete (i / 8) (j / 8)) [
  | yes e ↦
      rw (← e, get_or-set_self vec (i / 8) (set_bit (get_or vec (i / 8) 0) (i % 8)) 0 fits)
        (bit-bit_or (get_or vec (i / 8) 0) (i % 8) (j % 8) (get_or-lt vec (i / 8) h) (omega arith)
            (omega arith)
          ∙ ground arith)
  | no e ↦
      rw (get_or-set_ne vec (i / 8) (j / 8) (set_bit (get_or vec (i / 8) 0) (i % 8)) 0 e)
        (ground arith)
]

-- `BitVector` sets the bits of the given shards and no other.
set_shards_lem :
    (ids vec : List ℕ)
    → AreIndexes ids
    → AreBytes vec
    → length vec ≡ 128
    → (vec' : List ℕ) × (set_shards ids vec ≡ ok vec')
      × (length vec' ≡ 128)
      × ((j : ℕ) → bit_at vec' j ≡ contains ℕ_discrete j ids || bit_at vec j)
unfolding set_shards contains
set_shards_lem [] vec h b l = (vec, refl, l, λ j. refl)
set_shards_lem (i ∷ ids) vec h b l =
    let n = set_bit (get_or vec (i / 8) 0) (i % 8) in
    let (vec', made, l', bits) =
      set_shards_lem ids (mark vec i) h.1 (mark-AreBytes vec i b) (length-set vec (i / 8) n ∙ l) in
    (
      vec',
      ground (arith, made),
      l',
      λ j. bits j ∙ ground (arith, bit_at-mark vec i j b (omega arith)),
    )

set_shards_panics :
    (ids vec : List ℕ) → ¬ AreIndexes ids → length vec ≡ 128 → set_shards ids vec ≡ panic
unfolding set_shards
set_shards_panics [] vec h l = absurd (h tt)
set_shards_panics (i ∷ ids) vec h l = elim (dec_le i max_shard_index) [
  | yes p ↦
      let n = set_bit (get_or vec (i / 8) 0) (i % 8) in
      ground
        (arith, set_shards_panics ids (mark vec i) (λ a. h (p, a)) (length-set vec (i / 8) n ∙ l))
  | no q ↦ ground arith
]

byte_shards_lem :
    (left byte i j x : ℕ)
    → contains ℕ_discrete x (byte_shards left byte i j)
      ≡ (if leb (j + 8 * i) x && ltb x (j + left + 8 * i) then has_bit byte (x - 8 * i) else false)
unfolding byte_shards contains
byte_shards_lem zero byte i j x = ground arith
byte_shards_lem (suc left) byte i j x = elim (ℕ_discrete x (j + 8 * i)) [
  | yes e ↦
      let k : x - 8 * i ≡ j = omega arith in
      rw k (ground (arith, byte_shards_lem left byte i (j + 1) x))
  | no e ↦ ground (arith, byte_shards_lem left byte i (j + 1) x)
]

-- The byte at `i` gives the shards from `8 * i` to `8 * i + 7`, and the rest those above.
by_place :
    (byte : ℕ) (buf : List ℕ) (i x : ℕ)
    → (if leb (0 + 8 * i) x && ltb x (0 + 8 + 8 * i) then has_bit byte (x - 8 * i) else false)
        || (if leb (8 * (i + 1)) x then has_bit (get_or buf (x / 8 - (i + 1)) 0) (x % 8) else false)
      ≡ (if leb (8 * i) x then has_bit (get_or (byte ∷ buf) (x / 8 - i) 0) (x % 8) else false)
by_place byte buf i x = elim (ℕ_discrete (x / 8) i) [
  | yes e ↦
      let k : x / 8 - i ≡ 0 = omega arith in
      let m : x - 8 * i ≡ x % 8 = omega arith in rw (k, m) (ground arith)
  | no e ↦ elim (dec_le i (x / 8)) [
    | yes h ↦ let k : x / 8 - i ≡ suc (x / 8 - (i + 1)) = omega arith in rw k (ground arith)
    | no h ↦ ground arith
  ]
]

vector_shards_lem :
    (buf : List ℕ) (i x : ℕ)
    → contains ℕ_discrete x (vector_shards buf i)
      ≡ (if leb (8 * i) x then has_bit (get_or buf (x / 8 - i) 0) (x % 8) else false)
unfolding vector_shards
vector_shards_lem [] i x = unfold contains has_bit in ground (arith, bit-zero (x % 8) (omega arith))
vector_shards_lem (byte ∷ buf) i x =
    contains-append ℕ_discrete x (byte_shards 8 byte i 0) (vector_shards buf (i + 1))
    ∙ rw (byte_shards_lem 8 byte i 0 x, vector_shards_lem buf (i + 1) x) (by_place byte buf i x)

replicate-AreBytes : (n : ℕ) → AreBytes (replicate n 0)
replicate-AreBytes zero = tt
replicate-AreBytes (suc n) = (omega arith, replicate-AreBytes n)

get_or-replicate : (n k : ℕ) → get_or (replicate {A = ℕ} n 0) k 0 ≡ 0
get_or-replicate zero k = refl
get_or-replicate (suc n) zero = refl
get_or-replicate (suc n) (suc k) = get_or-replicate n k

bit_at-replicate : (n j : ℕ) → bit_at (replicate n 0) j ≡ false
unfolding has_bit
bit_at-replicate n j = rw (get_or-replicate n (j / 8)) (bit-zero (j % 8) (omega arith))

only_ids :
    (ids : List ℕ) (j : ℕ)
    → contains ℕ_discrete j ids || bit_at (replicate 128 0) j ≡ contains ℕ_discrete j ids
only_ids ids j = rw (bit_at-replicate 128 j) (ground arith)

-- The vector of a value whose shards are at most 1023.
set_all :
    (ids : List ℕ)
    → AreIndexes ids
    → (vec : List ℕ) × (set_shards ids (replicate 128 0) ≡ ok vec)
      × (length vec ≡ 128)
      × ((j : ℕ) → bit_at vec j ≡ contains ℕ_discrete j ids)
set_all ids h =
    let (vec, made, l, bits) =
      set_shards_lem ids (replicate 128 0) h (replicate-AreBytes 128)
        (length-replicate {A = ℕ} 128 0) in
    (vec, made, l, λ j. bits j ∙ only_ids ids j)

vector_shards-SameShards :
    (vec ids : List ℕ)
    → ((j : ℕ) → bit_at vec j ≡ contains ℕ_discrete j ids)
    → SameShards (vector_shards vec 0) ids
vector_shards-SameShards vec ids bits i = vector_shards_lem vec 0 i ∙ ground (arith, bits i)

-- The bytes stand for the given shards and no other, wherever the shards are at most 1023.
pub from_bit_vector-bit_vector :
    (rs : RelayShards)
    → rs.cluster_id ≤ max_uint16
    → AreIndexes rs.shard_ids
    → (bytes : List ℕ) × (back : RelayShards) × (bit_vector rs ≡ ok bytes)
      × (length bytes ≡ 130)
      × (from_bit_vector bytes ≡ ok back)
      × (back.cluster_id ≡ rs.cluster_id)
      × SameShards back.shard_ids rs.shard_ids
unfolding bit_vector from_bit_vector
from_bit_vector-bit_vector rs hc h =
    let (vec, made, l, bits) = set_all rs.shard_ids h in
    (
      uint16_bytes rs.cluster_id ++ vec,
      record {
        cluster_id = rs.cluster_id / 256 % 256 * 256 + rs.cluster_id % 256;
        shard_ids = vector_shards vec 0;
      },
      rw made,
      unfold uint16_bytes in omega arith,
      unfold uint16_bytes in ground arith,
      omega arith,
      vector_shards-SameShards vec rs.shard_ids bits,
    )

-- `BitVector` panics exactly when some shard is above 1023.
pub bit_vector_panics_iff :
    (rs : RelayShards) → (bit_vector rs ≡ panic) ↔ (¬ AreIndexes rs.shard_ids)
unfolding bit_vector
bit_vector_panics_iff rs = (
  λ p h. let (vec, made, _, _) = set_all rs.shard_ids h in ground (arith, made, p),
  λ h. rw (set_shards_panics rs.shard_ids (replicate 128 0) h (length-replicate {A = ℕ} 128 0)),
)
