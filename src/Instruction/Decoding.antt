-- ===== src/Instruction/Decoding.antt =====
-- What `unpack` accepts: nothing but the bytes of an instruction, and bytes behind it that it ignores.
use mathlib.Core.List.{append_assoc}
use allwinprotocol.Base.{
  ℕ, zero, suc, ◌≡◌, refl, sym, ap, ◌∙◌, Bool, false, List, [], ◌∷◌, ◌++◌, arith, Fits, All,
}
use mathlib.Core.Path.{subst}
use allwinprotocol.Error.{ok, >>=-eq-ok, ◌>>=◌}
use allwinprotocol.State.Pool.{PoolConfig}
use allwinprotocol.State.Codec.{to_le_bytes, from_le_bytes}
use allwinprotocol.State.Codec.RoundTrip.{IsByte, read_split}
use allwinprotocol.UnpackUtil.{unpack_bool, unpack_u64, unpack_bytes32, unpack_pubkey}
use allwinprotocol.Instruction
use allwinprotocol.Instruction.{PoolingInstruction, unpack_tag, unpack}
use allwinprotocol.Instruction.Encoding.{encode, InRange, bool_byte}

module _ (bs : List ℕ) (n : ℕ) (rest : List ℕ) (h : All IsByte bs) where
  unpack_u64-inv :
      unpack_u64 bs ≡ ok (n, rest) → (bs ≡ to_le_bytes 8 n ++ rest) × Fits 64 n × All IsByte rest
  unfolding unpack_u64
  unpack_u64-inv e = ground (arith, read_split 8 bs h)

  unpack_pubkey-inv :
      unpack_pubkey bs ≡ ok (n, rest)
      → (bs ≡ to_le_bytes 32 n ++ rest) × Fits 256 n × All IsByte rest
  unfolding unpack_pubkey
  unpack_pubkey-inv e = ground (arith, read_split 32 bs h)

  unpack_bytes32-inv :
      unpack_bytes32 bs ≡ ok (n, rest)
      → (bs ≡ to_le_bytes 32 n ++ rest) × Fits 256 n × All IsByte rest
  unfolding unpack_bytes32
  unpack_bytes32-inv e = ground (arith, read_split 32 bs h)

unpack_bool-inv :
    (bs : List ℕ) (b : Bool) (rest : List ℕ)
    → unpack_bool bs ≡ ok (b, rest)
    → bs ≡ bool_byte b ∷ rest
unfolding unpack_bool from_le_bytes
unpack_bool-inv [] b rest e = ground arith
unpack_bool-inv (x ∷ bs) b rest e = ground arith

-- `input` is an encoding of `i` and ignored bytes.
abbrev pub Encodes : PoolingInstruction → List ℕ → Type 0
Encodes i input = (rest : List ℕ) × (input ≡ encode i ++ rest) × InRange i

Encodes-eq :
    (j i : PoolingInstruction) (input rest : List ℕ)
    → ok i ≡ ok j
    → input ≡ encode j ++ rest
    → InRange j
    → Encodes i input
Encodes-eq j i input rest made same fits =
    let is : j ≡ i = cc in subst (λ x. Encodes x input) is (rest, same, fits)

module _ (input : List ℕ) (i : PoolingInstruction) (h : All IsByte input) where
  tag_zero : unpack_tag 0 input ≡ ok i → Encodes i (0 ∷ input)
  unfolding unpack_tag
  tag_zero e =
      let ((owner, rest), read, e') =
        >>=-eq-ok (unpack_pubkey input)
          (λ r. unpack_bytes32 r.1 >>= λ q. ok (Instruction.init_pooling_manager r.0 q.0)) e in
      let (same, fits, bytes) = unpack_pubkey-inv input owner rest h read in
      let ((currency, rest'), read', made) =
        >>=-eq-ok (unpack_bytes32 rest) (λ q. ok (Instruction.init_pooling_manager owner q.0)) e' in
      let (same', fits', _) = unpack_bytes32-inv rest currency rest' bytes read' in
      Encodes-eq (Instruction.init_pooling_manager owner currency) i (0 ∷ input) rest' (sym made)
        (ap (λ l. 0 ∷ l)
          (same
            ∙ ap (λ l. to_le_bytes 32 owner ++ l) same'
            ∙ sym (append_assoc (to_le_bytes 32 owner) (to_le_bytes 32 currency) rest')))
        (fits, fits')

  tag_one : unpack_tag 1 input ≡ ok i → Encodes i (1 ∷ input)
  unfolding unpack_tag
  tag_one e =
      let ((n, rest), read, made) =
        >>=-eq-ok (unpack_pubkey input) (λ r. ok (Instruction.set_pooling_manager_owner r.0)) e in
      let (same, fits, _) = unpack_pubkey-inv input n rest h read in
      Encodes-eq (Instruction.set_pooling_manager_owner n) i (1 ∷ input) rest (sym made)
        (ap (λ l. 1 ∷ l) same) fits

  tag_two : unpack_tag 2 input ≡ ok i → Encodes i (2 ∷ input)
  unfolding unpack_tag
  tag_two e =
      let config : PoolConfig = record { deposit_paused = false } in
      let ((speed, rest), read, e') =
        >>=-eq-ok (unpack_u64 input)
          (λ r. unpack_u64 r.1 >>= λ k.
            unpack_bool k.1 >>= λ b. ok (Instruction.init_pool config r.0 k.0 b.0))
          e in
      let (same, fits, bytes) = unpack_u64-inv input speed rest h read in
      let ((kink, rest'), read', e'') =
        >>=-eq-ok (unpack_u64 rest)
          (λ k. unpack_bool k.1 >>= λ b. ok (Instruction.init_pool config speed k.0 b.0)) e' in
      let (same', fits', _) = unpack_u64-inv rest kink rest' bytes read' in
      let ((pyth, rest''), read'', made) =
        >>=-eq-ok (unpack_bool rest') (λ b. ok (Instruction.init_pool config speed kink b.0)) e'' in
      Encodes-eq (Instruction.init_pool config speed kink pyth) i (2 ∷ input) rest'' (sym made)
        (ap (λ l. 2 ∷ l)
          (same
            ∙ ap (λ l. to_le_bytes 8 speed ++ l)
                (same'
                  ∙ ap (λ l. to_le_bytes 8 kink ++ l) (unpack_bool-inv rest' pyth rest'' read'')
                  ∙ sym (append_assoc (to_le_bytes 8 kink) (bool_byte pyth ∷ []) rest''))
            ∙ sym (
                append_assoc (to_le_bytes 8 speed) (to_le_bytes 8 kink ++ bool_byte pyth ∷ [])
                  rest'')))
        (refl, fits, fits')

  tag_four : unpack_tag 4 input ≡ ok i → Encodes i (4 ∷ input)
  unfolding unpack_tag
  tag_four e =
      let ((n, rest), read, made) =
        >>=-eq-ok (unpack_u64 input) (λ r. ok (Instruction.deposit_pool_liquidity r.0)) e in
      let (same, fits, _) = unpack_u64-inv input n rest h read in
      Encodes-eq (Instruction.deposit_pool_liquidity n) i (4 ∷ input) rest (sym made)
        (ap (λ l. 4 ∷ l) same) fits

  tag_five : unpack_tag 5 input ≡ ok i → Encodes i (5 ∷ input)
  unfolding unpack_tag
  tag_five e =
      let ((n, rest), read, made) =
        >>=-eq-ok (unpack_u64 input) (λ r. ok (Instruction.redeem_pool_collateral r.0)) e in
      let (same, fits, _) = unpack_u64-inv input n rest h read in
      Encodes-eq (Instruction.redeem_pool_collateral n) i (5 ∷ input) rest (sym made)
        (ap (λ l. 5 ∷ l) same) fits

  -- The tags without arguments, and those of no instruction.
  other_tags :
      (tag : ℕ)
      → unpack_tag (suc (suc (suc (suc (suc (suc tag)))))) input ≡ ok i
      → Encodes i (suc (suc (suc (suc (suc (suc tag))))) ∷ input)
  unfolding unpack_tag
  other_tags zero e = Encodes-eq Instruction.init_ticket i (6 ∷ input) input (sym e) refl tt
  other_tags (suc zero) e =
      Encodes-eq Instruction.refresh_ticket i (7 ∷ input) input (sym e) refl tt
  other_tags (suc (suc zero)) e =
      Encodes-eq Instruction.lottery_draw i (8 ∷ input) input (sym e) refl tt
  other_tags (suc (suc (suc tag))) e = ground arith

-- Every instruction that `unpack` returns for an input of bytes comes from an input that begins with
-- its encoding, and the arguments fit their widths: no other bytes are accepted.
pub unpack_sound :
    (input : List ℕ) (i : PoolingInstruction)
    → All IsByte input
    → unpack input ≡ ok i
    → Encodes i input
unfolding unpack
unpack_sound [] i h e = cc
unpack_sound (zero ∷ input) i h e = tag_zero input i h.1 e
unpack_sound (suc zero ∷ input) i h e = tag_one input i h.1 e
unpack_sound (suc (suc zero) ∷ input) i h e = tag_two input i h.1 e
unpack_sound (suc (suc (suc zero)) ∷ input) i h e =
    unfold unpack_tag in Encodes-eq Instruction.refresh_pool i (3 ∷ input) input (sym e) refl tt
unpack_sound (suc (suc (suc (suc zero))) ∷ input) i h e = tag_four input i h.1 e
unpack_sound (suc (suc (suc (suc (suc zero)))) ∷ input) i h e = tag_five input i h.1 e
unpack_sound (suc (suc (suc (suc (suc (suc tag))))) ∷ input) i h e = other_tags input i h.1 tag e
